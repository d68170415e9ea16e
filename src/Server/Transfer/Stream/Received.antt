-- ===== src/Server/Transfer/Stream/Received.antt =====
-- transfer.rs, `run_transfer_receive`: what it reports of the staging file.
use mathlib.Core.List.{append_assoc}
use remote_workspace.Prelude.{
  ℕ, ◌+◌, ◌-◌, min, ◌≡◌, ◌∙◌, refl, ap, sym, subst, String, Bytes, Bool, false, Option, none, some,
  List, [], ◌∷◌, ◌++◌, ◌⊎◌, inl, inr, length, take, drop, ltb, ◌==◌, arith, length-append,
  take-append-drop, take-append_self, take-at, Bool-cases,
}
use remote_workspace.Protocol.Error.{IoError}
use remote_workspace.Server.Workspace.{hash_bytes}
use remote_workspace.Server.Transfer.Stream.{
  ReceiveMetadata, Pass, Got, ended, refused, chunk, read_pass, Receiving, Ending, wrote, passed,
  receive_loop, reports, run_transfer_receive, buf_size,
}

module _ (decode64 : Bytes → Bytes ⊎ String) where
  -- What every chunk keeps holds at the end of a loop that ends without an error.
  module _ (Inv : Receiving decode64 → Type 0) where
    passed-Inv :
        (p : Pass) (g : Got) (e : Option IoError) (w w' : Receiving decode64)
        (next : Receiving decode64 → Option (Ending decode64))
        → Inv w
        → ((v : Receiving decode64) → Inv v → next v ≡ some (none, w') → Inv w')
        → ((bytes rest : Bytes) → g ≡ chunk bytes rest → Inv (wrote decode64 bytes rest w))
        → passed decode64 p g e w next ≡ some (none, w')
        → Inv w'
    passed-Inv p ended e w w' next i after kept h = subst Inv (cc) i
    passed-Inv p (refused x) e w w' next i after kept h = cc
    passed-Inv p (chunk bytes rest) (some e) w w' next i after kept h = cc
    passed-Inv p (chunk bytes rest) none w w' next i after kept h =
        after (wrote decode64 bytes rest w) (kept bytes rest refl) h

    module _ (base64_chunks : Bool) (expect_size : ℕ)
        (kept : (p : Pass) (w : Receiving decode64) (bytes rest : Bytes)
          → Inv w
          → read_pass decode64 base64_chunks
              (min (expect_size - w.total) (buf_size base64_chunks))
              p
              p.read_error
              w.stdin
            ≡ chunk bytes rest
          → Inv (wrote decode64 bytes rest w)) where
      receive_loop-Inv :
          (passes : List Pass) (w w' : Receiving decode64)
          → Inv w
          → receive_loop decode64 base64_chunks expect_size passes w ≡ some (none, w')
          → Inv w'
      unfolding receive_loop
      receive_loop-Inv [] w w' i h = elim (Bool-cases (ltb w.total expect_size)) [
        | inl more ↦ cc
        | inr full ↦ subst Inv (cc) i
      ]
      receive_loop-Inv (p ∷ passes) w w' i h = elim (Bool-cases (ltb w.total expect_size)) [
        | inl more ↦
            passed-Inv p
              (read_pass decode64 base64_chunks
                (min (expect_size - w.total) (buf_size base64_chunks)) p p.read_error w.stdin)
              p.write_error w w' (receive_loop decode64 base64_chunks expect_size passes) i
              (λ v j k. receive_loop-Inv passes v w' j k) (λ bytes rest k. kept p w bytes rest i k)
              (cc)
        | inr full ↦ subst Inv (cc) i
      ]

  -- The file has what was hashed and counted.
  record Counts (w : Receiving decode64) : Type 0 where
    hashed : w.hashed ≡ w.file
    total : w.total ≡ length w.file

  wrote-Counts :
      (bytes rest : Bytes) (w : Receiving decode64)
      → Counts w
      → Counts (wrote decode64 bytes rest w)
  wrote-Counts bytes rest w c = record {
    hashed = ap (λ h. h ++ bytes) c.hashed;
    total = omega (arith, c.total, length-append w.file bytes);
  }

  -- What was taken from the input and what is left are all of it.
  Splits : Bytes → Receiving decode64 → Type 0
  Splits stdin w = w.file ++ w.stdin ≡ stdin

  read_raw-all :
      (want : ℕ) (p : Pass) (o : Option IoError) (stdin bytes rest : Bytes)
      → read_pass decode64 false want p o stdin ≡ chunk bytes rest
      → bytes ++ rest ≡ stdin
  read_raw-all want p (some e) stdin bytes rest h = cc
  read_raw-all want p none [] bytes rest h = cc
  read_raw-all want p none (b ∷ stdin) bytes rest h =
      let n : ℕ = min want (p.ready + 1) in
      let same : chunk (take n (b ∷ stdin)) (drop n (b ∷ stdin)) ≡ chunk bytes rest = h in
      let x : take n (b ∷ stdin) ≡ bytes = cc same in
      let y : drop n (b ∷ stdin) ≡ rest = cc same in
      ap (λ t. t ++ rest) (sym x)
      ∙ ap (λ t. take n (b ∷ stdin) ++ t) (sym y)
      ∙ take-append-drop n (b ∷ stdin)

  wrote-Splits :
      (input : Bytes) (expect_size : ℕ) (p : Pass) (w : Receiving decode64) (bytes rest : Bytes)
      → Splits input w
      → read_pass decode64 false
          (min (expect_size - w.total) (buf_size false))
          p
          p.read_error
          w.stdin
        ≡ chunk bytes rest
      → Splits input (wrote decode64 bytes rest w)
  unfolding Splits
  wrote-Splits input expect_size p w bytes rest s h =
      append_assoc w.file bytes rest
      ∙ ap (λ t. w.file ++ t)
          (read_raw-all (min (expect_size - w.total) (buf_size false)) p p.read_error w.stdin bytes
            rest h)
      ∙ s

  module _ (sha256_hex : Bytes → String) where
    -- What a report that is no error says of the loop.
    reports-inl :
        (expect_size : ℕ) (synced : Option IoError) (o : Option (Ending decode64))
        (meta : ReceiveMetadata) (file : Bytes)
        → reports decode64 sha256_hex expect_size synced o ≡ some (inl meta, file)
        → (w : Receiving decode64) × (o ≡ some (none, w))
          × (w.file ≡ file)
          × (w.total ≡ expect_size)
          × (meta.size ≡ w.total)
          × (meta.sha256 ≡ hash_bytes sha256_hex w.hashed)
    reports-inl expect_size synced none meta file h = cc
    reports-inl expect_size synced (some (some e, w)) meta file h = cc
    reports-inl expect_size (some e) (some (none, w)) meta file h =
        elim (Bool-cases (w.total == expect_size)) [ inl t ↦ cc | inr f ↦ cc ]
    reports-inl expect_size none (some (none, w)) meta file h =
        elim (Bool-cases (w.total == expect_size)) [
          | inl t ↦
              let same : ◌≡◌ {A = Option ((ReceiveMetadata ⊎ String) × Bytes)}
                  (some (
                    inl (record { size = w.total; sha256 = hash_bytes sha256_hex w.hashed }),
                    w.file,
                  ))
                  (some (inl meta, file)) =
                cc in
              let m : ◌≡◌ {A = ReceiveMetadata}
                  (record { size = w.total; sha256 = hash_bytes sha256_hex w.hashed }) meta =
                cc in
              (
                w,
                refl,
                cc,
                ground arith,
                ap (λ (m : ReceiveMetadata). m.size) (sym m),
                ap (λ (m : ReceiveMetadata). m.sha256) (sym m),
              )
          | inr f ↦ cc
        ]

    -- A report is of the whole staging file, and this has the size that was declared.
    pub record Reported (expect_size : ℕ) (meta : ReceiveMetadata) (file : Bytes) : Type 0 where
      pub size : meta.size ≡ expect_size
      pub whole : length file ≡ expect_size
      pub sha256 : meta.sha256 ≡ hash_bytes sha256_hex file

    -- A receive that reports, of raw bytes or of Base64 lines, reports the size and the hash of what is
    -- then in the staging file, and the size is the one that was declared.
    pub run_transfer_receive-Reported :
        (opened synced : Option IoError) (before : Bytes) (base64_chunks : Bool) (expect_size : ℕ)
        (passes : List Pass) (stdin : Bytes) (meta : ReceiveMetadata) (file : Bytes)
        → run_transfer_receive decode64 sha256_hex opened synced before base64_chunks expect_size
            passes stdin
          ≡ some (inl meta, file)
        → Reported expect_size meta file
    unfolding run_transfer_receive
    run_transfer_receive-Reported (some e) synced before base64_chunks expect_size passes stdin meta
          file h =
        cc
    run_transfer_receive-Reported none synced before base64_chunks expect_size passes stdin meta
          file h =
        let start : Receiving decode64 = record {
          hashed = [];
          file = [];
          total = 0;
          stdin = stdin;
        } in
        let (w, ends, same, full, size, sha256) =
          reports-inl expect_size synced
            (receive_loop decode64 base64_chunks expect_size passes start) meta file h in
        let counts =
          receive_loop-Inv Counts base64_chunks expect_size
            (λ p w bytes rest c k. wrote-Counts bytes rest w c) passes start w
            (record { hashed = refl; total = refl }) ends in
        record {
          size = size ∙ full;
          whole = ap length (sym same) ∙ sym counts.total ∙ full;
          sha256 = sha256 ∙ ap (hash_bytes sha256_hex) (counts.hashed ∙ same);
        }

    -- A receive of raw bytes that reports has put the first bytes of its input into the staging file,
    -- as many as were declared, however they arrived.
    pub run_transfer_receive-take :
        (opened synced : Option IoError) (before : Bytes) (expect_size : ℕ) (passes : List Pass)
        (stdin : Bytes) (meta : ReceiveMetadata) (file : Bytes)
        → run_transfer_receive decode64 sha256_hex opened synced before false expect_size passes
            stdin
          ≡ some (inl meta, file)
        → file ≡ take expect_size stdin
    unfolding run_transfer_receive Splits
    run_transfer_receive-take (some e) synced before expect_size passes stdin meta file h = cc
    run_transfer_receive-take none synced before expect_size passes stdin meta file h =
        let start : Receiving decode64 = record {
          hashed = [];
          file = [];
          total = 0;
          stdin = stdin;
        } in
        let (w, ends, same, full, size, sha256) =
          reports-inl expect_size synced (receive_loop decode64 false expect_size passes start) meta
            file h in
        let counts =
          receive_loop-Inv Counts false expect_size
            (λ p w bytes rest c k. wrote-Counts bytes rest w c) passes start w
            (record { hashed = refl; total = refl }) ends in
        let splits =
          receive_loop-Inv (Splits stdin) false expect_size
            (λ p w bytes rest s k. wrote-Splits stdin expect_size p w bytes rest s k) passes start w
            refl ends in
        sym same
        ∙ sym (take-append_self w.file w.stdin)
        ∙ take-at (length w.file) expect_size (w.file ++ w.stdin) (sym counts.total ∙ full)
        ∙ ap (take expect_size) splits
