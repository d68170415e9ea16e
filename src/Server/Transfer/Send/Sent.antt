-- ===== src/Server/Transfer/Send/Sent.antt =====
-- transfer.rs, `run_transfer_send`: what a send puts out.
use mathlib.Core.List.{append_assoc, append-nil}
use remote_workspace.Prelude.{
  ℕ, ◌+◌, ◌≤◌, min, ◌≡◌, ◌∙◌, refl, ap, sym, subst, String, Bytes, Bool, Option, none, some, List,
  [], ◌∷◌, ◌++◌, ◌⊎◌, inl, inr, length, take, drop, ltb, arith, Bool-cases, length-append,
  length-take, take-append-drop, take-append_self, take-at,
}
use remote_workspace.Protocol.Error.{IoError, ok}
use remote_workspace.Server.Workspace.{
  AbsPath, Metadata, FileSystem, Workspace, hash_bytes, is_file, resolve,
}
use remote_workspace.Server.Transfer.Stream.{Pass, Got, ended, refused, chunk, buf_size}
use remote_workspace.Server.Transfer.Send.{
  Sending, piece, put_out, read_file_pass, sent, send_loop, closes, send_file, send_resolved,
  run_transfer_send,
}

abbrev pub together : List Bytes → Bytes
together [] = []
together (c ∷ chunks) = c ++ together chunks

together-snoc :
    (chunks : List Bytes) (c : Bytes) → together (chunks ++ c ∷ []) ≡ together chunks ++ c
together-snoc [] c = append-nil c
together-snoc (d ∷ chunks) c =
    ap (λ t. d ++ t) (together-snoc chunks c) ∙ sym (append_assoc d (together chunks) c)

module _ (encode64 : Bytes → Bytes) (base64_chunks : Bool) where
  -- The chunks as they are written.
  abbrev pub pieces : List Bytes → Bytes
  pieces [] = []
  pieces (c ∷ chunks) = piece encode64 base64_chunks c ++ pieces chunks

  pieces-snoc :
      (chunks : List Bytes) (c : Bytes)
      → pieces (chunks ++ c ∷ []) ≡ pieces chunks ++ piece encode64 base64_chunks c
  pieces-snoc [] c = append-nil (piece encode64 base64_chunks c)
  pieces-snoc (d ∷ chunks) c =
      ap (λ t. piece encode64 base64_chunks d ++ t) (pieces-snoc chunks c)
      ∙ sym (
          append_assoc (piece encode64 base64_chunks d) (pieces chunks)
            (piece encode64 base64_chunks c))

  module _ (start content : Bytes) (size : ℕ) where
    -- What was read so far, in the chunks that were put out after the start.
    record Sends (w : Sending) : Type 0 where
      chunks : List Bytes
      out : w.out ≡ start ++ pieces chunks
      hashed : w.hashed ≡ together chunks
      split : w.hashed ++ w.rest ≡ content
      count : length w.hashed + w.remaining ≡ size

    put_out-Sends :
        (bytes rest : Bytes) (w : Sending)
        → Sends w
        → bytes ++ rest ≡ w.rest
        → length bytes ≤ w.remaining
        → Sends (put_out encode64 base64_chunks bytes rest w)
    put_out-Sends bytes rest w s whole few = record {
      chunks = s.chunks ++ bytes ∷ [];
      out =
          ap (λ t. t ++ piece encode64 base64_chunks bytes) s.out
          ∙ append_assoc start (pieces s.chunks) (piece encode64 base64_chunks bytes)
          ∙ ap (λ t. start ++ t) (sym (pieces-snoc s.chunks bytes));
      hashed = ap (λ t. t ++ bytes) s.hashed ∙ sym (together-snoc s.chunks bytes);
      split = append_assoc w.hashed bytes rest ∙ ap (λ t. w.hashed ++ t) whole ∙ s.split;
      count = omega (arith, length-append w.hashed bytes, s.count, few);
    }

    read_file_pass-all :
        (want : ℕ) (p : Pass) (o : Option IoError) (input bytes rest : Bytes)
        → read_file_pass encode64 want p o input ≡ chunk bytes rest
        → (bytes ++ rest ≡ input) × (length bytes ≤ want)
    read_file_pass-all want p (some e) input bytes rest h = cc
    read_file_pass-all want p none [] bytes rest h = cc
    read_file_pass-all want p none (b ∷ input) bytes rest h =
        let n : ℕ = min want (p.ready + 1) in
        let same : chunk (take n (b ∷ input)) (drop n (b ∷ input)) ≡ chunk bytes rest = h in
        let x : take n (b ∷ input) ≡ bytes = cc same in
        let y : drop n (b ∷ input) ≡ rest = cc same in
        let l : length (take n (b ∷ input)) ≡ length bytes = ap length x in
        (
          ap (λ t. t ++ rest) (sym x)
              ∙ ap (λ t. take n (b ∷ input) ++ t) (sym y)
              ∙ take-append-drop n (b ∷ input),
          omega (arith, length-take n (b ∷ input), l),
        )

    sent-Sends :
        (path : String) (g : Got) (e : Option IoError) (w w' : Sending)
        (next : Sending → Option (Sending ⊎ String))
        → Sends w
        → ((bytes rest : Bytes)
            → g ≡ chunk bytes rest
            → (bytes ++ rest ≡ w.rest) × (length bytes ≤ w.remaining))
        → ((v : Sending) → Sends v → next v ≡ some (inl w') → Sends w' × (w'.remaining ≡ 0))
        → sent encode64 base64_chunks path g e w next ≡ some (inl w')
        → Sends w' × (w'.remaining ≡ 0)
    sent-Sends path ended e w w' next s got after h = cc
    sent-Sends path (refused x) e w w' next s got after h = cc
    sent-Sends path (chunk bytes rest) (some e) w w' next s got after h = cc
    sent-Sends path (chunk bytes rest) none w w' next s got after h =
        let (whole, few) = got bytes rest refl in
        after (put_out encode64 base64_chunks bytes rest w) (put_out-Sends bytes rest w s whole few)
          h

    send_loop-Sends :
        (path : String) (passes : List Pass) (w w' : Sending)
        → Sends w
        → send_loop encode64 base64_chunks path passes w ≡ some (inl w')
        → Sends w' × (w'.remaining ≡ 0)
    unfolding send_loop
    send_loop-Sends path [] w w' s h = elim (Bool-cases (ltb 0 w.remaining)) [
      | inl more ↦ cc
      | inr full ↦
          let same : w ≡ w' = cc in
          subst (λ (v : Sending). Sends v × (v.remaining ≡ 0)) same (s, ground arith)
    ]
    send_loop-Sends path (p ∷ passes) w w' s h = elim (Bool-cases (ltb 0 w.remaining)) [
      | inl more ↦
          let want : ℕ = min w.remaining (buf_size base64_chunks) in
          sent-Sends path (read_file_pass encode64 want p p.read_error w.rest) p.write_error w w'
            (send_loop encode64 base64_chunks path passes) s
            (λ bytes rest k.
              let (whole, few) = read_file_pass-all want p p.read_error w.rest bytes rest k in
              (whole, omega (arith, few)))
            (λ v t k. send_loop-Sends path passes v w' t k) (cc)
      | inr full ↦
          let same : w ≡ w' = cc in
          subst (λ (v : Sending). Sends v × (v.remaining ≡ 0)) same (s, ground arith)
    ]

  module _ (header : ℕ → Bytes) (trailer : String → Bytes) (sha256_hex : Bytes → String) where
    -- A header line with the size, so many bytes from the start of the file, in chunks, and a trailer
    -- line with their hash.
    pub record Puts (size : ℕ) (content out : Bytes) : Type 0 where
      pub chunks : List Bytes
      pub body : together chunks ≡ take size content
      pub enough : size ≤ length content
      pub whole :
          out
          ≡ ((header size ++ b'\n' ∷ []) ++ pieces chunks)
            ++ trailer (hash_bytes sha256_hex (together chunks))
            ++ b'\n' ∷ []

    closes-Puts :
        (flushed : Option IoError) (size : ℕ) (content out : Bytes) (o : Option (Sending ⊎ String))
        → ((w : Sending)
            → o ≡ some (inl w)
            → Sends (header size ++ b'\n' ∷ []) content size w × (w.remaining ≡ 0))
        → closes encode64 header trailer sha256_hex flushed o ≡ some (inl out)
        → Puts size content out
    closes-Puts flushed size content out none sends h = cc
    closes-Puts flushed size content out (some (inr e)) sends h = cc
    closes-Puts (some e) size content out (some (inl w)) sends h = cc
    closes-Puts none size content out (some (inl w)) sends h =
        let (s, nothing) = sends w refl in
        let full : length w.hashed ≡ size = omega (arith, s.count, nothing) in
        let same : w.out ++ trailer (hash_bytes sha256_hex w.hashed) ++ b'\n' ∷ [] ≡ out = cc in
        record {
          chunks = s.chunks;
          body =
              sym s.hashed
              ∙ sym (take-append_self w.hashed w.rest)
              ∙ take-at (length w.hashed) size (w.hashed ++ w.rest) full
              ∙ ap (take size) s.split;
          enough =
              let l = length-append w.hashed w.rest in
              let m : length (w.hashed ++ w.rest) ≡ length content = ap length s.split in
              omega (arith, l, m, full);
          whole =
              sym same
              ∙ ap (λ t. t ++ trailer (hash_bytes sha256_hex w.hashed) ++ b'\n' ∷ []) s.out
              ∙ ap
                  (λ t.
                    ((header size ++ b'\n' ∷ []) ++ pieces s.chunks)
                    ++ trailer (hash_bytes sha256_hex t)
                    ++ b'\n' ∷ [])
                  s.hashed;
        }

    -- A send that succeeds puts out a header line with the size that the file had at first, so many
    -- bytes from its start, raw or as lines of Base64, and a trailer line with the hash of these bytes.
    pub run_transfer_send-Puts :
        (fs : FileSystem) (ws : Workspace) (flushed : Option IoError) (path : String)
        (passes : List Pass) (abs : AbsPath) (meta : Metadata) (content out : Bytes)
        → resolve fs ws path ≡ ok abs
        → fs.symlink_metadata abs ≡ inl meta
        → fs.contents abs ≡ inl content
        → run_transfer_send encode64 header trailer sha256_hex fs ws flushed base64_chunks path
            passes
          ≡ some (inl out)
        → Puts meta.len content out
    unfolding run_transfer_send
    run_transfer_send-Puts fs ws flushed path passes abs meta content out found stat open_ok h =
        let file : Metadata ⊎ IoError → Bytes ⊎ IoError → Option (Bytes ⊎ String) =
          send_file encode64 header trailer sha256_hex flushed base64_chunks path passes in
        let there : file (inl meta) (inl content) ≡ some (inl out) =
          sym (ap (file (inl meta)) open_ok)
          ∙ sym (ap (λ m. file m (fs.contents abs)) stat)
          ∙ sym (
              ap
                (send_resolved encode64 header trailer sha256_hex fs flushed base64_chunks path
                  passes)
                found)
          ∙ h in
        elim (Bool-cases (is_file meta.file_type)) [
          | inl regular ↦
              let start : Bytes = header meta.len ++ b'\n' ∷ [] in
              let first : Sending = record {
                remaining = meta.len;
                rest = content;
                hashed = [];
                out = start;
              } in
              closes-Puts flushed meta.len content out
                (send_loop encode64 base64_chunks path passes first)
                (λ w e.
                  send_loop-Sends start content meta.len path passes first w
                    (record {
                      chunks = [];
                      out = sym (append-nil start);
                      hashed = refl;
                      split = refl;
                      count = omega arith;
                    })
                    e)
                (cc)
          | inr other ↦ cc
        ]
