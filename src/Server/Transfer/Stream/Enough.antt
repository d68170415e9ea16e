-- ===== src/Server/Transfer/Stream/Enough.antt =====
-- transfer.rs, `run_transfer_receive`: when a receive of raw bytes reports.
use remote_workspace.Prelude.{
  ℕ, ◌+◌, ◌-◌, ◌≤◌, min, ◌≡◌, ◌∙◌, refl, ap, String, Bytes, true, false, Option, none, some, List,
  [], ◌∷◌, ◌⊎◌, inl, inr, length, take, drop, ltb, ◌==◌, arith, length-take, length-drop,
  Bool-cases,
}
use remote_workspace.Protocol.Error.{IoError}
use remote_workspace.Server.Workspace.{hash_bytes}
use remote_workspace.Server.Transfer.Stream.Received.{run_transfer_receive-take}
use remote_workspace.Server.Transfer.Stream.{
  ReceiveMetadata, Pass, read_pass, Receiving, wrote, receive_loop, reports, run_transfer_receive,
  buf_size, chunk,
}

-- No read and no write fails.
abbrev pub AllWork : List Pass → Type 0
AllWork [] = Unit {0}
AllWork (p ∷ passes) = (p.read_error ≡ none) × (p.write_error ≡ none) × AllWork passes

module _ (decode64 : Bytes → Bytes ⊎ String) (expect_size : ℕ) where
  -- So much is there still.
  Remains : Receiving decode64 → Type 0
  Remains w = (expect_size ≤ w.total + length w.stdin) × (w.total ≤ expect_size)

  advance : Pass → Receiving decode64 → Receiving decode64
  advance p w =
      let n : ℕ = min (min (expect_size - w.total) (buf_size false)) (p.ready + 1) in
      wrote decode64 (take n w.stdin) (drop n w.stdin) w

  advance-total :
      (p : Pass) (w : Receiving decode64)
      → Remains w
      → w.total + 1 ≤ expect_size
      → Remains (advance p w) × (w.total + 1 ≤ (advance p w).total)
  unfolding Remains advance
  advance-total p w (there, most) more =
      let n : ℕ = min (min (expect_size - w.total) (buf_size false)) (p.ready + 1) in
      let t = length-take n w.stdin in
      let d = length-drop n w.stdin in
      ((omega (arith, t, d, there), omega (arith, t, d, there)), omega (arith, t, d, there, more))

  read_more :
      (p : Pass) (w : Receiving decode64)
      → Remains w
      → w.total + 1 ≤ expect_size
      → p.read_error ≡ none
      → read_pass decode64 false
          (min (expect_size - w.total) (buf_size false))
          p
          p.read_error
          w.stdin
        ≡ (let n : ℕ = min (min (expect_size - w.total) (buf_size false)) (p.ready + 1) in
            chunk (take n w.stdin) (drop n w.stdin))
  unfolding Remains
  read_more p w (there, most) more works = by_input p.read_error w.stdin works there
    where
      by_input :
          (o : Option IoError) (stdin : Bytes)
          → o ≡ none
          → expect_size ≤ w.total + length stdin
          → read_pass decode64 false (min (expect_size - w.total) (buf_size false)) p o stdin ≡ (
              let n : ℕ = min (min (expect_size - w.total) (buf_size false)) (p.ready + 1) in
              chunk (take n stdin) (drop n stdin))
      by_input (some e) stdin c l = cc
      by_input none [] c l = absurd (omega arith)
      by_input none (b ∷ stdin) c l = refl

  one_pass :
      (p : Pass) (passes : List Pass) (w : Receiving decode64)
      → Remains w
      → ltb w.total expect_size ≡ true
      → p.read_error ≡ none
      → p.write_error ≡ none
      → receive_loop decode64 false expect_size (p ∷ passes) w
        ≡ receive_loop decode64 false expect_size passes (advance p w)
  unfolding receive_loop advance
  one_pass p passes w r more reads writes =
      let got = read_more p w r (ground arith) reads in rw (more, got) (rw writes refl)

  receive_loop-full :
      (passes : List Pass) (w : Receiving decode64)
      → Remains w
      → AllWork passes
      → expect_size ≤ w.total + length passes
      → (w' : Receiving decode64) × (receive_loop decode64 false expect_size passes w
          ≡ some (none, w'))
        × (w'.total ≡ expect_size)
  unfolding receive_loop Remains
  receive_loop-full [] w (there, most) works enough =
      let stop : ltb w.total expect_size ≡ false = ground (arith, enough) in
      (w, rw stop refl, omega arith)
  receive_loop-full (p ∷ passes) w r (reads, writes, works) enough =
      elim (Bool-cases (ltb w.total expect_size)) [
        | inl more ↦
            let (next, gain) = advance-total p w r (ground arith) in
            let (w', e, full) =
              receive_loop-full passes (advance p w) next works (omega (arith, gain, enough)) in
            (w', one_pass p passes w r more reads writes ∙ e, full)
        | inr stop ↦ let (there, most) = r in (w, rw stop refl, ground arith)
      ]

  module _ (sha256_hex : Bytes → String) where
    reports-full :
        (w : Receiving decode64)
        → w.total ≡ expect_size
        → reports decode64 sha256_hex expect_size none (some (none, w))
          ≡ some (inl (record { size = w.total; sha256 = hash_bytes sha256_hex w.hashed }), w.file)
    reports-full w full =
        let same : (w.total == expect_size) ≡ true = ground (arith, full) in rw same refl

    -- A receive of raw bytes reports, with the first bytes of its input in the staging file, after as
    -- many passes as there are bytes declared, at the latest, if no call fails and the input has so
    -- many bytes.
    pub run_transfer_receive-returns :
        (before : Bytes) (passes : List Pass) (stdin : Bytes)
        → AllWork passes
        → expect_size ≤ length stdin
        → expect_size ≤ length passes
        → (meta : ReceiveMetadata) × (run_transfer_receive decode64 sha256_hex none none before
              false expect_size passes stdin
            ≡ some (inl meta, take expect_size stdin))
    unfolding run_transfer_receive Remains
    run_transfer_receive-returns before passes stdin works there enough =
        let start : Receiving decode64 = record {
          hashed = [];
          file = [];
          total = 0;
          stdin = stdin;
        } in
        let (w, ends, full) =
          receive_loop-full passes start (omega arith, omega arith) works (omega arith) in
        let meta : ReceiveMetadata = record {
          size = w.total;
          sha256 = hash_bytes sha256_hex w.hashed;
        } in
        let done : run_transfer_receive decode64 sha256_hex none none before false expect_size
              passes stdin
            ≡ some (inl meta, w.file) =
          ap (reports decode64 sha256_hex expect_size none) ends ∙ reports-full w full in
        (
          meta,
          done
              ∙ ap (λ (file : Bytes). some (inl meta, file))
                  (run_transfer_receive-take decode64 sha256_hex none none before expect_size passes
                    stdin meta w.file done),
        )
