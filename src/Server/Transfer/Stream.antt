-- ===== src/Server/Transfer/Stream.antt =====
-- transfer.rs, the raw data plane: `run_transfer_receive` and `run_transfer_send`. A pass of a loop is
-- what its system calls answer; the Base64 coding and the text of the header and the trailer are
-- parameters. With no pass left a loop has not returned, which is `none`.
pub mod Received
pub mod Enough
use remote_workspace.Prelude.{
  ℕ, ◌+◌, ◌-◌, min, String, Bytes, Bool, true, false, Option, none, some, List, [], ◌∷◌, ◌++◌, ◌⊎◌,
  inl, inr, length, take, drop, ltb, ◌==◌, ◌||◌, ◌<>◌, if◌then◌else◌,
}
use remote_workspace.Prelude.Decimal.{show}
use remote_workspace.Prelude.Utf8.{is_utf8}
use remote_workspace.Protocol.Error.{IoError}
use remote_workspace.Server.Workspace.{hash_bytes}

-- `TRANSFER_BUF_SIZE`
abbrev transfer_buf_size : ℕ
transfer_buf_size = 65536

-- `BASE64_TRANSFER_BUF_SIZE`
abbrev base64_transfer_buf_size : ℕ
base64_transfer_buf_size = 3072

abbrev pub buf_size : (base64_chunks : Bool) → ℕ
buf_size base64_chunks = if base64_chunks then base64_transfer_buf_size else transfer_buf_size

pub record ReceiveMetadata : Type 0 where
  pub size : ℕ
  pub sha256 : String

-- A read gets at least one byte, and `ready` more at most, unless the input has ended. A write that
-- fails has written `partial` bytes.
pub record Pass : Type 0 where
  pub ready : ℕ
  pub read_error : Option IoError
  pub write_error : Option IoError
  pub partial : ℕ

-- What a pass takes from the input: nothing more, an error, or a chunk with the rest of the input.
pub data Got : Type 0 where
  ended : Got
  refused : String → Got
  chunk : (bytes rest : Bytes) → Got

-- `read`, into the first `want` bytes of the buffer.
abbrev pub read_raw : (want : ℕ) → Pass → Bytes → Got
read_raw want p [] = ended
read_raw want p (b ∷ stdin) =
    chunk (take (min want (p.ready + 1)) (b ∷ stdin)) (drop (min want (p.ready + 1)) (b ∷ stdin))

-- `read_line`
unfoldable pub read_line : Bytes → Bytes × Bytes
read_line [] = ([], [])
read_line (b ∷ stdin) =
    let (line, rest) = read_line stdin in if b == 10 then (b ∷ [], stdin) else (b ∷ line, rest)

abbrev trimmed_before : ℕ → Bytes → Bytes
trimmed_before b [] = if b == 10 || b == 13 then [] else b ∷ []
trimmed_before b (c ∷ line) = b ∷ c ∷ line

-- `trim_end_matches(['\r', '\n'])`
unfoldable pub trim_breaks : Bytes → Bytes
trim_breaks [] = []
trim_breaks (b ∷ line) = trimmed_before b (trim_breaks line)

module _ (decode64 : Bytes → Bytes ⊎ String) where
  abbrev pub decoded_as : (raw_size : ℕ) → Bytes ⊎ String → (rest : Bytes) → Got
  decoded_as raw_size (inr e) rest = refused ("invalid Base64 transfer chunk: " <> e)
  decoded_as raw_size (inl decoded) rest =
      if length decoded == 0 || ltb raw_size (length decoded)
      then refused (
          "Base64 chunk decoded to "
          <> show (length decoded)
          <> " bytes with at most "
          <> show raw_size
          <> " expected")
      else chunk decoded rest

  abbrev pub read_base64 : (raw_size : ℕ) → Bytes → Got
  read_base64 raw_size [] = ended
  read_base64 raw_size (b ∷ stdin) =
      let (encoded, rest) = read_line (b ∷ stdin) in
      if is_utf8 encoded
      then decoded_as raw_size (decode64 (trim_breaks encoded)) rest
      else refused "stream did not contain valid UTF-8"

  abbrev pub read_pass : (base64_chunks : Bool) → (want : ℕ) → Pass → Option IoError → Bytes → Got
  read_pass base64_chunks want p (some e) stdin = refused e.text
  read_pass true want p none stdin = read_base64 want stdin
  read_pass false want p none stdin = read_raw want p stdin

  -- What the loop carries: the bytes that were hashed, the staging file, the count, the input left.
  pub record Receiving : Type 0 where
    pub hashed : Bytes
    pub file : Bytes
    pub total : ℕ
    pub stdin : Bytes

  abbrev pub Ending : Type 0
  Ending = Option String × Receiving

  abbrev pub wrote : Bytes → (rest : Bytes) → Receiving → Receiving
  wrote bytes rest w = record {
    hashed = w.hashed ++ bytes;
    file = w.file ++ bytes;
    total = w.total + length bytes;
    stdin = rest;
  }

  abbrev pub wrote_part : (partial : ℕ) → Bytes → (rest : Bytes) → Receiving → Receiving
  wrote_part partial bytes rest w = record w {
    hashed = w.hashed ++ bytes;
    file = w.file ++ take partial bytes;
    stdin = rest;
  }

  -- One pass, with what the loop does after it.
  abbrev pub passed :
      Pass → Got → Option IoError → Receiving → (Receiving → Option Ending) → Option Ending
  passed p ended write_error w next = some (none, w)
  passed p (refused e) write_error w next = some (some e, w)
  passed p (chunk bytes rest) (some e) w next =
      some (some e.text, wrote_part p.partial bytes rest w)
  passed p (chunk bytes rest) none w next = next (wrote bytes rest w)

  -- The loop: no error at its end, or one.
  unfoldable pub receive_loop :
      (base64_chunks : Bool) → (expect_size : ℕ) → List Pass → Receiving → Option Ending
  unfolding read_line trim_breaks
  receive_loop base64_chunks expect_size [] w =
      if ltb w.total expect_size then none else some (none, w)
  receive_loop base64_chunks expect_size (p ∷ passes) w =
      if ltb w.total expect_size
      then passed p
          (read_pass base64_chunks (min (expect_size - w.total) (buf_size base64_chunks)) p
            p.read_error w.stdin)
          p.write_error w (receive_loop base64_chunks expect_size passes)
      else some (none, w)

  module _ (sha256_hex : Bytes → String) where
    abbrev pub reported :
        (expect_size : ℕ) → (sync : Option IoError) → Ending → (ReceiveMetadata ⊎ String) × Bytes
    reported expect_size sync (some e, w) = (inr e, w.file)
    reported expect_size (some e) (none, w) =
        if w.total == expect_size then (inr e.text, w.file) else (
          inr ("received " <> show w.total <> " bytes but caller declared " <> show expect_size),
          w.file,
        )
    reported expect_size none (none, w) =
        if w.total == expect_size
        then (inl (record { size = w.total; sha256 = hash_bytes sha256_hex w.hashed }), w.file)
        else (
          inr ("received " <> show w.total <> " bytes but caller declared " <> show expect_size),
          w.file,
        )

    abbrev pub reports :
        (expect_size : ℕ)
        → (sync : Option IoError) → Option Ending
        → Option ((ReceiveMetadata ⊎ String) × Bytes)
    reports expect_size sync none = none
    reports expect_size sync (some ending) = some (reported expect_size sync ending)

    -- `run_transfer_receive`: what it reports, and the bytes of the staging file, which is `before` at
    -- the start.
    unfoldable pub run_transfer_receive :
        (opened synced : Option IoError)
        → (before : Bytes) → (base64_chunks : Bool) → (expect_size : ℕ) → List Pass
        → (stdin : Bytes) → Option ((ReceiveMetadata ⊎ String) × Bytes)
    unfolding receive_loop hash_bytes
    run_transfer_receive (some e) synced before base64_chunks expect_size passes stdin =
        some (inr ("open staging file: " <> e.text), before)
    run_transfer_receive none synced before base64_chunks expect_size passes stdin =
        reports expect_size synced (
          receive_loop base64_chunks expect_size passes
            (record { hashed = []; file = []; total = 0; stdin = stdin }))
