-- ===== src/Server/Transfer/Send.antt =====
-- transfer.rs, `run_transfer_send`: the output of a send that succeeds, or its error; what a failed send
-- has put out before is left out. A pass of the loop is what its system calls answer. With no pass left
-- the loop has not returned, which is `none`.
pub mod Sent
use remote_workspace.Prelude.{
  ℕ, ◌-◌, min, String, Bytes, Bool, true, false, Option, none, some, List, [], ◌∷◌, ◌++◌, ◌⊎◌, inl,
  inr, length, ltb, ◌<>◌, if◌then◌else◌,
}
use remote_workspace.Protocol.Error.{ProtocolError, IoError, Result, ok, err, display}
use remote_workspace.Server.Workspace.{
  AbsPath, Metadata, FileSystem, Workspace, hash_bytes, is_file, resolve,
}
use remote_workspace.Server.Transfer.Stream.{Pass, Got, ended, refused, chunk, read_raw, buf_size}

-- What the loop carries: the bytes to come, the rest of the file, the bytes hashed, the output.
pub record Sending : Type 0 where
  pub remaining : ℕ
  pub rest : Bytes
  pub hashed : Bytes
  pub out : Bytes

module _ (encode64 : Bytes → Bytes) where
  -- A chunk as it is written: as it is, or as a line of Base64.
  abbrev pub piece : (base64_chunks : Bool) → Bytes → Bytes
  piece false bytes = bytes
  piece true bytes = encode64 bytes ++ b'\n' ∷ []

  abbrev pub put_out : (base64_chunks : Bool) → (bytes rest : Bytes) → Sending → Sending
  put_out base64_chunks bytes rest w = record {
    remaining = w.remaining - length bytes;
    rest = rest;
    hashed = w.hashed ++ bytes;
    out = w.out ++ piece base64_chunks bytes;
  }

  abbrev pub read_file_pass : (want : ℕ) → Pass → Option IoError → Bytes → Got
  read_file_pass want p (some e) rest = refused e.text
  read_file_pass want p none rest = read_raw want p rest

  abbrev pub sent :
      (base64_chunks : Bool)
      → (path : String) → Got
      → (write_error : Option IoError) → Sending
      → (Sending → Option (Sending ⊎ String))
      → Option (Sending ⊎ String)
  sent base64_chunks path ended write_error w next =
      some (inr ("file shrank during send: " <> path))
  sent base64_chunks path (refused e) write_error w next = some (inr e)
  sent base64_chunks path (chunk bytes rest) (some e) w next = some (inr e.text)
  sent base64_chunks path (chunk bytes rest) none w next = next (put_out base64_chunks bytes rest w)

  unfoldable pub send_loop :
      (base64_chunks : Bool) → (path : String) → List Pass → Sending → Option (Sending ⊎ String)
  send_loop base64_chunks path [] w = if ltb 0 w.remaining then none else some (inl w)
  send_loop base64_chunks path (p ∷ passes) w =
      if ltb 0 w.remaining
      then sent base64_chunks path
          (read_file_pass (min w.remaining (buf_size base64_chunks)) p p.read_error w.rest)
          p.write_error w (send_loop base64_chunks path passes)
      else some (inl w)

  module _ (header : ℕ → Bytes) (trailer : String → Bytes) (sha256_hex : Bytes → String) where
    -- The trailer, and the flush.
    abbrev pub closed : (flushed : Option IoError) → Sending ⊎ String → Bytes ⊎ String
    closed flushed (inr e) = inr e
    closed (some e) (inl w) = inr e.text
    closed none (inl w) = inl (w.out ++ trailer (hash_bytes sha256_hex w.hashed) ++ b'\n' ∷ [])

    abbrev pub closes :
        (flushed : Option IoError) → Option (Sending ⊎ String) → Option (Bytes ⊎ String)
    closes flushed none = none
    closes flushed (some r) = some (closed flushed r)

    -- The file of which `meta` tells the size, with the bytes that it has once it is open.
    abbrev pub send_file :
        (flushed : Option IoError)
        → (base64_chunks : Bool) → (path : String) → List Pass
        → Metadata ⊎ IoError
        → Bytes ⊎ IoError
        → Option (Bytes ⊎ String)
    send_file flushed base64_chunks path passes (inr e) content =
        some (inr ("cannot stat " <> path <> ": " <> e.text))
    send_file flushed base64_chunks path passes (inl meta) (inr e) =
        if is_file meta.file_type
        then some (inr e.text)
        else some (inr ("not a regular file: " <> path))
    send_file flushed base64_chunks path passes (inl meta) (inl content) =
        if is_file meta.file_type
        then closes flushed (
            send_loop base64_chunks path passes (record {
              remaining = meta.len;
              rest = content;
              hashed = [];
              out = header meta.len ++ b'\n' ∷ [];
            }))
        else some (inr ("not a regular file: " <> path))

    abbrev pub send_resolved :
        FileSystem
        → (flushed : Option IoError) → (base64_chunks : Bool) → (path : String) → List Pass
        → Result AbsPath
        → Option (Bytes ⊎ String)
    send_resolved fs flushed base64_chunks path passes (err e) = some (inr (display e))
    send_resolved fs flushed base64_chunks path passes (ok abs) =
        send_file flushed base64_chunks path passes (fs.symlink_metadata abs) (fs.contents abs)

    unfoldable pub run_transfer_send :
        FileSystem
        → Workspace
        → (flushed : Option IoError) → (base64_chunks : Bool) → (path : String) → List Pass
        → Option (Bytes ⊎ String)
    unfolding resolve send_loop hash_bytes
    run_transfer_send fs ws flushed base64_chunks path passes =
        send_resolved fs flushed base64_chunks path passes (resolve fs ws path)
