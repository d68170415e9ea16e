-- ===== src/Server/Fs/Edit.antt =====
-- fs_ops.rs: `create`, `edit` and `delete`.
use remote_workspace.Prelude.{
  ℕ, String, Bytes, Bool, true, false, Option, none, some, List, inl, inr, length, ltb, str_eq,
  ◌<>◌, if◌then◌else◌,
}
use remote_workspace.Prelude.Utf8.{is_utf8}
use remote_workspace.Protocol.Error.{
  ErrorCode, ProtocolError, new, with_hashes, from_io, io_failed, Result, ok, err,
}
use remote_workspace.Protocol.Messages.{EditSpec}
use remote_workspace.Protocol.Record.{AnyOperationRecord, ResultBody}
use remote_workspace.Server.Log.{Codec}
use remote_workspace.Server.Workspace.{
  AbsPath, Metadata, FileSystem, Workspace, is_missing, is_file, is_dir, resolve, is_symlink,
  hash_bytes, hash_file,
}
use remote_workspace.Server.Fs.WriteAhead.{Step, ◌>>=◌, ◌>>◌, pure, ask, Io, file_absent_hash}
use remote_workspace.Server.Fs.Sequence.{
  stage_write, write_ahead_create, write_ahead_delete, write_ahead_install,
}
use remote_workspace.Server.Fs.Apply.{
  max_text_bytes, invalid, is_well_formed_hash, check_arguments, apply_edits,
}

abbrev pub not_a_regular_file : String → ProtocolError
not_a_regular_file path = new ErrorCode.not_a_file ("not a regular file: " <> path)

abbrev not_found : String → ProtocolError
not_found path = new ErrorCode.not_found ("not found: " <> path)

abbrev require : Bool → ProtocolError → Result (Unit {0})
require true e = ok tt
require false e = err e

abbrev invalid_request : String → ProtocolError
invalid_request message = new ErrorCode.invalid_request message

abbrev text_fits : Bytes → Bool
text_fits content = if ltb max_text_bytes (length content) then false else true

-- `create`: nothing may be at the path.
abbrev absent : (path : String) → AbsPath → FileSystem → Result (Unit {0})
absent path abs fs = elim (fs.symlink_metadata abs) [
  | inl _ ↦ err (
      new ErrorCode.already_exists
        ("already exists: " <> path <> "; modify existing files with edit"))
  | inr e ↦ if is_missing e.kind then ok tt else err (from_io e)
]

-- `edit`: a regular file, and not above the size cap.
abbrev editable_meta : (path : String) → Metadata → Result (Unit {0})
editable_meta path meta =
    if is_file meta.file_type
    then (if ltb max_text_bytes meta.len
        then invalid "file exceeds 4194304 bytes; edit does not support files this large"
        else ok tt)
    else err (not_a_regular_file path)

abbrev editable : (path : String) → AbsPath → FileSystem → Result (Unit {0})
editable path abs fs = elim (fs.metadata abs) [
  | inl meta ↦ editable_meta path meta
  | inr e ↦
      if is_missing e.kind
      then err (
          new ErrorCode.not_found
            ("not found: " <> path <> "; new files are created with create, not edit"))
      else err (io_failed "" e)
]

abbrev read_file : AbsPath → FileSystem → Result Bytes
read_file abs fs = elim (fs.contents abs) [
  | inl bytes ↦ ok bytes
  | inr e ↦ err (io_failed "read failed: " e)
]

abbrev stale : (base_hash current : String) → ProtocolError
stale base_hash current =
    with_hashes (new ErrorCode.stale_file "file changed since base_hash") base_hash current

-- `delete`: a regular file.
abbrev deletable_meta : (path : String) → Metadata → Result (Unit {0})
deletable_meta path meta =
    if is_dir meta.file_type
    then err (new ErrorCode.is_a_directory ("not a file: " <> path))
    else if is_file meta.file_type
    then ok tt
    else err (not_a_regular_file path)

abbrev deletable : (path : String) → AbsPath → FileSystem → Result (Unit {0})
deletable path abs fs = elim (fs.metadata abs) [
  | inl meta ↦ deletable_meta path meta
  | inr e ↦ if is_missing e.kind then err (not_found path) else err (from_io e)
]

abbrev no_link : (path : String) → Bool → Result (Unit {0})
no_link path true =
    err
      (new ErrorCode.not_a_file (path <> " is a symlink; remove the link itself with run_command"))
no_link path false = ok tt

abbrev tell : {A : Type 0} → Result A → Step A
tell r w = (r, w)

module _ (json : Codec AnyOperationRecord) (now : ℕ) (io : Io) (sha256_hex : Bytes → String)
    (ws : Workspace) where
  unfoldable pub create : (request_id path : String) → Bytes → Step ResultBody
  unfolding resolve write_ahead_create
  create request_id path content = do
    tell (
        require (text_fits content)
          (invalid_request "content exceeds 4194304 bytes; use upload_file for large files"))
    abs ← ask (λ fs. resolve fs ws path)
    ask (absent path abs)
    written ← write_ahead_create json now io sha256_hex request_id path abs content
    pure (
        ResultBody.mutation
          (record { operation_id = written.0; old_hash = none; new_hash = written.1 }))

  unfoldable pub edit : (request_id path base_hash : String) → List EditSpec → Step ResultBody
  unfolding resolve check_arguments is_well_formed_hash is_utf8 apply_edits hash_bytes stage_write
      write_ahead_install
  edit request_id path base_hash edits = do
    tell (check_arguments edits)
    abs ← ask (λ fs. resolve fs ws path)
    ask (editable path abs)
    tell (
        require (is_well_formed_hash base_hash) (
          invalid_request (
            "base_hash " <> base_hash
            <> " is not a hash; pass the sha256:... value returned by read_file")))
    original ← ask (read_file abs)
    tell (
        require (str_eq (hash_bytes sha256_hex original) base_hash)
          (stale base_hash (hash_bytes sha256_hex original)))
    tell (
        require (is_utf8 original)
          (invalid_request "file is not valid UTF-8; editing binary files is unsupported"))
    content ← tell (apply_edits path 0 (length edits) original edits)
    tell (
        require
          (if str_eq (hash_bytes sha256_hex content) (hash_bytes sha256_hex original)
            then false
            else true)
          (invalid_request ("the replacements leave " <> path <> " unchanged; nothing to do")))
    staged ← stage_write sha256_hex io abs content
    written ←
        write_ahead_install json now io sha256_hex request_id path abs
          (hash_bytes sha256_hex original) staged
    pure (
        ResultBody.mutation (record {
          operation_id = written.0;
          old_hash = some (hash_bytes sha256_hex original);
          new_hash = written.1;
        }))

  abbrev hash_now : AbsPath → FileSystem → Result (Option String)
  hash_now abs fs = elim (hash_file sha256_hex fs abs) [ inl h ↦ ok h | inr e ↦ err (from_io e) ]

  unfoldable pub delete : (request_id path : String) → Step ResultBody
  unfolding resolve is_symlink hash_file write_ahead_delete
  delete request_id path = do
    abs ← ask (λ fs. resolve fs ws path)
    link ← ask (λ fs. is_symlink fs ws path)
    tell (no_link path link)
    ask (deletable path abs)
    before ← ask (hash_now abs)
    op_id ← write_ahead_delete json now io request_id path abs before
    pure (
        ResultBody.mutation
          (record { operation_id = op_id; old_hash = before; new_hash = file_absent_hash }))
