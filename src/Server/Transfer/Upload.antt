-- ===== src/Server/Transfer/Upload.antt =====
-- transfer.rs: `upload_commit`, `upload_abort` and `download_record`, on Unix. A file that is renamed or
-- linked keeps its bytes and its mode.
pub mod Commit
use Prim.Native.Char.{Char, len_utf8}
use Prim.Native.String.{[] as nil, ◌∷◌ as ◌▹◌}
use mathlib.Core.List.{reverse}
use remote_workspace.Prelude.{
  ℕ, ◌-◌, String, Bytes, Bool, true, false, Option, none, some, List, [], ◌∷◌, ◌++◌, ◌⊎◌, inl, inr,
  leb, ◌==◌, ◌<>◌, if◌then◌else◌,
}
use remote_workspace.Prelude.Decimal.{show}
use remote_workspace.Protocol.Error.{
  ErrorCode, ProtocolError, IoError, IoErrorKind, new, from_io, io_failed, Result, ok, err,
}
use remote_workspace.Protocol.Messages.{TransferDirection}
use remote_workspace.Protocol.Record.{AnyOperationRecord, TransferOperationRecord, ResultBody}
use remote_workspace.Server.Log.{Codec}
use remote_workspace.Server.Store.{OperationStore, Store, next_operation_id}
use remote_workspace.Server.Store.Records.{append_transfer_record}
use remote_workspace.Server.Workspace.{
  AbsPath, Metadata, FileSystem, Workspace, is_missing, is_file, is_dir, resolve,
}
use remote_workspace.Server.Fs.WriteAhead.{path_eq, put_file, drop_file, parent, new_file_mode}
use remote_workspace.Server.Transfer.Registry.{
  PendingUpload, Uploads, pending_get, insert, remove, in_flight_staging, stale_staging_max_age,
}
use remote_workspace.Server.Transfer.Sweep.{
  StagingEntry, sweep_stale_staging_dir, staging_prefix, staging_suffix,
}
use remote_workspace.Server.Transfer.Site.{
  Site, Task, ◌>>=◌, ◌>>◌, pure, ask, in_store, change, check, refuse, in_registry, taken,
}

abbrev with_mode : ℕ → Metadata ⊎ IoError → Metadata ⊎ IoError
with_mode mode (inl meta) = inl (record meta { mode = mode })
with_mode mode (inr e) = inr e

-- `set_permissions`
unfoldable pub set_mode : AbsPath → ℕ → FileSystem → FileSystem
unfolding path_eq
set_mode abs mode fs = record fs {
  metadata = λ p. if path_eq p abs then with_mode mode (fs.metadata p) else fs.metadata p;
  symlink_metadata =
      λ p. if path_eq p abs then with_mode mode (fs.symlink_metadata p) else fs.symlink_metadata p;
}

-- The target is the same file as the staging path.
unfoldable pub link_file : (staging target : AbsPath) → FileSystem → FileSystem
unfolding path_eq
link_file staging target fs = record {
  canonicalize = λ p. if path_eq p target then inl target else fs.canonicalize p;
  metadata = λ p. if path_eq p target then fs.metadata staging else fs.metadata p;
  symlink_metadata =
      λ p. if path_eq p target then fs.symlink_metadata staging else fs.symlink_metadata p;
  contents = λ p. if path_eq p target then fs.contents staging else fs.contents p;
}

-- Answers of the calls of a commit. `meanwhile` is what others do to the disk before the file is put
-- in place.
pub record CommitIo : Type 0 where
  pub chmod : Option IoError
  pub rename : Option IoError
  pub link : Option IoError
  pub unlink : Option IoError
  pub sync : Option IoError
  pub persisted : Option String
  pub meanwhile : FileSystem → FileSystem

abbrev pub check_staged : (size : ℕ) → Metadata ⊎ IoError → Result (Unit {0})
check_staged size (inr e) = err (io_failed "staging file unreadable: " e)
check_staged size (inl meta) =
    if is_file meta.file_type
    then (if meta.len == size
        then ok tt
        else refuse ErrorCode.invalid_request
            ("staging file has " <> show meta.len <> " bytes but client declared " <> show size))
    else refuse ErrorCode.not_a_file "staging path is not a regular file"

abbrev pub installed_mode : Metadata ⊎ IoError → Result ℕ
installed_mode (inl meta) = ok meta.mode
installed_mode (inr e) = if is_missing e.kind then ok new_file_mode else err (from_io e)

-- `set_installed_mode`
abbrev pub set_installed_mode : CommitIo → PendingUpload → Task (Unit {0})
set_installed_mode io entry = do
  mode ← ask (λ w. installed_mode (w.disk.metadata entry.target))
  check (io_failed "chmod staging file: ") io.chmod
  change (set_mode entry.staging mode)

abbrev pub rename_into : CommitIo → PendingUpload → Task (Unit {0})
rename_into io entry = do
  check (io_failed "rename failed: ") io.rename
  change (λ fs. drop_file entry.staging (link_file entry.staging entry.target fs))

-- `hard_link` refuses a target that exists.
abbrev pub vacant : PendingUpload → Metadata ⊎ IoError → Result (Unit {0})
vacant entry (inr e) = ok tt
vacant entry (inl meta) = refuse ErrorCode.invalid_request (
    "target was created while the upload ran: " <> entry.logical_path
    <> "; pass overwrite=true to replace it")

abbrev pub link_into : CommitIo → PendingUpload → Task (Unit {0})
link_into io entry = do
  ask (λ w. vacant entry (w.disk.symlink_metadata entry.target))
  check (io_failed "link into place failed: ") io.link
  change (link_file entry.staging entry.target)
  check (io_failed "remove staging failed: ") io.unlink
  change (drop_file entry.staging)

-- By a rename, which replaces, or by a link, which does not.
abbrev pub placed : CommitIo → PendingUpload → Task (Unit {0})
placed io entry = if entry.overwrite then rename_into io entry else link_into io entry

abbrev pub new_operation_id : Task String
new_operation_id w =
    (ok (next_operation_id w.store).0, record w { store = (next_operation_id w.store).1 })

abbrev pub transferred :
    (operation_id request_id : String)
    → TransferDirection
    → (path : String) → (size : ℕ) → (sha256 : String) → (duration_ms now : ℕ)
    → TransferOperationRecord
transferred operation_id request_id direction path size sha256 duration_ms now = record {
  operation_id = operation_id;
  request_id = request_id;
  direction = direction;
  path = path;
  size = size;
  sha256 = sha256;
  duration_ms = duration_ms;
  timestamp_ms = now;
}

abbrev pub result_of : TransferOperationRecord → ResultBody
result_of r = ResultBody.transfer (record {
  operation_id = r.operation_id;
  direction = r.direction;
  path = r.path;
  size = r.size;
  sha256 = r.sha256;
  duration_ms = r.duration_ms;
})

module _ (json : Codec AnyOperationRecord) (now : ℕ) where
  -- Record the transfer; its result is that of the record.
  abbrev pub recorded : TransferOperationRecord → Task ResultBody
  recorded r = in_store (append_transfer_record json r) >> pure (result_of r)

  -- What follows once the file is in place.
  abbrev pub concluded :
      CommitIo
      → (request_id transfer_id : String) → (size : ℕ) → (sha256 : String) → (duration_ms : ℕ)
      → PendingUpload
      → Task ResultBody
  concluded io request_id transfer_id size sha256 duration_ms entry = do
    check (io_failed "fsync target: ") io.sync
    operation_id ← new_operation_id
    body ← recorded (
        transferred operation_id request_id TransferDirection.upload entry.logical_path size sha256
          duration_ms now)
    in_registry (remove io.persisted transfer_id)
    pure body

  unfoldable pub upload_commit :
      CommitIo
      → (request_id transfer_id : String) → (size : ℕ) → (sha256 : String) → (duration_ms : ℕ)
      → Task ResultBody
  unfolding pending_get set_mode link_file drop_file next_operation_id append_transfer_record remove
  upload_commit io request_id transfer_id size sha256 duration_ms = do
    entry ← ask (λ w. taken transfer_id (pending_get transfer_id w.uploads))
    ask (λ w. check_staged size (w.disk.metadata entry.staging))
    set_installed_mode io entry
    change io.meanwhile
    placed io entry
    concluded io request_id transfer_id size sha256 duration_ms entry

  unfoldable pub download_record :
      Workspace
      → (request_id path : String) → (size : ℕ) → (sha256 : String) → (duration_ms : ℕ)
      → Task ResultBody
  unfolding resolve next_operation_id append_transfer_record
  download_record ws request_id path size sha256 duration_ms = do
    ask (λ w. resolve w.disk ws path)
    operation_id ← new_operation_id
    recorded (
        transferred operation_id request_id TransferDirection.download path size sha256 duration_ms
          now)

-- `remove_file`: what is missing already is fine.
abbrev discarded : Option IoError → AbsPath → Task (Unit {0})
discarded none staging = change (drop_file staging)
discarded (some e) staging =
    if is_missing e.kind then pure tt else (λ w. (err (io_failed "remove staging failed: " e), w))

unfoldable pub upload_abort :
    (persisted : Option String)
    → (removed : Option IoError) → (transfer_id : String) → Task ResultBody
unfolding remove drop_file
upload_abort persisted removed transfer_id = do
  found ← in_registry (remove persisted transfer_id)
  entry ← ask (λ w. taken transfer_id found)
  discarded removed entry.staging
  pure (ResultBody.upload_abort transfer_id)
