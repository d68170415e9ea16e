-- ===== src/Server/Fs/Sequence.antt =====
-- fs_ops.rs: `stage_write`, `StagedWrite::install`, `atomic_create_bytes` and the three write-ahead
-- sequences. A failed install is `some` of what the source returns as an error; the hash that
-- `install` returns on success is used by no caller. Nothing comes between the last look of an edit
-- and its rename, which is the window that the source says it cannot close.
pub mod Disk
pub mod Create
use remote_workspace.Prelude.{
  ℕ, String, Bytes, Bool, true, false, Option, none, some, inl, inr, ◌<>◌, if◌then◌else◌,
}
use remote_workspace.Protocol.Error.{
  ErrorCode, ProtocolError, IoError, IoErrorKind, new, io_failed, Result, ok, err,
}
use remote_workspace.Protocol.Record.{AnyOperationRecord, OperationKind}
use remote_workspace.Server.Log.{Codec}
use remote_workspace.Server.Store.Records.{prepare_fs_record, abort_prepared, commit_fs_record}
use remote_workspace.Server.Workspace.{
  AbsPath, Metadata, FileSystem, is_missing, hash_bytes, starts_with,
}
use remote_workspace.Server.Fs.WriteAhead.{
  World, Step, ◌>>=◌, ◌>>◌, pure, fail, on_store, ask, Io, put_file, drop_file, make_dirs, parent,
  file_absent_hash, new_file_mode, check, change, StagedWrite, InstallFailure, verify_unchanged,
}

abbrev mode_of : AbsPath → FileSystem → Result ℕ
mode_of abs fs = elim (fs.metadata abs) [
  | inl meta ↦ ok meta.mode
  | inr e ↦ err (io_failed "stat failed: " e)
]

abbrev pub parent_or_fail : AbsPath → Step AbsPath
parent_or_fail abs = elim (parent abs) [
  | none ↦ fail (new ErrorCode.invalid_request "path has no parent")
  | some dir ↦ pure dir
]

-- `create_dir_all`, which may have made directories on the way when it fails.
abbrev pub on_the_way : AbsPath → Option AbsPath → Option AbsPath
on_the_way dir none = none
on_the_way dir (some p) = if starts_with dir p then some p else none

abbrev pub made_to : ℕ → Option AbsPath → FileSystem → FileSystem
made_to mode none fs = fs
made_to mode (some p) fs = make_dirs mode p fs

abbrev pub make_way : (mkdir : Option IoError) → Io → AbsPath → Step (Unit {0})
make_way none io dir = change (make_dirs io.first_mode dir)
make_way (some e) io dir = λ w. (
  err (io_failed "mkdir failed: " e),
  record w { disk = made_to io.first_mode (on_the_way dir io.reached) w.disk },
)

-- The steps that leave a synced temporary file in the directory, which is made first.
abbrev pub temp_file : Io → AbsPath → Step (Unit {0})
temp_file io abs = do
  dir ← parent_or_fail abs
  make_way io.mkdir io dir
  check (io_failed "temp file create failed: ") io.temp
  check (io_failed "temp write failed: ") io.write

unfoldable pub stage_write : (Bytes → String) → Io → AbsPath → Bytes → Step StagedWrite
unfolding make_dirs hash_bytes starts_with
stage_write sha256_hex io abs bytes = do
  temp_file io abs
  mode ← ask (mode_of abs)
  check (io_failed "chmod temp failed: ") io.chmod
  pure (record { bytes = bytes; mode = mode; new_hash = hash_bytes sha256_hex bytes })

abbrev Install : Type 0
Install = Step (Option InstallFailure)

abbrev pub failed_install : Bool → ProtocolError → Option InstallFailure
failed_install changed e = some (record { changed = changed; error = e })

-- `StagedWrite::install`: the rename, then the sync.
unfoldable pub install : Io → StagedWrite → AbsPath → Install
unfolding put_file
install io staged abs w = elim io.persist [
  | some e ↦ (ok (failed_install false (io_failed "atomic persist failed: " e)), w)
  | none ↦
      let w' : World = record w { disk = put_file abs staged.mode staged.bytes w.disk } in
      elim io.sync [
        | some e ↦ (ok (failed_install true (io_failed "fsync after write failed: " e)), w')
        | none ↦ (ok none, w')
      ]
]

-- `persist_noclobber`, then the syncs.
abbrev pub persist_new : Io → AbsPath → Bytes → (client_path : String) → Install
persist_new io abs bytes client_path w = elim (w.disk.symlink_metadata abs) [
  | inl _ ↦ (
    ok (
        failed_install false (
          new ErrorCode.already_exists
            ("already exists: " <> client_path <> "; modify existing files with edit"))),
    w,
  )
  | inr _ ↦ elim io.persist [
    | some e ↦ (ok (failed_install false (io_failed "install failed: " e)), w)
    | none ↦
        let w' : World = record w { disk = put_file abs new_file_mode bytes w.disk } in
        elim io.sync [
          | some e ↦ (ok (failed_install true (io_failed "fsync after create failed: " e)), w')
          | none ↦ (ok none, w')
        ]
  ]
]

-- An error of the steps before the link is a failure that changed nothing.
abbrev pub not_yet : Step (Unit {0}) → Install → Install
not_yet before link w = elim (before w).0 [
  | err e ↦ (ok (failed_install false e), (before w).1)
  | ok _ ↦ link (before w).1
]

unfoldable pub atomic_create_bytes : Io → AbsPath → Bytes → (client_path : String) → Install
unfolding make_dirs put_file starts_with
atomic_create_bytes io abs bytes client_path =
    not_yet
      (temp_file io abs >> check (io_failed "chmod temp failed: ") io.chmod >> change io.meanwhile)
      (persist_new io abs bytes client_path)

-- `remove_file`
abbrev remove_file : Io → AbsPath → Install
remove_file io abs w = elim io.remove [
  | some e ↦ (ok (failed_install false (io_failed "remove failed: " e)), w)
  | none ↦ elim (w.disk.symlink_metadata abs) [
    | inr e ↦ (ok (failed_install false (io_failed "remove failed: " e)), w)
    | inl _ ↦ (ok none, record w { disk = drop_file abs w.disk })
  ]
]

module _ (json : Codec AnyOperationRecord) (now : ℕ) (io : Io) where
  -- A marker withdrawn, then the error.
  unfoldable pub withdraw : {A : Type 0} → (op_id : String) → ProtocolError → Step A
  unfolding abort_prepared
  withdraw op_id e = on_store (abort_prepared json now op_id) >> fail e

  -- What becomes of the marker after an install: kept and committed, kept alone, or withdrawn.
  unfoldable pub conclude :
      {A : Type 0} → (op_id : String) → Step A → Option InstallFailure → Step A
  unfolding withdraw
  conclude op_id commit none = commit
  conclude op_id commit (some f) = if f.changed then fail f.error else withdraw op_id f.error

  abbrev pub commit_as :
      (op_id request_id : String)
      → OperationKind
      → (path : String) → Option String
      → (after : String) → Step (String × String)
  commit_as op_id request_id kind path before after = do
    on_store (commit_fs_record json now op_id request_id kind path before after)
    pure (op_id, after)

  unfoldable pub write_ahead_create :
      (Bytes → String) → (request_id path : String) → AbsPath → Bytes → Step (String × String)
  unfolding prepare_fs_record commit_fs_record hash_bytes atomic_create_bytes conclude
  write_ahead_create sha256_hex request_id path abs bytes = do
    op_id ← on_store (
        prepare_fs_record json now request_id OperationKind.create path none
          (hash_bytes sha256_hex bytes))
    installed ← atomic_create_bytes io abs bytes path
    conclude op_id
        (commit_as op_id request_id OperationKind.create path none (hash_bytes sha256_hex bytes))
        installed

  -- A path without a parent has no directory to sync.
  abbrev parent_sync : AbsPath → Option IoError
  parent_sync abs = elim (parent abs) [ none ↦ none | some dir ↦ io.sync ]

  unfoldable pub write_ahead_delete :
      (request_id path : String) → AbsPath → (before : Option String) → Step String
  unfolding prepare_fs_record commit_fs_record drop_file conclude
  write_ahead_delete request_id path abs before = do
    op_id ←
        on_store
          (prepare_fs_record json now request_id OperationKind.delete path before file_absent_hash)
    change io.meanwhile
    removed ← remove_file io abs
    conclude op_id
        (do
          check (io_failed "fsync after delete: ") (parent_sync abs)
          commit_as op_id request_id OperationKind.delete path before file_absent_hash
          pure op_id)
        removed

  -- The last look, and the withdrawal when the file is another one by then.
  abbrev pub last_look :
      (Bytes → String) → (op_id : String) → AbsPath → (before path : String) → Step (Unit {0})
  last_look sha256_hex op_id abs before path w =
      elim (verify_unchanged sha256_hex w.disk abs before path) [
        | ok _ ↦ (ok tt, w)
        | err e ↦ withdraw op_id e w
      ]

  unfoldable pub write_ahead_install :
      (Bytes → String)
      → (request_id path : String) → AbsPath
      → (before : String) → StagedWrite
      → Step (String × String)
  unfolding prepare_fs_record commit_fs_record verify_unchanged install withdraw conclude
  write_ahead_install sha256_hex request_id path abs before staged = do
    op_id ← on_store (
        prepare_fs_record json now request_id OperationKind.edit path (some before) staged.new_hash)
    change io.meanwhile
    last_look sha256_hex op_id abs before path
    installed ← install io staged abs
    conclude op_id
        (commit_as op_id request_id OperationKind.edit path (some before) staged.new_hash) installed
