-- ===== src/Server/Transfer/Prepare.antt =====
-- transfer.rs, `upload_prepare`, on Unix. What its system calls answer is `PrepareIo`.
use Prim.Native.Char.{len_utf8}
use Prim.Native.String.{[] as nil, ◌∷◌ as ◌▹◌}
use remote_workspace.Prelude.{
  ℕ, ◌-◌, String, Bool, Option, none, some, List, [], ◌∷◌, ◌++◌, ◌⊎◌, inl, inr, leb, ◌<>◌,
  if◌then◌else◌,
}
use remote_workspace.Protocol.Error.{ErrorCode, IoError, from_io, io_failed, Result, ok, err}
use remote_workspace.Protocol.Record.{ResultBody}
use remote_workspace.Server.Workspace.{
  AbsPath, Metadata, Workspace, is_missing, is_file, is_dir, resolve,
}
use remote_workspace.Server.Fs.WriteAhead.{put_file, drop_file, parent}
use remote_workspace.Server.Transfer.Registry.{
  PendingUpload, insert, in_flight_staging, stale_staging_max_age,
}
use remote_workspace.Server.Transfer.Sweep.{
  StagingEntry, sweep_stale_staging_dir, staging_prefix, staging_suffix,
}
use remote_workspace.Server.Transfer.Site.{Task, ◌>>=◌, ◌>>◌, pure, ask, change, check, refuse}

-- `fs::metadata(parent)` in `upload_prepare`.
abbrev check_parent : (path : String) → Metadata ⊎ IoError → Result (Unit {0})
check_parent path (inl m) =
    if is_dir m.file_type
    then ok tt
    else refuse ErrorCode.not_a_directory ("parent of " <> path <> " is not a directory")
check_parent path (inr e) =
    if is_missing e.kind
    then refuse ErrorCode.not_found
        ("parent directory of " <> path <> " does not exist; create it first")
    else err (from_io e)

-- `fs::symlink_metadata(&abs)` in `upload_prepare`.
abbrev check_target : (path : String) → (overwrite : Bool) → Metadata ⊎ IoError → Result (Unit {0})
check_target path overwrite (inl m) =
    if is_dir m.file_type
    then refuse ErrorCode.is_a_directory ("is a directory: " <> path)
    else if is_file m.file_type
    then (if overwrite
        then ok tt
        else refuse ErrorCode.invalid_request
            ("target already exists: " <> path <> "; pass overwrite=true to replace it"))
    else refuse ErrorCode.not_a_file ("target exists and is not a regular file: " <> path)
check_target path overwrite (inr e) = if is_missing e.kind then ok tt else err (from_io e)

abbrev parent_of : AbsPath → Result AbsPath
parent_of abs = elim (parent abs) [
  | none ↦ refuse ErrorCode.invalid_request "path has no parent"
  | some dir ↦ ok dir
]

unfoldable pub last_of : List String → Option String
last_of [] = none
last_of (c ∷ cs) = elim (last_of cs) [ none ↦ some c | some d ↦ some d ]

abbrev file_name_of : AbsPath → Result String
file_name_of abs = elim (last_of abs) [
  | none ↦ refuse ErrorCode.invalid_request "path has no file name"
  | some name ↦ ok name
]

-- The characters of a name that lie whole within so many bytes.
unfoldable pub truncate_to : ℕ → String → String
truncate_to limit nil = nil
truncate_to limit (c ▹ s) =
    let rest = truncate_to (limit - len_utf8 c) s in
    if leb (len_utf8 c) limit then c ▹ rest else nil

abbrev pub staging_name_bytes : ℕ
staging_name_bytes = 64

-- A staging file is created with this mode, 0600.
abbrev staging_mode : ℕ
staging_mode = 384

pub record PrepareIo : Type 0 where
  pub entries : List StagingEntry
  pub random : String
  pub create : Option IoError
  pub keep : Option IoError
  pub transfer_id : String
  pub persisted : Option String
  pub discard : Option IoError

-- Registering that fails takes the staging file away again, if it can.
abbrev register : PrepareIo → AbsPath → PendingUpload → Task (Unit {0})
register io staging pending w = elim (insert io.persisted io.transfer_id pending w.uploads).0 [
  | ok _ ↦ (ok tt, record w { uploads = (insert io.persisted io.transfer_id pending w.uploads).1 })
  | err e ↦ (
    err e,
    record w {
      uploads = (insert io.persisted io.transfer_id pending w.uploads).1;
      disk = elim io.discard [ none ↦ drop_file staging w.disk | some _ ↦ w.disk ];
    },
  )
]

-- The name that `tempfile` makes of the prefix, the random part and the suffix.
abbrev staging_path : AbsPath → (file_name random : String) → AbsPath
staging_path dir file_name random =
    dir ++ (staging_prefix <> file_name <> "." <> random <> staging_suffix) ∷ []

module _ (ws : Workspace) (display : AbsPath → String) (io : PrepareIo) where
  unfoldable pub upload_prepare : (path : String) → (overwrite : Bool) → Task ResultBody
  unfolding resolve parent last_of truncate_to sweep_stale_staging_dir in_flight_staging put_file
      insert
  upload_prepare path overwrite = do
    abs ← ask (λ w. resolve w.disk ws path)
    dir ← ask (λ w. parent_of abs)
    ask (λ w. check_parent path (w.disk.metadata dir))
    ask (λ w. check_target path overwrite (w.disk.symlink_metadata abs))
    file_name ← ask (λ w. file_name_of abs)
    (λ w. (
      ok tt,
      record w {
        disk =
            (sweep_stale_staging_dir (in_flight_staging w.uploads) stale_staging_max_age io.entries
              w.disk).1;
      },
    ))
    check (io_failed "create staging file: ") io.create
    let staging = staging_path dir (truncate_to staging_name_bytes file_name) io.random
    change (put_file staging staging_mode [])
    check (io_failed "keep staging file: ") io.keep
    register io staging
        (record { staging = staging; target = abs; logical_path = path; overwrite = overwrite })
    pure (
        ResultBody.upload_prepare
          (record { transfer_id = io.transfer_id; staging_path = display staging }))
