-- ===== src/Protocol/Messages.antt =====
-- crates/remote-workspace-protocol/src/messages.rs: requests, results and their parts.
use remote_workspace.Prelude.{ℕ, String, Bytes, Bool, Option, List}
use remote_workspace.Prelude.Int.{ℤ}

abbrev pub RequestId : Type 0
RequestId = String

abbrev pub OperationId : Type 0
OperationId = String

pub record EditSpec : Type 0 where
  pub old_text : Bytes
  pub new_text : Bytes
  pub replace_all : Bool

pub data RequestBody : Type 0 where
  list : (path : String) (offset limit : Option ℕ) → RequestBody
  stat : (path : String) → RequestBody
  read : (path : String) (offset limit : Option ℕ) → RequestBody
  create : (path : String) (content : Bytes) → RequestBody
  edit : (path base_hash : String) (edits : List EditSpec) → RequestBody
  exec : (argv : List String) (cwd profile : Option String) (timeout_ms : Option ℕ) → RequestBody
  delete : (path : String) → RequestBody
  wait : (argv : List String) (cwd profile : Option String) (timeout_ms : Option ℕ) → RequestBody
  upload_prepare : (path : String) (overwrite : Bool) → RequestBody
  upload_commit :
      (transfer_id : String) (size : ℕ) (sha256 : String) (duration_ms : ℕ) → RequestBody
  upload_abort : (transfer_id : String) → RequestBody
  download_record : (path : String) (size : ℕ) (sha256 : String) (duration_ms : ℕ) → RequestBody
  history : (limit : Option ℕ) → RequestBody
  operation_get : (operation_id : OperationId) → RequestBody
  request_status : (target : RequestId) → RequestBody
  gc : (keep : Option ℕ) → RequestBody

pub record Request : Type 0 where
  pub request_id : RequestId
  pub body : RequestBody

pub data ListKind : Type 0 where
  file dir symlink : ListKind

pub record ListEntry : Type 0 where
  pub name : String
  pub kind : ListKind
  pub size : Option ℕ

pub record ListResult : Type 0 where
  pub entries : List ListEntry
  pub next_offset : Option ℕ

pub record FileMode : Type 0 where
  pub readable : Bool
  pub writable : Bool
  pub executable : Bool

pub record FileEntry : Type 0 where
  pub path : String
  pub kind : ListKind
  pub size : ℕ
  pub hash : Option String
  pub mode : Option FileMode

pub record ReadResult : Type 0 where
  pub content : Bytes
  pub hash : Option String
  pub truncated : Bool
  pub next_offset : Option ℕ

pub record MutationResult : Type 0 where
  pub operation_id : OperationId
  pub old_hash : Option String
  pub new_hash : String

pub data ExecTermination : Type 0 where
  exited : (code : ℤ) → ExecTermination
  timed_out : ExecTermination
  signaled : (signal : ℤ) → ExecTermination

pub record ExecOutput : Type 0 where
  pub prefix : Bytes
  pub suffix : Bytes
  pub total_bytes : ℕ
  pub omitted_bytes : ℕ

pub record ExecResult : Type 0 where
  pub operation_id : OperationId
  pub termination : ExecTermination
  pub duration_ms : ℕ
  pub drain_timed_out : Bool
  pub stdout : ExecOutput
  pub stderr : ExecOutput

pub data WaitOutcome : Type 0 where
  gone timed_out check_failed : WaitOutcome

pub record WaitCheck : Type 0 where
  pub termination : ExecTermination
  pub stdout : ExecOutput
  pub stderr : ExecOutput

pub record WaitResult : Type 0 where
  pub outcome : WaitOutcome
  pub first_check : Bool
  pub checks : ℕ
  pub waited_ms : ℕ
  pub last_check : WaitCheck

pub record UploadPrepareResult : Type 0 where
  pub transfer_id : String
  pub staging_path : String

pub data TransferDirection : Type 0 where
  upload download : TransferDirection

pub record TransferResult : Type 0 where
  pub operation_id : OperationId
  pub direction : TransferDirection
  pub path : String
  pub size : ℕ
  pub sha256 : String
  pub duration_ms : ℕ

pub record UndoResult : Type 0 where
  pub operation_id : OperationId
  pub restored_hash : Option String
  pub new_hash : String

pub record ScratchUsage : Type 0 where
  pub files : ℕ
  pub bytes : ℕ
  pub oldest_days : Option ℕ
  pub removed_files : ℕ
  pub removed_bytes : ℕ

pub record GcResult : Type 0 where
  pub removed_operations : ℕ
  pub removed_requests : ℕ
  pub retained_operations : ℕ
  pub removed_stale_staging : ℕ
  pub scratch : ScratchUsage

pub data RequestStatus : Type 0 where
  unknown in_progress done error : RequestStatus
