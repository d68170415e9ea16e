-- ===== src/Protocol/Record.antt =====
-- crates/remote-workspace-protocol/src/record.rs, and the messages that carry records.
use remote_workspace.Prelude.{ℕ, String, Bool, true, false, Option, List}
use remote_workspace.Protocol.Error.{ErrorCode, ProtocolError}
use remote_workspace.Protocol.Messages.{
  RequestId, ExecTermination, ExecOutput, ListResult, FileEntry, ReadResult, MutationResult,
  ExecResult, WaitResult, UndoResult, UploadPrepareResult, TransferDirection, TransferResult,
  RequestStatus, GcResult,
}

pub data OperationKind : Type 0 where
  create edit delete write patch undo : OperationKind

pub record FsOperationRecord : Type 0 where
  pub operation_id : String
  pub request_id : String
  pub kind : OperationKind
  pub path : String
  pub before_hash : Option String
  pub after_hash : String
  pub timestamp_ms : ℕ

pub record TransferOperationRecord : Type 0 where
  pub operation_id : String
  pub request_id : String
  pub direction : TransferDirection
  pub path : String
  pub size : ℕ
  pub sha256 : String
  pub duration_ms : ℕ
  pub timestamp_ms : ℕ

pub data ExecDisposition : Type 0 where
  completed timed_out rejected : ExecDisposition

pub record ExecOperationRecord : Type 0 where
  pub operation_id : String
  pub request_id : String
  pub argv : List String
  pub cwd : Option String
  pub profile : Option String
  pub timeout_ms : Option ℕ
  pub disposition : ExecDisposition
  pub termination : Option ExecTermination
  pub drain_timed_out : Bool
  pub duration_ms : ℕ
  pub timestamp_ms : ℕ
  pub error : Option String
  pub error_code : Option ErrorCode
  pub stdout : ExecOutput
  pub stderr : ExecOutput

pub record PreparedRecord : Type 0 where
  pub operation_id : String
  pub request_id : String
  pub kind : OperationKind
  pub path : String
  pub before_hash : Option String
  pub expected_after_hash : String
  pub timestamp_ms : ℕ

pub record AbortedRecord : Type 0 where
  pub operation_id : String
  pub timestamp_ms : ℕ

pub data AnyOperationRecord : Type 0 where
  fs : FsOperationRecord → AnyOperationRecord
  exec : ExecOperationRecord → AnyOperationRecord
  transfer : TransferOperationRecord → AnyOperationRecord
  prepared : PreparedRecord → AnyOperationRecord
  aborted : AbortedRecord → AnyOperationRecord

-- `AnyOperationRecord::operation_id`
abbrev pub operation_id : AnyOperationRecord → String
operation_id (fs r) = r.operation_id
operation_id (exec r) = r.operation_id
operation_id (transfer r) = r.operation_id
operation_id (prepared r) = r.operation_id
operation_id (aborted r) = r.operation_id

-- `AnyOperationRecord::timestamp_ms`
abbrev pub timestamp_ms : AnyOperationRecord → ℕ
timestamp_ms (fs r) = r.timestamp_ms
timestamp_ms (exec r) = r.timestamp_ms
timestamp_ms (transfer r) = r.timestamp_ms
timestamp_ms (prepared r) = r.timestamp_ms
timestamp_ms (aborted r) = r.timestamp_ms

-- `AnyOperationRecord::is_committed`
abbrev pub is_committed : AnyOperationRecord → Bool
is_committed (fs r) = true
is_committed (exec r) = true
is_committed (transfer r) = true
is_committed (prepared r) = false
is_committed (aborted r) = false

-- messages.rs: `OperationDetails`, `RequestStatusResult`, `ResultBody`, `ServerMessage`.
pub record OperationDetails : Type 0 where
  pub operation_record : AnyOperationRecord

pub record RequestStatusResult : Type 0 where
  pub target : RequestId
  pub status : RequestStatus
  pub error : Option ProtocolError

pub data ResultBody : Type 0 where
  list : ListResult → ResultBody
  stat : FileEntry → ResultBody
  read : ReadResult → ResultBody
  mutation : MutationResult → ResultBody
  exec : ExecResult → ResultBody
  wait : WaitResult → ResultBody
  undo : UndoResult → ResultBody
  upload_prepare : UploadPrepareResult → ResultBody
  upload_abort : (transfer_id : String) → ResultBody
  transfer : TransferResult → ResultBody
  history : (operations : List AnyOperationRecord) → ResultBody
  operation : OperationDetails → ResultBody
  request_status : RequestStatusResult → ResultBody
  gc : GcResult → ResultBody

pub data ServerMessage : Type 0 where
  result : RequestId → ResultBody → ServerMessage
  error : RequestId → ProtocolError → ServerMessage
