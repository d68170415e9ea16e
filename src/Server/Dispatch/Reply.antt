-- ===== src/Server/Dispatch/Reply.antt =====
-- server.rs: `op_kind_str`, `history`, `operation_get`, `finish`, and what a claimed request is answered
-- with.
use remote_workspace.Prelude.{ℕ, String, Option, none, some, ltb, ◌<>◌, if◌then◌else◌}
use remote_workspace.Prelude.Decimal.{show}
use remote_workspace.Protocol.Error.{ErrorCode, new, Result, ok, err}
use remote_workspace.Protocol.Messages.{RequestId, RequestBody}
use remote_workspace.Protocol.Record.{AnyOperationRecord, ResultBody, ServerMessage}
use remote_workspace.Server.Log.{Codec}
use remote_workspace.Server.Store.{StoredResult, RequestLogLine, OperationStore}
use remote_workspace.Server.Store.Requests.{remember_result, remember_error}
use remote_workspace.Server.Store.Records.{find_record}
use remote_workspace.Server.Store.Records as Records

unfoldable pub op_kind_str : RequestBody → String
op_kind_str (RequestBody.list _ _ _) = "list"
op_kind_str (RequestBody.stat _) = "stat"
op_kind_str (RequestBody.read _ _ _) = "read"
op_kind_str (RequestBody.create _ _) = "create"
op_kind_str (RequestBody.edit _ _ _) = "edit"
op_kind_str (RequestBody.exec _ _ _ _) = "exec"
op_kind_str (RequestBody.wait _ _ _ _) = "wait"
op_kind_str (RequestBody.delete _) = "delete"
op_kind_str (RequestBody.upload_prepare _ _) = "upload_prepare"
op_kind_str (RequestBody.upload_commit _ _ _ _) = "upload_commit"
op_kind_str (RequestBody.upload_abort _) = "upload_abort"
op_kind_str (RequestBody.download_record _ _ _ _) = "download_record"
op_kind_str (RequestBody.history _) = "history"
op_kind_str (RequestBody.operation_get _) = "operation_get"
op_kind_str (RequestBody.request_status _) = "request_status"
op_kind_str (RequestBody.gc _) = "gc"

abbrev history_default_limit : ℕ
history_default_limit = 50

abbrev pub history_max_limit : ℕ
history_max_limit = 100

abbrev limited : OperationStore → ℕ → Result ResultBody
limited s limit =
    if ltb history_max_limit limit
    then err
        (new ErrorCode.invalid_request ("history limit must not exceed " <> show history_max_limit))
    else ok (ResultBody.history (Records.history s (some limit)))

unfoldable pub history : OperationStore → (limit : Option ℕ) → Result ResultBody
unfolding Records.history
history s none = limited s history_default_limit
history s (some limit) = limited s limit

abbrev operation_not_found : (operation_id : String) → Result ResultBody
operation_not_found operation_id =
    err (new ErrorCode.operation_not_found ("operation not found: " <> operation_id))

abbrev found_as : (operation_id : String) → Option AnyOperationRecord → Result ResultBody
found_as operation_id (some (AnyOperationRecord.fs r)) =
    ok (ResultBody.operation (record { operation_record = AnyOperationRecord.fs r }))
found_as operation_id (some (AnyOperationRecord.exec r)) =
    ok (ResultBody.operation (record { operation_record = AnyOperationRecord.exec r }))
found_as operation_id (some (AnyOperationRecord.transfer r)) =
    ok (ResultBody.operation (record { operation_record = AnyOperationRecord.transfer r }))
found_as operation_id _ = operation_not_found operation_id

unfoldable pub operation_get : OperationStore → (operation_id : String) → Result ResultBody
unfolding find_record
operation_get s operation_id = found_as operation_id (find_record s operation_id)

-- A result as the message that carries it.
abbrev pub message_of : RequestId → Result ResultBody → ServerMessage
message_of request_id (ok body) = ServerMessage.result request_id body
message_of request_id (err e) = ServerMessage.error request_id e

-- What the owner of an id that was claimed before left for it.
abbrev pub replayed : RequestId → Option StoredResult → ServerMessage
replayed request_id (some (StoredResult.done m)) = m
replayed request_id (some (StoredResult.error e)) = ServerMessage.error request_id e
replayed request_id none =
    ServerMessage.error request_id (new ErrorCode.invalid_request "request already in progress")

-- The message that is sent: `msg`, or the error of remembering it.
abbrev pub or_failure : RequestId → ServerMessage → Result (Unit {0}) → ServerMessage
or_failure request_id msg (ok _) = msg
or_failure request_id msg (err log_err) = ServerMessage.error request_id log_err

module _ (json : Codec RequestLogLine) where
  unfoldable pub finish :
      (request_id : RequestId) → Result ResultBody → OperationStore → ServerMessage × OperationStore
  unfolding remember_result remember_error
  finish request_id (ok body) s =
      let msg = ServerMessage.result request_id body in
      (
        or_failure request_id msg (remember_result json request_id msg s).0,
        (remember_result json request_id msg s).1,
      )
  finish request_id (err e) s = (
    or_failure request_id (ServerMessage.error request_id e) (remember_error json request_id e s).0,
    (remember_error json request_id e s).1,
  )
