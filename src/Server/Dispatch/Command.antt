-- ===== src/Server/Dispatch/Command.antt =====
-- server.rs, `handle_exec`: the record of a command and the reply.
use remote_workspace.Prelude.{
  ℕ, String, Bool, true, false, Option, none, some, List, [], ◌<>◌, if◌then◌else◌,
}
use remote_workspace.Prelude.Decimal.{show}
use remote_workspace.Protocol.Error.{ErrorCode, ProtocolError, Result, ok, err}
use remote_workspace.Protocol.Messages.{RequestId, ExecOutput, ExecTermination}
use remote_workspace.Protocol.Record.{
  AnyOperationRecord, ExecOperationRecord, ExecDisposition, ResultBody, ServerMessage,
}
use remote_workspace.Server.Log.{Codec}
use remote_workspace.Server.Store.{OperationStore, RequestLogLine, next_operation_id}
use remote_workspace.Server.Store.Requests.{remember_result, remember_error}
use remote_workspace.Server.Store.Records.{append_exec_record}
use remote_workspace.Server.Exec.Run.{ExecOutcome, timeout_of}
use remote_workspace.Server.Transfer.Site.{Site}
use remote_workspace.Server.Dispatch.Reply.{or_failure}

-- The request, as it is recorded.
pub record Asked : Type 0 where
  pub argv : List String
  pub cwd : Option String
  pub profile : Option String
  pub timeout_ms : Option ℕ

abbrev is_timed_out : ExecTermination → Bool
is_timed_out ExecTermination.timed_out = true
is_timed_out _ = false

-- `ExecOutput::default()`
abbrev no_output : ExecOutput
no_output = record { prefix = []; suffix = []; total_bytes = 0; omitted_bytes = 0 }

abbrev pub ran :
    (operation_id request_id : String) → Asked → (now : ℕ) → ExecOutcome → ExecOperationRecord
ran operation_id request_id asked now o = record {
  operation_id = operation_id;
  request_id = request_id;
  argv = asked.argv;
  cwd = asked.cwd;
  profile = asked.profile;
  timeout_ms = some (timeout_of asked.timeout_ms);
  disposition =
      if is_timed_out o.termination then ExecDisposition.timed_out else ExecDisposition.completed;
  termination = some o.termination;
  drain_timed_out = o.drain_timed_out;
  duration_ms = o.duration_ms;
  timestamp_ms = now;
  error =
      if is_timed_out o.termination
      then some ("killed after " <> show (timeout_of asked.timeout_ms) <> " ms timeout")
      else none;
  error_code = if is_timed_out o.termination then some ErrorCode.exec_failed else none;
  stdout = o.stdout;
  stderr = o.stderr;
}

abbrev rejected :
    (operation_id request_id : String) → Asked → (now : ℕ) → ProtocolError → ExecOperationRecord
rejected operation_id request_id asked now e = record {
  operation_id = operation_id;
  request_id = request_id;
  argv = asked.argv;
  cwd = asked.cwd;
  profile = asked.profile;
  timeout_ms = asked.timeout_ms;
  disposition = ExecDisposition.rejected;
  termination = none;
  drain_timed_out = false;
  duration_ms = 0;
  timestamp_ms = now;
  error = some e.message;
  error_code = some e.code;
  stdout = no_output;
  stderr = no_output;
}

abbrev pub exec_body : (operation_id : String) → ExecOutcome → ResultBody
exec_body operation_id o = ResultBody.exec (record {
  operation_id = operation_id;
  termination = o.termination;
  duration_ms = o.duration_ms;
  drain_timed_out = o.drain_timed_out;
  stdout = o.stdout;
  stderr = o.stderr;
})

-- `remember_err.or(record_err).unwrap_or(e)`
abbrev worst : ProtocolError → (recorded remembered : Result (Unit {0})) → ProtocolError
worst e recorded (err x) = x
worst e (err x) (ok _) = x
worst e (ok _) (ok _) = e

module _ (ops : Codec AnyOperationRecord) (reqs : Codec RequestLogLine) (now : ℕ)
    (request_id : RequestId) (asked : Asked) where
  -- The reply once the record was written, or was not.
  abbrev pub after_record :
      (operation_id : String)
      → ExecOutcome
      → Result (Unit {0}) × OperationStore
      → ServerMessage × OperationStore
  after_record operation_id o (err e, s) =
      (ServerMessage.error request_id e, (remember_error reqs request_id e s).1)
  after_record operation_id o (ok _, s) =
      let msg = ServerMessage.result request_id (exec_body operation_id o) in
      (
        or_failure request_id msg (remember_result reqs request_id msg s).0,
        (remember_result reqs request_id msg s).1,
      )

  abbrev after_rejection :
      ProtocolError → Result (Unit {0}) × OperationStore → ServerMessage × OperationStore
  after_rejection e (recorded, s) = (
    ServerMessage.error request_id (worst e recorded (remember_error reqs request_id e s).0),
    (remember_error reqs request_id e s).1,
  )

  abbrev pub recorded_as :
      (operation_id : String) → Result ExecOutcome → OperationStore → ServerMessage × OperationStore
  recorded_as operation_id (ok o) s =
      after_record operation_id o
        (append_exec_record ops (ran operation_id request_id asked now o) s)
  recorded_as operation_id (err e) s =
      after_rejection e (append_exec_record ops (rejected operation_id request_id asked now e) s)

  -- `handle_exec`, with what `exec` makes of the request; `none` is that it has not returned. Other
  -- requests are handled while it runs.
  unfoldable pub handle_exec :
      (meanwhile : Site → Site) → Option (Result ExecOutcome) → Site → Option ServerMessage × Site
  unfolding next_operation_id append_exec_record remember_result remember_error
  handle_exec meanwhile outcome w =
      let operation_id = (next_operation_id w.store).0 in
      let w' = meanwhile (record w { store = (next_operation_id w.store).1 }) in
      elim outcome [
        | none ↦ (none, w')
        | some r ↦ (
          some (recorded_as operation_id r w'.store).0,
          record w' { store = (recorded_as operation_id r w'.store).1 },
        )
      ]
