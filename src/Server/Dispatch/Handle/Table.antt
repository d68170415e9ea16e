-- ===== src/Server/Dispatch/Handle/Table.antt =====
-- server.rs, `finish` and `handle_exec`: a result that is sent is in the request table.
use text.Mathlib.TextPositions.{eq_refl}
use remote_workspace.Prelude.{ℕ, String, ◌≡◌, refl, sym, subst, Option, none, some, arith}
use remote_workspace.Protocol.Error.{ProtocolError, Result, ok, err}
use remote_workspace.Protocol.Messages.{RequestId}
use remote_workspace.Protocol.Record.{AnyOperationRecord, ResultBody, ServerMessage}
use remote_workspace.Server.Log.{Codec}
use remote_workspace.Server.Store.{
  StoredResult, RequestEntry, RequestLogLine, OperationStore, get, next_operation_id,
  append_request_tracked, append_request_line,
}
use remote_workspace.Server.Store.Requests.{remember_result, remember_error, finished, result_line}
use remote_workspace.Server.Store.Records.{append_exec_record}
use remote_workspace.Server.Store.Table.{get-insert}
use remote_workspace.Server.Exec.Run.{ExecOutcome}
use remote_workspace.Server.Transfer.Site.{Site}
use remote_workspace.Server.Dispatch.Reply.{or_failure, finish}
use remote_workspace.Server.Dispatch.Command.{
  Asked, recorded_as, after_record, ran, exec_body, handle_exec,
}

abbrev pub IsResult : ServerMessage → Type 0
IsResult (ServerMessage.result _ _) = Unit {0}
IsResult (ServerMessage.error _ _) = ⊥

-- The table has the message as the result of the request.
abbrev pub Remembers : RequestId → ServerMessage → OperationStore → Type 0
Remembers id msg s =
    (entry : RequestEntry) × (get id s.requests ≡ some entry)
    × (entry.result ≡ some (StoredResult.done msg))

remember_result-Remembers :
    (json : Codec RequestLogLine) (id : RequestId) (msg : ServerMessage) (s : OperationStore)
    → (remember_result json id msg s).0 ≡ ok tt
    → Remembers id msg (remember_result json id msg s).1
unfolding remember_result append_request_tracked
remember_result-Remembers json id msg s h = (
  finished msg,
  ground (
    arith,
    h,
    eq_refl id,
    get-insert id id (finished msg) (append_request_line json (result_line id msg) s).1.requests,
  ),
  refl,
)

or_failure-IsResult :
    (json : Codec RequestLogLine) (id : RequestId) (msg reply : ServerMessage)
    (r : Result (Unit {0}))
    → or_failure id msg r ≡ reply
    → IsResult reply
    → (r ≡ ok tt) × (msg ≡ reply)
or_failure-IsResult json id msg reply (ok _) h i = (refl, h)
or_failure-IsResult json id msg reply (err e) h i = absurd (subst IsResult (sym h) i)

or_failure-error :
    (id : RequestId) (e : ProtocolError) (r : Result (Unit {0}))
    → IsResult (or_failure id (ServerMessage.error id e) r)
    → ⊥
or_failure-error id e (ok _) i = i
or_failure-error id e (err x) i = i

-- A reply that is a result is in the table.
pub remembered :
    (json : Codec RequestLogLine) (id : RequestId) (msg : ServerMessage) (s : OperationStore)
    → IsResult (or_failure id msg (remember_result json id msg s).0)
    → Remembers id
        (or_failure id msg (remember_result json id msg s).0)
        (remember_result json id msg s).1
remembered json id msg s i =
    let r = (remember_result json id msg s).0 in
    let (e, same) = or_failure-IsResult json id msg (or_failure id msg r) r refl i in
    subst (λ m. Remembers id m (remember_result json id msg s).1) same
      (remember_result-Remembers json id msg s e)

pub finish-Remembers :
    (json : Codec RequestLogLine) (id : RequestId) (r : Result ResultBody) (s : OperationStore)
    → IsResult (finish json id r s).0
    → Remembers id (finish json id r s).0 (finish json id r s).1
unfolding finish
finish-Remembers json id (ok body) s i = remembered json id (ServerMessage.result id body) s i
finish-Remembers json id (err e) s i =
    absurd (or_failure-error id e (remember_error json id e s).0 i)

-- The result of a handler, if it is one, is in the table.
unfoldable pub Replies : RequestId → Option ServerMessage × Site → Type 0
Replies id (o, w) = (msg : ServerMessage) → o ≡ some msg → IsResult msg → Remembers id msg w.store

module _ (ops : Codec AnyOperationRecord) (reqs : Codec RequestLogLine) (id : RequestId) where
  recorded_as-Remembers :
      (now : ℕ) (asked : Asked) (operation_id : String) (r : Result ExecOutcome)
      (s : OperationStore)
      → IsResult (recorded_as ops reqs now id asked operation_id r s).0
      → Remembers id
          (recorded_as ops reqs now id asked operation_id r s).0
          (recorded_as ops reqs now id asked operation_id r s).1
  recorded_as-Remembers now asked operation_id (err e) s i = absurd i
  recorded_as-Remembers now asked operation_id (ok o) s i =
      by_record (append_exec_record ops (ran operation_id id asked now o) s) i
    where
      by_record :
          (a : Result (Unit {0}) × OperationStore)
          → IsResult (after_record ops reqs now id asked operation_id o a).0
          → Remembers id
              (after_record ops reqs now id asked operation_id o a).0
              (after_record ops reqs now id asked operation_id o a).1
      by_record (err e, s') i = absurd i
      by_record (ok _, s') i =
          remembered reqs id (ServerMessage.result id (exec_body operation_id o)) s' i

  pub handle_exec-Replies :
      (now : ℕ) (asked : Asked) (meanwhile : Site → Site) (o : Option (Result ExecOutcome))
      (w : Site)
      → Replies id (handle_exec ops reqs now id asked meanwhile o w)
  unfolding handle_exec Replies
  handle_exec-Replies now asked meanwhile none w msg e i = cc
  handle_exec-Replies now asked meanwhile (some r) w msg e i =
      let w' = meanwhile (record w { store = (next_operation_id w.store).1 }) in
      let reply = recorded_as ops reqs now id asked (next_operation_id w.store).0 r w'.store in
      let same : reply.0 ≡ msg = cc in
      subst (λ m. Remembers id m reply.1) same
        (recorded_as-Remembers now asked (next_operation_id w.store).0 r w'.store
          (subst IsResult (sym same) i))
