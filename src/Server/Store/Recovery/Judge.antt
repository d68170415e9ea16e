-- ===== src/Server/Store/Recovery/Judge.antt =====
-- What `recover` makes of one marker (Server/Store/Recovery.antt, `recover_prepared`).
use remote_workspace.Prelude.{
  ℕ, String, Bytes, ◌≡◌, ◌∙◌, refl, ap, sym, subst, ◌<>◌, Option, some, inl, arith,
}
use remote_workspace.Protocol.Error.{ErrorCode, ProtocolError, new, Result, ok}
use remote_workspace.Protocol.Record.{AnyOperationRecord, PreparedRecord, ServerMessage, ResultBody}
use remote_workspace.Server.Log.{Codec}
use remote_workspace.Server.Workspace.{AbsPath, FileSystem, Workspace, resolve, hash_file}
use remote_workspace.Server.Store.{
  RequestLogLine, OperationStore, Store, ◌>>◌, pure, get, append_record_tracked,
}
use remote_workspace.Server.Store.Records.{reconstruct_result, abort_prepared, replace_or_push}
use remote_workspace.Server.Store.Requests.{finished, failed, remember_result, remember_error}
use remote_workspace.Server.Store.Recovery.{
  RecoveryAction, RecoveryOutcome, dropped, synthesized, no_op, committed, judge, committed_record,
  continued_from, settle, recover_prepared, synthesize_commit, resolve_prepared_as_conflict_with,
  remember,
}
use remote_workspace.Server.Store.Recovery.Unstuck.{bind-ok, then_pure}
use remote_workspace.Server.Store.Recovery.Decision.{Judged, judge-Judged}
use remote_workspace.Server.Store.Recovery.Tables.{
  unmarked, Has, Has-replace_or_push, append_record_tracked-done, abort_prepared-done,
  remember_result-records, remember_error-records, remember_result-get, remember_error-get,
}

then_pure-value :
    {A : Type 0} (m : Store (Unit {0})) (a b : A) (s : OperationStore)
    → ((m >> pure a) s).0 ≡ ok b
    → a ≡ b
then_pure-value m a b s h = ground arith

-- What a recovered marker leaves: dropped, it is gone and no request has changed; credited, its
-- mutation is recorded and its request is answered with it; in conflict, it is gone and its request is
-- answered that the file is stale.
abbrev pub Leaves :
    (now : ℕ)
    → PreparedRecord
    → OperationStore
    → RecoveryAction × OperationStore
    → RecoveryOutcome
    → Type 0
Leaves now p s q no_op =
    (q.0 ≡ dropped p.operation_id)
    × (q.1.records ≡ unmarked p.operation_id s.records)
    × (q.1.requests ≡ s.requests)
Leaves now p s q committed =
    (q.0 ≡ synthesized p.operation_id)
    × Has (AnyOperationRecord.fs (committed_record now p)) q.1.records
    × (get p.request_id q.1.requests
        ≡ some (
            finished (
              ServerMessage.result p.request_id (
                ResultBody.mutation (record {
                  operation_id = p.operation_id;
                  old_hash = p.before_hash;
                  new_hash = p.expected_after_hash;
                })))))
Leaves now p s q (RecoveryOutcome.conflict reason) =
    (q.0 ≡ RecoveryAction.conflict p.operation_id reason)
    × (q.1.records ≡ unmarked p.operation_id s.records)
    × ((e : ProtocolError) × (e.code ≡ ErrorCode.stale_file)
        × (get p.request_id q.1.requests ≡ some (failed e)))

module _ (ops : Codec AnyOperationRecord) (reqs : Codec RequestLogLine) (now : ℕ) where
  synthesize_commit-done :
      (p : PreparedRecord) (s : OperationStore)
      → (synthesize_commit ops reqs now p s).0 ≡ ok tt
      → Has
          (AnyOperationRecord.fs (committed_record now p))
          (synthesize_commit ops reqs now p s).1.records
        × (get p.request_id (synthesize_commit ops reqs now p s).1.requests
            ≡ some (
                finished (
                  ServerMessage.result p.request_id (
                    ResultBody.mutation (record {
                      operation_id = p.operation_id;
                      old_hash = p.before_hash;
                      new_hash = p.expected_after_hash;
                    })))))
  unfolding synthesize_commit remember reconstruct_result
  synthesize_commit-done p s h =
      let credit = AnyOperationRecord.fs (committed_record now p) in
      let msg = ServerMessage.result p.request_id (
        ResultBody.mutation (record {
          operation_id = p.operation_id;
          old_hash = p.before_hash;
          new_hash = p.expected_after_hash;
        })) in
      let first = append_record_tracked ops credit (replace_or_push p.operation_id credit) in
      let (u, done, answered, same) =
        bind-ok first (λ _. remember_result reqs p.request_id msg) tt s h in
      let (records, requests) =
        append_record_tracked-done ops credit (replace_or_push p.operation_id credit) s done in
      let t : OperationStore = (first s).1 in
      (
        subst (Has credit)
            (sym records
              ∙ sym (remember_result-records reqs p.request_id msg t)
              ∙ ap (λ (v : OperationStore). v.records) (sym same))
            (Has-replace_or_push p.operation_id credit s.records),
        ap (λ (v : OperationStore). get p.request_id v.requests) same
            ∙ remember_result-get reqs p.request_id msg t answered,
      )

  resolve_prepared-done :
      (p : PreparedRecord) (reason : String) (s : OperationStore)
      → (resolve_prepared_as_conflict_with ops reqs now p reason s).0 ≡ ok tt
      → ((resolve_prepared_as_conflict_with ops reqs now p reason s).1.records
          ≡ unmarked p.operation_id s.records)
        × ((e : ProtocolError) × (e.code ≡ ErrorCode.stale_file)
            × (get p.request_id
                  (resolve_prepared_as_conflict_with ops reqs now p reason s).1.requests
                ≡ some (failed e)))
  unfolding resolve_prepared_as_conflict_with
  resolve_prepared-done p reason s h =
      let e : ProtocolError =
        new ErrorCode.stale_file
          ("startup recovery could not reconcile operation " <> p.operation_id <> ": " <> reason) in
      let first = abort_prepared ops now p.operation_id in
      let (u, done, answered, same) =
        bind-ok first (λ _. remember_error reqs p.request_id e) tt s h in
      let (records, requests) = abort_prepared-done ops now p.operation_id s done in
      let t : OperationStore = (first s).1 in
      (
        ap (λ (v : OperationStore). v.records) same
            ∙ remember_error-records reqs p.request_id e t
            ∙ records,
        (
          e,
          refl,
          ap (λ (v : OperationStore). get p.request_id v.requests) same
              ∙ remember_error-get reqs p.request_id e t answered,
        ),
      )

  settle-Leaves :
      (p : PreparedRecord) (o : RecoveryOutcome) (a : RecoveryAction) (s : OperationStore)
      → (settle ops reqs now p o s).0 ≡ ok a
      → Leaves now p s (a, (settle ops reqs now p o s).1) o
  unfolding settle
  settle-Leaves p no_op a s h =
      let m = abort_prepared ops now p.operation_id in
      let (done, same) = then_pure m (dropped p.operation_id) a s h in
      let (records, requests) = abort_prepared-done ops now p.operation_id s done in
      (
        sym (then_pure-value m (dropped p.operation_id) a s h),
        ap (λ (v : OperationStore). v.records) same ∙ records,
        ap (λ (v : OperationStore). v.requests) same ∙ requests,
      )
  settle-Leaves p committed a s h =
      let m = synthesize_commit ops reqs now p in
      let (done, same) = then_pure m (synthesized p.operation_id) a s h in
      let (recorded, answered) = synthesize_commit-done p s done in
      (
        sym (then_pure-value m (synthesized p.operation_id) a s h),
        subst
            (λ (v : OperationStore). Has (AnyOperationRecord.fs (committed_record now p)) v.records)
            (sym same) recorded,
        ap (λ (v : OperationStore). get p.request_id v.requests) same ∙ answered,
      )
  settle-Leaves p (RecoveryOutcome.conflict reason) a s h =
      let m = resolve_prepared_as_conflict_with ops reqs now p reason in
      let (done, same) = then_pure m (RecoveryAction.conflict p.operation_id reason) a s h in
      let (records, (e, code, answered)) = resolve_prepared-done p reason s done in
      (
        sym (then_pure-value m (RecoveryAction.conflict p.operation_id reason) a s h),
        ap (λ (v : OperationStore). v.records) same ∙ records,
        (e, code, ap (λ (v : OperationStore). get p.request_id v.requests) same ∙ answered),
      )

  -- A marker whose path resolves and can be read, and that is recovered without an error: it is dropped
  -- if no later record continues it and the path is in the state that it says it was in before; it is
  -- credited if a later record continues it, or the path is in the other state that it announced,
  -- where no file stands for the deleted one; and it is in conflict if none of these hold. Dropped, it
  -- is gone and no request has changed; credited, its mutation is recorded and its request is answered
  -- with it; in conflict, it is gone and its request is answered that the file is stale.
  pub recover_prepared-Leaves :
      (fs : FileSystem) (sha256_hex : Bytes → String) (ws : Workspace) (p : PreparedRecord)
      (s : OperationStore) (abs : AbsPath) (current : Option String) (a : RecoveryAction)
      → resolve fs ws p.path ≡ ok abs
      → hash_file sha256_hex fs abs ≡ inl current
      → (recover_prepared ops reqs now fs sha256_hex ws p s).0 ≡ ok a
      → (o : RecoveryOutcome) × Judged (continued_from p s.records) p current o
        × Leaves now p s (a, (recover_prepared ops reqs now fs sha256_hex ws p s).1) o
  unfolding recover_prepared
  recover_prepared-Leaves fs sha256_hex ws p s abs current a found hashed h =
      let continued = continued_from p s.records in
      let o = judge continued p current in
      let same : recover_prepared ops reqs now fs sha256_hex ws p s ≡ settle ops reqs now p o s =
        rw (found, hashed, recover_prepared) refl in
      let settled : (settle ops reqs now p o s).0 ≡ ok a =
        ap (λ (q : Result RecoveryAction × OperationStore). q.0) (sym same) ∙ h in
      (
        o,
        judge-Judged continued p current o refl,
        subst (λ (t : OperationStore). Leaves now p s (a, t) o)
            (ap (λ (q : Result RecoveryAction × OperationStore). q.1) (sym same))
            (settle-Leaves p o a s settled),
      )
