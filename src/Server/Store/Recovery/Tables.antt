-- ===== src/Server/Store/Recovery/Tables.antt =====
-- What the tracked appends of a recovery (store.rs) leave in the records and in the table of requests.
use text.Mathlib.TextPositions.{eq_refl}
use remote_workspace.Prelude.{
  ℕ, String, ◌≡◌, ◌⊎◌, ◌∙◌, refl, ap, some, List, [], ◌∷◌, inl, arith, str_eq, if◌then◌else◌,
}
use remote_workspace.Protocol.Error.{ProtocolError, ok}
use remote_workspace.Protocol.Record.{AnyOperationRecord, ServerMessage}
use remote_workspace.Server.Log.{Codec}
use remote_workspace.Server.Store.{
  RequestLogLine, OperationStore, get, append_record_locked, append_record_tracked,
  append_request_tracked, append_request_line,
}
use remote_workspace.Server.Store.Records.{abort_prepared, without_marker, replace_or_push}
use remote_workspace.Server.Store.Requests.{
  finished, failed, result_line, error_line, remember_result, remember_error,
}
use remote_workspace.Server.Store.Table.{get-insert}
use remote_workspace.Server.Store.Recovery.Unstuck.{
  requests-remember_result, requests-remember_error,
}

-- The records but for the markers of an operation.
abbrev pub unmarked : (op_id : String) → List AnyOperationRecord → List AnyOperationRecord
unmarked op_id [] = []
unmarked op_id (AnyOperationRecord.prepared p ∷ rs) =
    if str_eq p.operation_id op_id
    then unmarked op_id rs
    else AnyOperationRecord.prepared p ∷ unmarked op_id rs
unmarked op_id (AnyOperationRecord.fs r ∷ rs) = AnyOperationRecord.fs r ∷ unmarked op_id rs
unmarked op_id (AnyOperationRecord.exec r ∷ rs) = AnyOperationRecord.exec r ∷ unmarked op_id rs
unmarked op_id (AnyOperationRecord.transfer r ∷ rs) =
    AnyOperationRecord.transfer r ∷ unmarked op_id rs
unmarked op_id (AnyOperationRecord.aborted r ∷ rs) =
    AnyOperationRecord.aborted r ∷ unmarked op_id rs

abbrev pub Has : AnyOperationRecord → List AnyOperationRecord → Type 0
Has r [] = ⊥
Has r (x ∷ xs) = (x ≡ r) ⊎ Has r xs

without_marker-unmarked :
    (id : String) (rs : List AnyOperationRecord) → without_marker id rs ≡ unmarked id rs
unfolding without_marker
without_marker-unmarked id [] = refl
without_marker-unmarked id (AnyOperationRecord.prepared p ∷ rs) =
    ground (arith, without_marker-unmarked id rs)
without_marker-unmarked id (AnyOperationRecord.fs r ∷ rs) =
    ground (arith, without_marker-unmarked id rs)
without_marker-unmarked id (AnyOperationRecord.exec r ∷ rs) =
    ground (arith, without_marker-unmarked id rs)
without_marker-unmarked id (AnyOperationRecord.transfer r ∷ rs) =
    ground (arith, without_marker-unmarked id rs)
without_marker-unmarked id (AnyOperationRecord.aborted r ∷ rs) =
    ground (arith, without_marker-unmarked id rs)

pub Has-replace_or_push :
    (id : String) (r : AnyOperationRecord) (rs : List AnyOperationRecord)
    → Has r (replace_or_push id r rs)
unfolding replace_or_push
Has-replace_or_push id r [] = inl refl
Has-replace_or_push id r (x ∷ xs) = ground (arith, Has-replace_or_push id r xs)

module _ (ops : Codec AnyOperationRecord) where
  append_record_locked-tables :
      (r : AnyOperationRecord) (s : OperationStore)
      → ((append_record_locked ops r s).1.records ≡ s.records)
        × ((append_record_locked ops r s).1.requests ≡ s.requests)
  unfolding append_record_locked
  append_record_locked-tables r s = ground arith

  pub append_record_tracked-done :
      (r : AnyOperationRecord) (f : List AnyOperationRecord → List AnyOperationRecord)
      (s : OperationStore)
      → (append_record_tracked ops r f s).0 ≡ ok tt
      → ((append_record_tracked ops r f s).1.records ≡ f s.records)
        × ((append_record_tracked ops r f s).1.requests ≡ s.requests)
  unfolding append_record_tracked
  append_record_tracked-done r f s h = ground (arith, append_record_locked-tables r s)

  pub abort_prepared-done :
      (now : ℕ) (id : String) (s : OperationStore)
      → (abort_prepared ops now id s).0 ≡ ok tt
      → ((abort_prepared ops now id s).1.records ≡ unmarked id s.records)
        × ((abort_prepared ops now id s).1.requests ≡ s.requests)
  unfolding abort_prepared
  abort_prepared-done now id s h =
      let (r, q) = append_record_tracked-done _ (without_marker id) s h in
      (r ∙ without_marker-unmarked id s.records, q)

module _ (reqs : Codec RequestLogLine) where
  append_request_line-records :
      (l : RequestLogLine) (s : OperationStore)
      → (append_request_line reqs l s).1.records ≡ s.records
  unfolding append_request_line
  append_request_line-records l s = ground arith

  pub remember_result-records :
      (id : String) (msg : ServerMessage) (s : OperationStore)
      → (remember_result reqs id msg s).1.records ≡ s.records
  unfolding remember_result append_request_tracked
  remember_result-records id msg s =
      ground (arith, append_request_line-records (result_line id msg) s)

  pub remember_error-records :
      (id : String) (e : ProtocolError) (s : OperationStore)
      → (remember_error reqs id e s).1.records ≡ s.records
  unfolding remember_error append_request_tracked
  remember_error-records id e s = ground (arith, append_request_line-records (error_line id e) s)

  pub remember_result-get :
      (id : String) (msg : ServerMessage) (s : OperationStore)
      → (remember_result reqs id msg s).0 ≡ ok tt
      → get id (remember_result reqs id msg s).1.requests ≡ some (finished msg)
  remember_result-get id msg s h =
      let same = requests-remember_result reqs id msg s h in
      let there = get-insert id id (finished msg) s.requests in
      ap (get id) same ∙ there ∙ rw (eq_refl id) refl

  pub remember_error-get :
      (id : String) (e : ProtocolError) (s : OperationStore)
      → (remember_error reqs id e s).0 ≡ ok tt
      → get id (remember_error reqs id e s).1.requests ≡ some (failed e)
  remember_error-get id e s h =
      let same = requests-remember_error reqs id e s h in
      let there = get-insert id id (failed e) s.requests in
      ap (get id) same ∙ there ∙ rw (eq_refl id) refl
