-- ===== src/Server/Store/Records.antt =====
-- store.rs, the operation records: the write-ahead marker, its commit or withdrawal, the other
-- records, and the questions about them.
pub mod History
use mathlib.Core.List.{map}
use remote_workspace.Prelude.{
  ℕ, ◌-◌, String, Bool, true, false, ◌&&◌, Option, none, some, List, [], ◌∷◌, ◌++◌, length, drop,
  ltb, str_eq, if◌then◌else◌,
}
use remote_workspace.Protocol.Error.{ErrorCode, new, ok, err}
use remote_workspace.Protocol.Messages.{ExecOutput, ExecTermination}
use remote_workspace.Protocol.Record.{
  AnyOperationRecord, OperationKind, FsOperationRecord, ExecOperationRecord, ExecDisposition,
  TransferOperationRecord, PreparedRecord, operation_id, is_committed, ServerMessage, ResultBody,
}
use remote_workspace.Server.Log.{Codec, incomplete, unsynced}
use remote_workspace.Server.Store.{
  OperationStore, Store, next_operation_id, append_record_locked, append_record_tracked,
}

abbrev pub is_prepared : AnyOperationRecord → Bool
is_prepared (AnyOperationRecord.prepared p) = true
is_prepared _ = false

-- Replace the first record of that id, or add at the end.
unfoldable pub replace_or_push :
    String → AnyOperationRecord → List AnyOperationRecord → List AnyOperationRecord
replace_or_push id r [] = r ∷ []
replace_or_push id r (x ∷ xs) =
    if str_eq (operation_id x) id then r ∷ xs else x ∷ replace_or_push id r xs

-- `retain`: all but the markers of that id.
unfoldable pub without_marker : String → List AnyOperationRecord → List AnyOperationRecord
without_marker id [] = []
without_marker id (x ∷ xs) =
    let rest = without_marker id xs in
    if str_eq (operation_id x) id && is_prepared x then rest else x ∷ rest

abbrev pub push : AnyOperationRecord → List AnyOperationRecord → List AnyOperationRecord
push r xs = xs ++ r ∷ []

module _ (json : Codec AnyOperationRecord) (now : ℕ) where
  unfoldable pub prepare_fs_record :
      (request_id : String)
      → OperationKind
      → (path : String) → (before_hash : Option String) → (expected_after_hash : String)
      → Store String
  unfolding next_operation_id append_record_locked
  prepare_fs_record request_id kind path before_hash expected_after_hash s =
      let (op_id, s1) = next_operation_id s in
      let prepared : PreparedRecord = record {
        operation_id = op_id;
        request_id = request_id;
        kind = kind;
        path = path;
        before_hash = before_hash;
        expected_after_hash = expected_after_hash;
        timestamp_ms = now;
      } in
      let (failure, s2) = append_record_locked json (AnyOperationRecord.prepared prepared) s1 in
      elim failure [
        | none ↦ (
          ok op_id,
          record s2 { records = push (AnyOperationRecord.prepared prepared) s2.records },
        )
        | some (unsynced e) ↦ (
          err e,
          (append_record_locked json
              (AnyOperationRecord.aborted (record { operation_id = op_id; timestamp_ms = now }))
              s2).1,
        )
        | some (incomplete e) ↦ (err e, s2)
      ]

  unfoldable pub abort_prepared : (op_id : String) → Store (Unit {0})
  unfolding append_record_tracked without_marker
  abort_prepared op_id =
      append_record_tracked json
        (AnyOperationRecord.aborted (record { operation_id = op_id; timestamp_ms = now }))
        (without_marker op_id)

  unfoldable pub commit_fs_record :
      (op_id request_id : String)
      → OperationKind
      → (path : String) → (before_hash : Option String) → (after_hash : String)
      → Store FsOperationRecord
  unfolding append_record_tracked replace_or_push
  commit_fs_record op_id request_id kind path before_hash after_hash s =
      let committed : FsOperationRecord = record {
        operation_id = op_id;
        request_id = request_id;
        kind = kind;
        path = path;
        before_hash = before_hash;
        after_hash = after_hash;
        timestamp_ms = now;
      } in
      let (r, s') =
        append_record_tracked json (AnyOperationRecord.fs committed)
          (replace_or_push op_id (AnyOperationRecord.fs committed)) s in
      elim r [ ok _ ↦ (ok committed, s') | err e ↦ (err e, s') ]

module _ (json : Codec AnyOperationRecord) where
  unfoldable pub append_exec_record : ExecOperationRecord → Store (Unit {0})
  unfolding append_record_tracked
  append_exec_record r =
      append_record_tracked json (AnyOperationRecord.exec r) (push (AnyOperationRecord.exec r))

  unfoldable pub append_transfer_record : TransferOperationRecord → Store (Unit {0})
  unfolding append_record_tracked
  append_transfer_record r =
      append_record_tracked json (AnyOperationRecord.transfer r)
        (push (AnyOperationRecord.transfer r))

-- `iter().find(..)`
unfoldable pub find :
    (AnyOperationRecord → Bool) → List AnyOperationRecord → Option AnyOperationRecord
find p [] = none
find p (x ∷ xs) = if p x then some x else find p xs

unfoldable pub find_record : OperationStore → (op_id : String) → Option AnyOperationRecord
unfolding find
find_record s op_id = find (λ r. str_eq (operation_id r) op_id && is_committed r) s.records

-- The request id of a committed record, by its kind.
abbrev pub committed_for : String → AnyOperationRecord → Bool
committed_for request_id (AnyOperationRecord.fs f) = str_eq f.request_id request_id
committed_for request_id (AnyOperationRecord.exec e) = str_eq e.request_id request_id
committed_for request_id (AnyOperationRecord.transfer t) = str_eq t.request_id request_id
committed_for request_id _ = false

unfoldable pub find_committed_by_request_id : OperationStore → String → Option AnyOperationRecord
unfolding find
find_committed_by_request_id s request_id = find (committed_for request_id) s.records

abbrev or_else {ℓ} : {A : Type ℓ} → Option A → A → A
or_else none d = d
or_else (some a) d = a

abbrev reconstruct_exec :
    ExecOperationRecord → ExecDisposition → Option ExecTermination → ServerMessage
reconstruct_exec e ExecDisposition.rejected t = ServerMessage.error e.request_id (
    new (or_else e.error_code ErrorCode.exec_failed)
      (or_else e.error "exec was rejected at time of crash; retry with a new request_id"))
reconstruct_exec e _ (some t) = ServerMessage.result e.request_id (
    ResultBody.exec (record {
      operation_id = e.operation_id;
      termination = t;
      duration_ms = e.duration_ms;
      drain_timed_out = e.drain_timed_out;
      stdout = e.stdout;
      stderr = e.stderr;
    }))
reconstruct_exec e _ none =
    ServerMessage.error e.request_id
      (new ErrorCode.io_error "corrupt exec record: completed operation has no termination")

-- `reconstruct_result`. It is called on committed records alone; on others the code panics, which is
-- `none` here.
unfoldable pub reconstruct_result : AnyOperationRecord → Option ServerMessage
reconstruct_result (AnyOperationRecord.fs f) = some (
    ServerMessage.result f.request_id (
      ResultBody.mutation (record {
        operation_id = f.operation_id;
        old_hash = f.before_hash;
        new_hash = f.after_hash;
      })))
reconstruct_result (AnyOperationRecord.exec e) =
    some (reconstruct_exec e e.disposition e.termination)
reconstruct_result (AnyOperationRecord.transfer t) = some (
    ServerMessage.result t.request_id (
      ResultBody.transfer (record {
        operation_id = t.operation_id;
        direction = t.direction;
        path = t.path;
        size = t.size;
        sha256 = t.sha256;
        duration_ms = t.duration_ms;
      })))
reconstruct_result (AnyOperationRecord.prepared p) = none
reconstruct_result (AnyOperationRecord.aborted a) = none

unfoldable pub committed : List AnyOperationRecord → List AnyOperationRecord
committed [] = []
committed (x ∷ xs) = let rest = committed xs in if is_committed x then x ∷ rest else rest

abbrev clear_output : ExecOutput → ExecOutput
clear_output o = record o { prefix = []; suffix = []; omitted_bytes = o.total_bytes }

abbrev pub clear_outputs : AnyOperationRecord → AnyOperationRecord
clear_outputs (AnyOperationRecord.exec e) =
    AnyOperationRecord.exec
      (record e { stdout = clear_output e.stdout; stderr = clear_output e.stderr })
clear_outputs r = r

abbrev pub newest : Option ℕ → List AnyOperationRecord → List AnyOperationRecord
newest none rs = rs
newest (some n) rs = if ltb n (length rs) then drop (length rs - n) rs else rs

unfoldable pub history : OperationStore → Option ℕ → List AnyOperationRecord
unfolding committed
history s limit = map clear_outputs (newest limit (committed s.records))
