-- ===== src/Server/Store/Prune.antt =====
-- store.rs, `prune`: keep the newest operations and the requests that they name, and replace both
-- logs and the id counter.
use remote_workspace.Prelude.{
  ℕ, ◌+◌, ◌-◌, String, Bool, true, false, not, ◌&&◌, ◌||◌, Option, none, some, List, [], ◌∷◌,
  length, ltb, str_eq, ◌<>◌, if◌then◌else◌,
}
use remote_workspace.Prelude.Decimal.{show}
use remote_workspace.Protocol.Error.{ProtocolError, Result, ok, err}
use remote_workspace.Protocol.Messages.{RequestStatus}
use remote_workspace.Protocol.Record.{AnyOperationRecord, ServerMessage}
use remote_workspace.Server.Log.{Codec, rewrite_jsonl}
use remote_workspace.Server.Store.{
  StoredResult, RequestEntry, RequestLogLine, Requests, Store, ◌>>=◌, ◌>>◌, pure,
}

-- `is_pending`
unfoldable pub is_pending : AnyOperationRecord → Bool
is_pending (AnyOperationRecord.prepared p) = true
is_pending _ = false

-- `iter().filter(|r| !is_pending(r)).count()`
unfoldable pub count_history : List AnyOperationRecord → ℕ
unfolding is_pending
count_history [] = 0
count_history (r ∷ rs) = if is_pending r then count_history rs else 1 + count_history rs

-- The `retain` with `to_remove` counting down.
unfoldable pub drop_oldest : ℕ → List AnyOperationRecord → List AnyOperationRecord
unfolding is_pending
drop_oldest to_remove [] = []
drop_oldest to_remove (r ∷ rs) = elim (ltb 0 to_remove && not (is_pending r)) [
  | true ↦ drop_oldest (to_remove - 1) rs
  | false ↦ r ∷ drop_oldest to_remove rs
]

unfoldable pub record_request_id : AnyOperationRecord → Option String
record_request_id (AnyOperationRecord.fs r) = some r.request_id
record_request_id (AnyOperationRecord.exec r) = some r.request_id
record_request_id (AnyOperationRecord.transfer r) = some r.request_id
record_request_id (AnyOperationRecord.prepared r) = some r.request_id
record_request_id (AnyOperationRecord.aborted r) = none

abbrev names : String → Option String → Bool
names id none = false
names id (some j) = str_eq j id

-- `retained_ids.contains(id)`
unfoldable pub is_referenced : String → List AnyOperationRecord → Bool
unfolding record_request_id
is_referenced id [] = false
is_referenced id (r ∷ rs) = names id (record_request_id r) || is_referenced id rs

abbrev pub is_in_progress : RequestStatus → Bool
is_in_progress RequestStatus.in_progress = true
is_in_progress _ = false

unfoldable pub retain_requests : List AnyOperationRecord → Requests → Requests
unfolding is_referenced
retain_requests records [] = []
retain_requests records ((id, e) ∷ m) =
    let rest = retain_requests records m in
    if is_in_progress e.status || is_referenced id records then (id, e) ∷ rest else rest

abbrev done_of : Option StoredResult → Option ServerMessage
done_of (some (StoredResult.done m)) = some m
done_of _ = none

abbrev error_of : Option StoredResult → Option ProtocolError
error_of (some (StoredResult.error e)) = some e
error_of _ = none

abbrev pub line_of : String × RequestEntry → RequestLogLine
line_of (id, e) = record {
  request_id = id;
  status = e.status;
  result_done = done_of e.result;
  result_error = error_of e.result;
  op = e.op;
}

unfoldable pub lines_of : Requests → List RequestLogLine
lines_of [] = []
lines_of (x ∷ m) = line_of x ∷ lines_of m

pub record PruneStats : Type 0 where
  pub removed_operations : ℕ
  pub removed_requests : ℕ
  pub retained_operations : ℕ

-- How the replacement of a file ends: done, refused with the old file in place, or in place with its
-- sync failed.
pub data Replace : Type 0 where
  replaced : Replace
  refused unsynced : ProtocolError → Replace

pub record PruneIo : Type 0 where
  pub counter : Replace
  pub operations : Replace
  pub requests : Replace

abbrev outcome : Replace → Result (Unit {0})
outcome replaced = ok tt
outcome (refused e) = err e
outcome (unsynced e) = err e

abbrev replace {ℓ} : {A : Type ℓ} → Replace → A → A → A
replace (refused e) old new = old
replace _ old new = new

set_tables : ℕ → Store PruneStats
set_tables keep s =
    let records = drop_oldest (count_history s.records - keep) s.records in
    let requests = retain_requests records s.requests in
    (
      ok (record {
        removed_operations = length s.records - length records;
        removed_requests = length s.requests - length requests;
        retained_operations = count_history records;
      }),
      record s { records = records; requests = requests },
    )

write_counter : Replace → Store (Unit {0})
write_counter io s = (
  outcome io,
  record s { counter_file = replace io s.counter_file (some (show s.next_id <> "\n")) },
)

module _ (ops : Codec AnyOperationRecord) (reqs : Codec RequestLogLine) where
  write_operations : Replace → Store (Unit {0})
  write_operations io s = elim (rewrite_jsonl ops s.records) [
    | err e ↦ (err e, s)
    | ok file ↦ (outcome io, record s { operations_file = replace io s.operations_file file })
  ]

  write_requests : Replace → Store (Unit {0})
  write_requests io s = elim (rewrite_jsonl reqs (lines_of s.requests)) [
    | err e ↦ (err e, s)
    | ok file ↦ (outcome io, record s { requests_file = replace io s.requests_file file })
  ]

  unfoldable pub prune : ℕ → PruneIo → Store PruneStats
  unfolding set_tables write_counter write_operations write_requests drop_oldest count_history
      retain_requests lines_of
  prune keep io = do
    stats ← set_tables keep
    write_counter io.counter
    write_operations io.operations
    write_requests io.requests
    pure stats
