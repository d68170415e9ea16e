-- ===== src/Server/Store/Load.antt =====
-- store.rs, `OperationStore::new`: the state that a server starts with, from the files of its
-- predecessor. The directory lock and the removal of legacy blobs are not modelled.
use Prim.Native.Nat.{Ordering}
use Prim.Native.String.{compare}
use remote_workspace.Prelude.{
  ℕ, String, Bytes, ◌≡◌, arith, Bool, true, false, Option, none, some, List, [], ◌∷◌, max, leb,
  if◌then◌else◌,
}
use remote_workspace.Prelude.Decimal.{parse_u64, strip_prefix, trim_text}
use remote_workspace.Protocol.Error.{
  ProtocolError, new, io_error, Result, ok, err, ◌>>=◌, >>=-eq-ok,
}
use remote_workspace.Protocol.Record.{AnyOperationRecord, operation_id, timestamp_ms, ServerMessage}
use remote_workspace.Server.Log.{Codec, AppendIo, load_log}
use remote_workspace.Server.Store.{
  StoredResult, RequestEntry, RequestLogLine, Requests, OperationStore, insert,
}

abbrev counter_of : Option ℕ → Result ℕ
counter_of (some n) = ok n
counter_of none = err (new io_error "corrupt op-counter file")

-- The high-water mark of the counter file; no file counts as 0.
unfoldable pub read_counter : Option String → Result ℕ
read_counter none = ok 0
read_counter (some text) = counter_of (parse_u64 (trim_text text))

abbrev or_zero : Option ℕ → ℕ
or_zero none = 0
or_zero (some n) = n

abbrev parse_id : Option String → ℕ
parse_id none = 0
parse_id (some n) = or_zero (parse_u64 n)

-- The number of an id `op-N`, 0 for any other.
unfoldable pub id_number : String → ℕ
id_number id = parse_id (strip_prefix "op-" id)

unfoldable pub max_id : ℕ → List AnyOperationRecord → ℕ
unfolding id_number
max_id n [] = n
max_id n (r ∷ rs) = max_id (max n (id_number (operation_id r))) rs

-- `BTreeMap::insert`, on the values in the order of their ids.
unfoldable pub insert_by_id : AnyOperationRecord → List AnyOperationRecord → List AnyOperationRecord
insert_by_id r [] = r ∷ []
insert_by_id r (x ∷ xs) = elim (compare (operation_id r) (operation_id x)) [
  | Ordering.lt ↦ r ∷ x ∷ xs
  | Ordering.eq ↦ r ∷ xs
  | Ordering.gt ↦ x ∷ insert_by_id r xs
]

unfoldable pub by_id : List AnyOperationRecord → List AnyOperationRecord → List AnyOperationRecord
unfolding insert_by_id
by_id m [] = m
by_id m (r ∷ rs) = by_id (insert_by_id r m) rs

abbrev pub is_aborted : AnyOperationRecord → Bool
is_aborted (AnyOperationRecord.aborted a) = true
is_aborted _ = false

unfoldable pub not_aborted : List AnyOperationRecord → List AnyOperationRecord
not_aborted [] = []
not_aborted (r ∷ rs) = let rest = not_aborted rs in if is_aborted r then rest else r ∷ rest

-- `sort_by_key(timestamp_ms)`, which is stable.
insert_by_time : AnyOperationRecord → List AnyOperationRecord → List AnyOperationRecord
insert_by_time r [] = r ∷ []
insert_by_time r (x ∷ xs) =
    if leb (timestamp_ms r) (timestamp_ms x) then r ∷ x ∷ xs else x ∷ insert_by_time r xs

unfoldable pub sort_by_time : List AnyOperationRecord → List AnyOperationRecord
unfolding insert_by_time
sort_by_time [] = []
sort_by_time (r ∷ rs) = insert_by_time r (sort_by_time rs)

abbrev stored : Option ServerMessage → Option ProtocolError → Option StoredResult
stored (some m) none = some (StoredResult.done m)
stored none (some e) = some (StoredResult.error e)
stored _ _ = none

abbrev pub entry_of : RequestLogLine → RequestEntry
entry_of l = record { status = l.status; result = stored l.result_done l.result_error; op = l.op }

-- The request table that the lines of the log leave: a later line replaces an earlier one.
unfoldable pub replay : Requests → List RequestLogLine → Requests
replay m [] = m
replay m (l ∷ ls) = replay (insert l.request_id (entry_of l) m) ls

module _ (ops : Codec AnyOperationRecord) (reqs : Codec RequestLogLine) where
  unfoldable pub start : Option String → Bytes → Bytes → List AppendIo → Result OperationStore
  unfolding read_counter max_id by_id not_aborted sort_by_time replay
  start counter_file operations_file requests_file weather = do
    n ← read_counter counter_file
    o ← load_log ops operations_file
    r ← load_log reqs requests_file
    ok (record {
      operations_file = o.1;
      requests_file = r.1;
      counter_file = counter_file;
      next_id = max_id n o.0;
      records = sort_by_time (not_aborted (by_id [] o.0));
      requests = replay [] r.0;
      log_torn = false;
      weather = weather;
    })

  -- What a start that succeeds has read, and the counter, records and requests that it begins with.
  pub start-eq-ok :
      (counter : Option String) (operations requests : Bytes) (weather : List AppendIo)
      (u : OperationStore)
      → start counter operations requests weather ≡ ok u
      → (n : ℕ) × (o : List AnyOperationRecord × Bytes) × (r : List RequestLogLine × Bytes)
        × (read_counter counter ≡ ok n)
        × (load_log ops operations ≡ ok o)
        × (load_log reqs requests ≡ ok r)
        × (u.next_id ≡ max_id n o.0)
        × (u.records ≡ sort_by_time (not_aborted (by_id [] o.0)))
        × (u.requests ≡ replay [] r.0)
  unfolding start
  start-eq-ok counter operations requests weather u h =
      let (n, hn, h1) = >>=-eq-ok (read_counter counter) _ u h in
      let (o, ho, h2) = >>=-eq-ok (load_log ops operations) _ u h1 in
      let (r, hr, h3) = >>=-eq-ok (load_log reqs requests) _ u h2 in
      (n, o, r, hn, ho, hr, ground arith, ground arith, ground arith)
