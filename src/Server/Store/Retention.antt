-- ===== src/Server/Store/Retention.antt =====
-- What `prune` keeps and drops (Server/Store/Prune.antt), and the operation counter.
use remote_workspace.Prelude.{
  ℕ, zero, suc, ◌-◌, ◌≤◌, ◌<◌, String, Bytes, ◌≡◌, refl, ap, subst, true, ◌||◌, some, List, [], ◌∷◌,
  arith, min, drop, if◌then◌else◌, max, eq_iff, ◌<>◌,
}
use remote_workspace.Prelude.Decimal.{u64_mod, parse_u64, trim_text, parse_u64-trim_text, show}
use remote_workspace.Protocol.Error.{ok}
use remote_workspace.Protocol.Record.{AnyOperationRecord, operation_id}
use remote_workspace.Server.Log.{Codec, AppendIo}
use remote_workspace.Server.Store.{RequestEntry, RequestLogLine, Requests, OperationStore, get}
use remote_workspace.Server.Store.Prune.{
  is_pending, count_history, drop_oldest, is_referenced, is_in_progress, retain_requests,
  PruneStats, PruneIo, prune,
}
use remote_workspace.Server.Store.Load.{read_counter, id_number, max_id, start, start-eq-ok}

-- The markers, and the records that are history, each in their order.
unfoldable pub markers : List AnyOperationRecord → List AnyOperationRecord
unfolding is_pending
markers [] = []
markers (r ∷ rs) = let rest = markers rs in if is_pending r then r ∷ rest else rest

unfoldable pub history_part : List AnyOperationRecord → List AnyOperationRecord
unfolding is_pending
history_part [] = []
history_part (r ∷ rs) = let rest = history_part rs in if is_pending r then rest else r ∷ rest

markers-drop_oldest :
    (n : ℕ) (rs : List AnyOperationRecord) → markers (drop_oldest n rs) ≡ markers rs
unfolding markers drop_oldest
markers-drop_oldest n [] = refl
markers-drop_oldest n (r ∷ rs) =
    ground (arith, markers-drop_oldest (n - 1) rs, markers-drop_oldest n rs)

drop_oldest-zero : (rs : List AnyOperationRecord) → drop_oldest 0 rs ≡ rs
unfolding drop_oldest
drop_oldest-zero [] = refl
drop_oldest-zero (r ∷ rs) = ap (λ t. r ∷ t) (drop_oldest-zero rs)

history_part-drop_oldest :
    (n : ℕ) (rs : List AnyOperationRecord)
    → history_part (drop_oldest n rs) ≡ drop n (history_part rs)
unfolding history_part drop_oldest
history_part-drop_oldest zero rs = ap history_part (drop_oldest-zero rs)
history_part-drop_oldest (suc n) [] = refl
history_part-drop_oldest (suc n) (r ∷ rs) =
    ground (arith, history_part-drop_oldest n rs, history_part-drop_oldest (suc n) rs)

count_history-drop_oldest :
    (n : ℕ) (rs : List AnyOperationRecord) → count_history (drop_oldest n rs) ≡ count_history rs - n
unfolding count_history drop_oldest
count_history-drop_oldest n [] = omega arith
count_history-drop_oldest n (r ∷ rs) =
    ground (arith, count_history-drop_oldest (n - 1) rs, count_history-drop_oldest n rs)

get-retain_requests :
    (rs : List AnyOperationRecord) (m : Requests) (id : String) (e : RequestEntry)
    → get id m ≡ some e
    → (is_in_progress e.status || is_referenced id rs) ≡ true
    → get id (retain_requests rs m) ≡ some e
unfolding get retain_requests
get-retain_requests rs [] id e h k = cc
get-retain_requests rs ((j, d) ∷ m) id e h k =
    ground (arith, eq_iff j id, get-retain_requests rs m id e)

retained-get :
    (rs : List AnyOperationRecord) (m : Requests) (id : String) (e : RequestEntry)
    → get id (retain_requests rs m) ≡ some e
    → (is_in_progress e.status || is_referenced id rs) ≡ true
unfolding get retain_requests
retained-get rs [] id e h = cc
retained-get rs ((j, d) ∷ m) id e h = ground (arith, eq_iff j id, retained-get rs m id e)

le-max_id : (n : ℕ) (rs : List AnyOperationRecord) → n ≤ max_id n rs
unfolding max_id
le-max_id n [] = omega arith
le-max_id n (r ∷ rs) = omega (arith, le-max_id (max n (id_number (operation_id r))) rs)

next_id-start :
    (ops : Codec AnyOperationRecord) (reqs : Codec RequestLogLine) (text : String) (n : ℕ)
    (operations requests : Bytes) (weather : List AppendIo) (u : OperationStore)
    → parse_u64 (trim_text text) ≡ some n
    → start ops reqs (some text) operations requests weather ≡ ok u
    → n ≤ u.next_id
unfolding read_counter
next_id-start ops reqs text n operations requests weather u read started =
    let (n', o, r, hn, ho, hr, next, _, _) =
      start-eq-ok ops reqs (some text) operations requests weather u started in
    let same : n' ≡ n = ground (arith, hn, read) in omega (arith, next, same, le-max_id n' o.0)

module _ (ops : Codec AnyOperationRecord) (reqs : Codec RequestLogLine) where
  records-prune :
      (keep : ℕ) (io : PruneIo) (s : OperationStore)
      → (prune ops reqs keep io s).1.records
        ≡ drop_oldest (count_history s.records - keep) s.records
  unfolding prune
  records-prune keep io s = ground arith

  requests-prune :
      (keep : ℕ) (io : PruneIo) (s : OperationStore)
      → (prune ops reqs keep io s).1.requests
        ≡ retain_requests (prune ops reqs keep io s).1.records s.requests
  unfolding prune
  requests-prune keep io s = ground arith

  -- A prune keeps every marker of a pending mutation and of the other records the newest `keep`, in
  -- their order, however the files are replaced.
  pub prune_records :
      (keep : ℕ) (io : PruneIo) (s : OperationStore)
      → let t = (prune ops reqs keep io s).1 in
        (markers t.records ≡ markers s.records)
        × (history_part t.records ≡ drop (count_history s.records - keep) (history_part s.records))
        × (count_history t.records ≡ min keep (count_history s.records))
  prune_records keep io s = rw (records-prune keep io s) (
    markers-drop_oldest (count_history s.records - keep) s.records,
    history_part-drop_oldest (count_history s.records - keep) s.records,
    omega (arith, count_history-drop_oldest (count_history s.records - keep) s.records),
  )

  -- A request in flight, or named by a retained record, keeps its entry through a prune.
  pub prune_requests_kept :
      (keep : ℕ) (io : PruneIo) (s : OperationStore) (id : String) (e : RequestEntry)
      → get id s.requests ≡ some e
      → (is_in_progress e.status || is_referenced id (prune ops reqs keep io s).1.records) ≡ true
      → get id (prune ops reqs keep io s).1.requests ≡ some e
  prune_requests_kept keep io s id e h k =
      rw (requests-prune keep io s)
        (get-retain_requests (prune ops reqs keep io s).1.records s.requests id e h k)

  -- Every entry that a prune leaves is of a request in flight or named by a retained record.
  pub prune_requests_left :
      (keep : ℕ) (io : PruneIo) (s : OperationStore) (id : String) (e : RequestEntry)
      → get id (prune ops reqs keep io s).1.requests ≡ some e
      → (is_in_progress e.status || is_referenced id (prune ops reqs keep io s).1.records) ≡ true
  prune_requests_left keep io s id e h =
      retained-get (prune ops reqs keep io s).1.records s.requests id e
        (rw (requests-prune keep io s) at h)

  counter-prune :
      (keep : ℕ) (io : PruneIo) (s : OperationStore) (stats : PruneStats)
      → (prune ops reqs keep io s).0 ≡ ok stats
      → (prune ops reqs keep io s).1.counter_file ≡ some (show s.next_id <> "\n")
  unfolding prune
  counter-prune keep io s stats h = ground arith

  -- After a prune that succeeds, a start from the counter file counts on from where the server was,
  -- whatever the logs hold, if its counter is a u64.
  pub next_id-prune :
      (keep : ℕ) (io : PruneIo) (s : OperationStore) (stats : PruneStats)
      (operations requests : Bytes) (weather : List AppendIo) (u : OperationStore)
      → s.next_id < u64_mod
      → (prune ops reqs keep io s).0 ≡ ok stats
      → start ops reqs (prune ops reqs keep io s).1.counter_file operations requests weather ≡ ok u
      → s.next_id ≤ u.next_id
  next_id-prune keep io s stats operations requests weather u fits done started =
      next_id-start ops reqs (show s.next_id <> "\n") s.next_id operations requests weather u
        (parse_u64-trim_text s.next_id fits)
        (subst (λ c. start ops reqs c operations requests weather ≡ ok u)
          (counter-prune keep io s stats done) started)
