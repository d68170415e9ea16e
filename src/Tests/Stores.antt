-- ===== src/Tests/Stores.antt =====
-- The theorems on the store, at the data of Tests/Data.antt.
use mathlib.Core.Path.{◌≡◌, refl}
use remote_workspace.Prelude.{
  ℕ, inl, ◌≤◌, ◌||◌, min, drop, ◌-◌, true, false, none, some, List, [], ◌∷◌, arith,
}
use remote_workspace.Protocol.Error.{ErrorCode, new, Result, ok}
use remote_workspace.Server.Log.{load_log, append_line, rewrite_jsonl}
use remote_workspace.Prelude.Decimal.{split, parse_u64, trim_text, show, strip_prefix}
use remote_workspace.Prelude.Utf8.{is_utf8, trim}
use remote_workspace.Server.Store.{OperationStore, RequestEntry, get, insert, next_operation_id}
use remote_workspace.Server.Store.Requests.{remember_result, claimed, failed}
use remote_workspace.Server.Store.Load.{start, id_number}
use remote_workspace.Server.Store.Prune.{
  prune, PruneIo, PruneStats, replaced, refused, is_in_progress, is_referenced, count_history,
}
use remote_workspace.Server.Store.Once.{Call}
use remote_workspace.Server.Store.Retention.{
  markers, history_part, prune_records, prune_requests_kept, prune_requests_left, next_id-prune,
}
use remote_workspace.Server.Store.Fresh.{AllBelow, next_operation_id-fresh}
use remote_workspace.Server.Store.Recovery.{
  recover, synthesized, stuck_exec_marked_error, RecoveryAction, RecoveryOutcome, recover_prepared,
  continued_from,
}
use remote_workspace.Server.Store.Recovery.Decision.{Judged}
use remote_workspace.Server.Store.Recovery.Judge.{Leaves, recover_prepared-Leaves}
use remote_workspace.Server.Store.Recovery.Unstuck.{is_stuck, recover-settled}
use remote_workspace.Protocol.Record.{AnyOperationRecord, PreparedRecord}
use remote_workspace.Server.Workspace.{resolve, hash_file, hash_bytes}
use remote_workspace.Server.Fs.WriteAhead.{put_file}
use remote_workspace.Tests.Data.{
  announced, written, records_codec, requests_codec, store, file_path, interrupted, disk, workspace,
  size_hash,
}

-- The request log is not replaced.
abbrev rough : PruneIo
rough = record {
  counter = replaced;
  operations = replaced;
  requests = refused (new ErrorCode.io_error "full");
}

abbrev smooth : PruneIo
smooth = record { counter = replaced; operations = replaced; requests = replaced }

abbrev later : List Call
later = Call.prune 1 smooth ∷ Call.error "r9" (new ErrorCode.io_error "full") ∷ []

abbrev pruned : PruneIo → OperationStore
pruned io = (prune records_codec requests_codec 1 io store).1

prune_records_example :
    (markers (pruned rough).records ≡ markers store.records)
    × (history_part (pruned rough).records
        ≡ drop (count_history store.records - 1) (history_part store.records))
    × (count_history (pruned rough).records ≡ min 1 (count_history store.records))
prune_records_example = prune_records records_codec requests_codec 1 rough store

is_kept :
    (is_in_progress (claimed "exec").status || is_referenced "r1" (pruned rough).records) ≡ true
is_kept = refl

known : get "r1" store.requests ≡ some (claimed "exec")
unfolding get
known = refl

prune_requests_kept_example : get "r1" (pruned rough).requests ≡ some (claimed "exec")
prune_requests_kept_example =
    prune_requests_kept records_codec requests_codec 1 rough store "r1" (claimed "exec") known
      is_kept

prune_requests_left_example :
    (is_in_progress (claimed "exec").status || is_referenced "r1" (pruned rough).records) ≡ true
prune_requests_left_example =
    prune_requests_left records_codec requests_codec 1 rough store "r1" (claimed "exec")
      prune_requests_kept_example

abbrev stats : PruneStats
stats = record { removed_operations = 1; removed_requests = 0; retained_operations = 1 }

is_pruned : (prune records_codec requests_codec 1 smooth store).0 ≡ ok stats
unfolding prune rewrite_jsonl
is_pruned = refl

abbrev restarted : OperationStore
restarted = record {
  operations_file = [];
  requests_file = [];
  counter_file = some "8\n";
  next_id = 8;
  records = [];
  requests = [];
  log_torn = false;
  weather = [];
}

starts : start records_codec requests_codec (pruned smooth).counter_file [] [] [] ≡ ok restarted
unfolding prune start load_log rewrite_jsonl parse_u64 trim_text show
starts = refl

next_id-prune_example : store.next_id ≤ restarted.next_id
next_id-prune_example =
    next_id-prune records_codec requests_codec 1 smooth store stats [] [] [] restarted (omega arith)
      is_pruned starts

abbrev one_line : List ℕ
one_line = b'{' ∷ b'}' ∷ b'\n' ∷ []

abbrev reopened : OperationStore
reopened = record restarted {
  operations_file = one_line;
  counter_file = none;
  next_id = 7;
  records = AnyOperationRecord.fs written ∷ [];
}

is_loaded : load_log records_codec one_line ≡ ok (AnyOperationRecord.fs written ∷ [], one_line)
unfolding load_log is_utf8 trim
is_loaded = refl

reopens : start records_codec requests_codec none one_line [] [] ≡ ok reopened
unfolding start load_log is_utf8 trim strip_prefix parse_u64
reopens = refl

next_operation_id-fresh_example :
    AllBelow (id_number (next_operation_id reopened).0) (AnyOperationRecord.fs written ∷ [])
next_operation_id-fresh_example =
    next_operation_id-fresh records_codec requests_codec none one_line one_line []
      (AnyOperationRecord.fs written ∷ []) [] reopened is_loaded reopens (omega arith)

-- The file of the marker has become what it announced.
abbrev announced_now : PreparedRecord
announced_now = record announced { before_hash = some "sha256:1"; expected_after_hash = "sha256:2" }

abbrev marked : OperationStore
marked = record store { records = AnyOperationRecord.prepared announced_now ∷ [] }

abbrev settled : Result RecoveryAction × OperationStore
settled =
    recover_prepared records_codec requests_codec 9 disk size_hash workspace announced_now marked

resolves : resolve disk workspace "a" ≡ ok file_path
unfolding resolve split strip_prefix put_file
resolves = refl

hashed : hash_file size_hash disk file_path ≡ inl (some "sha256:2")
unfolding hash_file put_file show hash_bytes
hashed = refl

credits : settled.0 ≡ ok (synthesized "op-8")
unfolding recover_prepared append_line remember_result resolve strip_prefix split put_file hash_file
    hash_bytes show
credits = refl

recover_prepared-Leaves_example :
    (o : RecoveryOutcome) × Judged
      (continued_from announced_now marked.records)
      announced_now
      (some "sha256:2")
      o
    × Leaves 9 announced_now marked (synthesized "op-8", settled.1) o
recover_prepared-Leaves_example =
    recover_prepared-Leaves records_codec requests_codec 9 disk size_hash workspace announced_now
      marked file_path (some "sha256:2") (synthesized "op-8") resolves hashed credits

abbrev recovered : OperationStore
recovered = (recover records_codec requests_codec 9 disk size_hash workspace interrupted).1

recovers :
    (recover records_codec requests_codec 9 disk size_hash workspace interrupted).0
    ≡ ok (stuck_exec_marked_error "r1" ∷ synthesized "op-7" ∷ [])
unfolding recover append_line remember_result
recovers = refl

abbrev crashed : RequestEntry
crashed =
    failed
      (new ErrorCode.exec_failed "exec in progress at time of crash; retry with a new request_id")

is_failed : get "r1" recovered.requests ≡ some crashed
unfolding recover get append_line remember_result insert
is_failed = refl

recover-settled_example : is_stuck crashed ≡ false
recover-settled_example =
    recover-settled requests_codec records_codec 9 disk size_hash workspace interrupted
      (stuck_exec_marked_error "r1" ∷ synthesized "op-7" ∷ []) recovers "r1" crashed is_failed
