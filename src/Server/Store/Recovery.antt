-- ===== src/Server/Store/Recovery.antt =====
-- store.rs, `recover`: what a start makes of the markers and of the requests that its predecessor
-- left unfinished.
pub mod Decision
pub mod Tables
pub mod Judge
pub mod Unstuck
use mathlib.Core.List.{reverse}
use remote_workspace.Prelude.{
  ℕ, String, Bytes, Bool, true, false, not, ◌&&◌, Option, none, some, List, [], ◌∷◌, ◌++◌, inl, inr,
  str_eq, opt_eq, ◌<>◌, if◌then◌else◌,
}
use remote_workspace.Protocol.Error.{ErrorCode, ProtocolError, new, from_io, Result, ok, err}
use remote_workspace.Protocol.Messages.{RequestStatus}
use remote_workspace.Protocol.Record.{
  AnyOperationRecord, PreparedRecord, FsOperationRecord, operation_id,
}
use remote_workspace.Server.Log.{Codec}
use remote_workspace.Server.Workspace.{FileSystem, Workspace, resolve, hash_file}
use remote_workspace.Server.Store.{
  RequestEntry, RequestLogLine, Requests, OperationStore, Store, ◌>>=◌, ◌>>◌, pure, fail, remove,
  append_record_tracked,
}
use remote_workspace.Server.Store.Requests.{remember_result, remember_error}
use remote_workspace.Server.Store.Records.{
  abort_prepared, replace_or_push, find_committed_by_request_id, reconstruct_result,
}
use remote_workspace.Server.Store.Prune.{is_in_progress}

pub data RecoveryAction : Type 0 where
  dropped synthesized : (operation_id : String) → RecoveryAction
  conflict : (operation_id reason : String) → RecoveryAction
  cleared_stuck stuck_exec_marked_error : (request_id : String) → RecoveryAction

pub data RecoveryOutcome : Type 0 where
  no_op committed : RecoveryOutcome
  conflict : String → RecoveryOutcome

-- `FILE_DELETED_SENTINEL`
abbrev pub file_deleted_sentinel : String
file_deleted_sentinel = "sha256:"

unfoldable pub prepareds : List AnyOperationRecord → List PreparedRecord
prepareds [] = []
prepareds (AnyOperationRecord.prepared p ∷ rs) = p ∷ prepareds rs
prepareds (_ ∷ rs) = prepareds rs

abbrev continues : PreparedRecord → Option String → Bool
continues p (some before) = str_eq before p.expected_after_hash
continues p none = str_eq p.expected_after_hash file_deleted_sentinel

abbrev continues_from : PreparedRecord → AnyOperationRecord → Bool
continues_from p (AnyOperationRecord.fs later) =
    str_eq later.path p.path && continues p later.before_hash
continues_from p _ = false

any_continues : PreparedRecord → List AnyOperationRecord → Bool
any_continues p [] = false
any_continues p (r ∷ rs) = if continues_from p r then true else any_continues p rs

-- `continued_from`: a later record on the path started from the state that `p` was to leave.
unfoldable pub continued_from : PreparedRecord → List AnyOperationRecord → Bool
unfolding any_continues
continued_from p [] = false
continued_from p (r ∷ rs) =
    if str_eq (operation_id r) p.operation_id then any_continues p rs else continued_from p rs

abbrev both_eq : Option String → Option String → Bool
both_eq (some b) (some c) = str_eq b c
both_eq none none = true
both_eq _ _ = false

-- The match of `recover` on the hashes, the guards in their order.
abbrev judge_absent : PreparedRecord → Option String → RecoveryOutcome
judge_absent p before =
    if str_eq p.expected_after_hash file_deleted_sentinel then committed else elim before [
      | some b ↦ conflict "file expected to exist after mutation but is absent"
      | none ↦ conflict "file hash matches neither before nor expected-after"
    ]

abbrev judge_present : PreparedRecord → String → RecoveryOutcome
judge_present p c =
    if str_eq c p.expected_after_hash
    then committed
    else conflict "file hash matches neither before nor expected-after"

abbrev judge_current : PreparedRecord → Option String → RecoveryOutcome
judge_current p none = judge_absent p p.before_hash
judge_current p (some c) = judge_present p c

unfoldable pub judge :
    (continued : Bool) → PreparedRecord → (current : Option String) → RecoveryOutcome
judge continued p current =
    if continued
    then committed
    else if both_eq p.before_hash current
    then no_op
    else judge_current p current

abbrev pub committed_record : ℕ → PreparedRecord → FsOperationRecord
committed_record now p = record {
  operation_id = p.operation_id;
  request_id = p.request_id;
  kind = p.kind;
  path = p.path;
  before_hash = p.before_hash;
  after_hash = p.expected_after_hash;
  timestamp_ms = now;
}

-- Requests in progress with no result, with the kind that the log gives them.
abbrev has_result : RequestEntry → Bool
has_result e = elim e.result [ some r ↦ true | none ↦ false ]

unfoldable pub stuck : Requests → List (String × Option String)
stuck [] = []
stuck ((id, e) ∷ m) =
    let rest = stuck m in
    if is_in_progress e.status && not (has_result e) then (id, e.op) ∷ rest else rest

unfoldable pub forget : String → Store (Unit {0})
unfolding remove
forget id s = (ok tt, record s { requests = remove id s.requests })

module _ (ops : Codec AnyOperationRecord) (reqs : Codec RequestLogLine) (now : ℕ) where
  remember : (request_id : String) → AnyOperationRecord → Store (Unit {0})
  remember request_id r = elim (reconstruct_result r) [
    | some msg ↦ remember_result reqs request_id msg
    | none ↦ pure tt
  ]

  unfoldable pub synthesize_commit : PreparedRecord → Store (Unit {0})
  unfolding remember append_record_tracked reconstruct_result replace_or_push
  synthesize_commit p = do
    append_record_tracked ops (AnyOperationRecord.fs (committed_record now p))
        (replace_or_push p.operation_id (AnyOperationRecord.fs (committed_record now p)))
    remember p.request_id (AnyOperationRecord.fs (committed_record now p))

  unfoldable pub resolve_prepared_as_conflict_with :
      PreparedRecord → (reason : String) → Store (Unit {0})
  unfolding abort_prepared remember_error
  resolve_prepared_as_conflict_with p reason = do
    abort_prepared ops now p.operation_id
    remember_error reqs p.request_id (
        new ErrorCode.stale_file
          ("startup recovery could not reconcile operation " <> p.operation_id <> ": " <> reason))

  unfoldable pub settle : PreparedRecord → RecoveryOutcome → Store RecoveryAction
  unfolding abort_prepared synthesize_commit resolve_prepared_as_conflict_with
  settle p no_op = do abort_prepared ops now p.operation_id; pure (dropped p.operation_id)
  settle p committed = do synthesize_commit p; pure (synthesized p.operation_id)
  settle p (RecoveryOutcome.conflict reason) = do
    resolve_prepared_as_conflict_with p reason
    pure (RecoveryAction.conflict p.operation_id reason)

  module _ (fs : FileSystem) (sha256_hex : Bytes → String) (ws : Workspace) where
    -- One round of the first loop.
    unfoldable pub recover_prepared : PreparedRecord → Store RecoveryAction
    unfolding settle judge continued_from
    recover_prepared p s = elim (resolve fs ws p.path) [
      | err _ ↦
          (do
            resolve_prepared_as_conflict_with p "recovery conflict"
            pure (RecoveryAction.conflict p.operation_id "path no longer resolvable"))
            s
      | ok abs ↦ elim (hash_file sha256_hex fs abs) [
        | inr e ↦ (err (from_io e), s)
        | inl current ↦ settle p (judge (continued_from p s.records) p current) s
      ]
    ]

    unfoldable pub recover_prepareds : List PreparedRecord → Store (List RecoveryAction)
    unfolding recover_prepared
    recover_prepareds [] = pure []
    recover_prepareds (p ∷ ps) = do
      a ← recover_prepared p
      actions ← recover_prepareds ps
      pure (a ∷ actions)

  -- The policy for a stuck request with no committed record, by its kind.
  unfoldable pub unstick : String → Option String → Store RecoveryAction
  unfolding remember_error forget
  unstick id none = do
    remember_error reqs id (
        new ErrorCode.invalid_request
          "request was in progress at time of crash and request type is unknown; retry with a new request_id")
    pure (stuck_exec_marked_error id)
  unstick id (some op) =
      if str_eq op "exec"
      then (do
        remember_error reqs id (
            new ErrorCode.exec_failed
              "exec in progress at time of crash; retry with a new request_id")
        pure (stuck_exec_marked_error id))
      else (do forget id; pure (cleared_stuck id))

  unfoldable pub recover_stuck : String × Option String → Store RecoveryAction
  unfolding unstick remember find_committed_by_request_id
  recover_stuck (id, op) s = elim (find_committed_by_request_id s id) [
    | some r ↦ (do remember id r; pure (synthesized (operation_id r))) s
    | none ↦ unstick id op s
  ]

  unfoldable pub recover_all_stuck : List (String × Option String) → Store (List RecoveryAction)
  unfolding recover_stuck
  recover_all_stuck [] = pure []
  recover_all_stuck (x ∷ xs) = do
    a ← recover_stuck x
    actions ← recover_all_stuck xs
    pure (a ∷ actions)

  -- The second loop, over the requests that the first one left.
  abbrev recover_requests : Store (List RecoveryAction)
  recover_requests s = recover_all_stuck (stuck s.requests) s

  module _ (fs : FileSystem) (sha256_hex : Bytes → String) (ws : Workspace) where
    -- `recover`, the newest marker first.
    unfoldable pub recover : Store (List RecoveryAction)
    unfolding recover_prepareds recover_all_stuck stuck prepareds
    recover s =
        (do
          a ← recover_prepareds fs sha256_hex ws (reverse (prepareds s.records))
          b ← recover_requests
          pure (a ++ b))
          s
