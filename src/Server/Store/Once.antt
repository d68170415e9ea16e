-- ===== src/Server/Store/Once.antt =====
-- The claims of a request id (Server/Store/Requests.antt), with the calls that come between.
use remote_workspace.Prelude.{
  ℕ, String, true, ◌≡◌, ◌≢◌, none, some, List, [], ◌∷◌, arith, str_eq, if◌then◌else◌,
}
use remote_workspace.Protocol.Error.{ProtocolError}
use remote_workspace.Protocol.Record.{AnyOperationRecord, ServerMessage}
use remote_workspace.Server.Log.{Codec}
use remote_workspace.Server.Store.{
  RequestEntry, RequestLogLine, Requests, OperationStore, get, append_request_line,
}
use remote_workspace.Server.Store.Requests.{claim_request, remember_result, remember_error}
use remote_workspace.Server.Store.Prune as Prune
use remote_workspace.Server.Store.Prune.{PruneIo, is_in_progress}

-- What handlers do to the table, in the order in which the lock lets them.
pub data Call : Type 0 where
  claim : (request_id op : String) → Call
  result : (request_id : String) → ServerMessage → Call
  error : (request_id : String) → ProtocolError → Call
  prune : (keep : ℕ) → PruneIo → Call

abbrev pub NoPrune : List Call → Type 0
NoPrune [] = Unit {0}
NoPrune (prune keep io ∷ cs) = ⊥
NoPrune (_ ∷ cs) = NoPrune cs

-- No prune comes after an answer to the request.
abbrev pub NoPruneAfter : String → List Call → Type 0
NoPruneAfter id [] = Unit {0}
NoPruneAfter id (result j msg ∷ cs) = if str_eq j id then NoPrune cs else NoPruneAfter id cs
NoPruneAfter id (error j e ∷ cs) = if str_eq j id then NoPrune cs else NoPruneAfter id cs
NoPruneAfter id (_ ∷ cs) = NoPruneAfter id cs

module _ (json : Codec RequestLogLine) where
  pub requests-append_request_line :
      (l : RequestLogLine) (s : OperationStore)
      → (append_request_line json l s).1.requests ≡ s.requests
  unfolding append_request_line
  requests-append_request_line l s = ground arith

module _ (ops : Codec AnyOperationRecord) (json : Codec RequestLogLine) where
  abbrev pub call : Call → OperationStore → OperationStore
  call (claim id op) s = (claim_request json id op s).1
  call (result id msg) s = (remember_result json id msg s).1
  call (error id e) s = (remember_error json id e s).1
  call (prune keep io) s = (Prune.prune ops json keep io s).1

  abbrev pub calls : List Call → OperationStore → OperationStore
  calls [] s = s
  calls (c ∷ cs) s = calls cs (call c s)

  abbrev IsKnown : String → OperationStore → Type 0
  IsKnown id s = get id s.requests ≢ none

  -- The request is in flight, which a prune respects.
  record InFlight (id : String) (s : OperationStore) : Type 0 where
    entry : RequestEntry
    found : get id s.requests ≡ some entry
    running : is_in_progress entry.status ≡ true
