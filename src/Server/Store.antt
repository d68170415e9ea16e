-- ===== src/Server/Store.antt =====
-- crates/remote-workspace-server/src/store.rs, `OperationStore`: its state, and the appends that keep
-- a log and its in-memory table together. The children hold its operations. The locks
-- (`log_append`, the tables' mutexes) make each operation here one step, so none is in the state;
-- what the system calls of the coming appends answer is (`weather`), and all is well once it is
-- used up. One reading of the clock serves a whole operation.
pub mod Requests
pub mod Records
pub mod Prune
pub mod Load
pub mod Table
pub mod Once
pub mod Durable
pub mod Retention
pub mod Fresh
pub mod Recovery
use remote_workspace.Prelude.{
  ℕ, ◌+◌, ◌%◌, String, Bytes, Bool, true, false, not, ◌&&◌, Option, none, some, List, [], ◌∷◌, ◌++◌,
  inl, inr, str_eq, ◌<>◌, if◌then◌else◌,
}
use remote_workspace.Prelude.Decimal.{show, u64_mod}
use remote_workspace.Protocol.Error.{ProtocolError, new, io_error, Result, ok, err}
use remote_workspace.Protocol.Messages.{RequestStatus}
use remote_workspace.Protocol.Record.{AnyOperationRecord, operation_id, ServerMessage}
use remote_workspace.Server.Log.{
  Codec, AppendIo, calm, AppendFailure, incomplete, unsynced, failure_error, Appended, append_line,
}

pub data StoredResult : Type 0 where
  done : ServerMessage → StoredResult
  error : ProtocolError → StoredResult

pub record RequestEntry : Type 0 where
  pub status : RequestStatus
  pub result : Option StoredResult
  pub op : Option String

pub record RequestLogLine : Type 0 where
  pub request_id : String
  pub status : RequestStatus
  pub result_done : Option ServerMessage
  pub result_error : Option ProtocolError
  pub op : Option String

-- `HashMap<String, RequestEntry>`
abbrev pub Requests : Type 0
Requests = List (String × RequestEntry)

unfoldable pub get : String → Requests → Option RequestEntry
get k [] = none
get k ((j, e) ∷ m) = if str_eq j k then some e else get k m

unfoldable pub insert : String → RequestEntry → Requests → Requests
insert k e [] = (k, e) ∷ []
insert k e ((j, d) ∷ m) = if str_eq j k then (k, e) ∷ m else (j, d) ∷ insert k e m

unfoldable pub remove : String → Requests → Requests
remove k [] = []
remove k ((j, d) ∷ m) = let rest = remove k m in if str_eq j k then rest else (j, d) ∷ rest

pub record OperationStore : Type 0 where
  pub operations_file : Bytes
  pub requests_file : Bytes
  pub counter_file : Option String
  pub next_id : ℕ
  pub records : List AnyOperationRecord
  pub requests : Requests
  pub log_torn : Bool
  pub weather : List AppendIo

abbrev pub Store : Type 0 → Type 0
Store A = OperationStore → Result A × OperationStore

infixl 5 ◌>>=◌ ◌>>◌
abbrev pub ◌>>=◌ : {A B : Type 0} → Store A → (A → Store B) → Store B
◌>>=◌ m f s = elim (m s).0 [ ok a ↦ f a (m s).1 | err e ↦ (err e, (m s).1) ]

abbrev pub ◌>>◌ : {A B : Type 0} → Store A → Store B → Store B
m >> k = m >>= λ _. k

abbrev pub pure : {A : Type 0} → A → Store A
pure a s = (ok a, s)

abbrev pub fail : {A : Type 0} → ProtocolError → Store A
fail e s = (err e, s)

abbrev pub next_io : List AppendIo → AppendIo
next_io [] = calm
next_io (io ∷ rest) = io

abbrev pub later_io : List AppendIo → List AppendIo
later_io [] = []
later_io (io ∷ rest) = rest

-- `next_operation_id`. The counter is a `u64`.
unfoldable pub next_operation_id : OperationStore → String × OperationStore
next_operation_id s =
    ("op-" <> show ((s.next_id + 1) % u64_mod), record s { next_id = (s.next_id + 1) % u64_mod })

-- An append that was made, as it changes the store: the outcome and the store.
abbrev after_operations : Appended → OperationStore → OperationStore
after_operations a s = record s {
  operations_file = a.file;
  log_torn = a.torn;
  weather = later_io s.weather;
}

abbrev after_requests : Appended → OperationStore → OperationStore
after_requests a s = record s {
  requests_file = a.file;
  log_torn = a.torn;
  weather = later_io s.weather;
}

module _ (json : Codec AnyOperationRecord) where
  -- `append_record_locked`: `none` is success.
  unfoldable pub append_record_locked :
      AnyOperationRecord → OperationStore → Option AppendFailure × OperationStore
  append_record_locked r s = elim (json.to_string r) [
    | inr e ↦ (some (incomplete (new io_error ("failed to serialize operation record: " <> e))), s)
    | inl serialized ↦
        let a = append_line s.log_torn s.operations_file serialized "op log" (next_io s.weather) in
        (a.failure, after_operations a s)
  ]

  -- `append_record_tracked`: the table changes only when the append succeeded.
  unfoldable pub append_record_tracked :
      AnyOperationRecord → (List AnyOperationRecord → List AnyOperationRecord) → Store (Unit {0})
  unfolding append_record_locked
  append_record_tracked r apply s =
      let (failure, s') = append_record_locked r s in
      elim failure [
        | some f ↦ (err (failure_error f), s')
        | none ↦ (ok tt, record s' { records = apply s'.records })
      ]

module _ (json : Codec RequestLogLine) where
  unfoldable pub append_request_line : RequestLogLine → Store (Unit {0})
  append_request_line l s = elim (json.to_string l) [
    | inr e ↦ (err (new io_error ("failed to serialize request log: " <> e)), s)
    | inl serialized ↦
        let a =
          append_line s.log_torn s.requests_file serialized "request log" (next_io s.weather) in
        elim a.failure [
          | some f ↦ (err (failure_error f), after_requests a s)
          | none ↦ (ok tt, after_requests a s)
        ]
  ]

  unfoldable pub append_request_tracked : RequestLogLine → (Requests → Requests) → Store (Unit {0})
  unfolding append_request_line
  append_request_tracked l apply s =
      let (r, s') = append_request_line l s in
      elim r [ err e ↦ (err e, s') | ok _ ↦ (ok tt, record s' { requests = apply s'.requests }) ]
