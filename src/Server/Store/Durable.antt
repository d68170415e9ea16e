-- ===== src/Server/Store/Durable.antt =====
-- The request log and the request table (Server/Store.antt, Server/Store/Load.antt), across a
-- restart.
use remote_workspace.Prelude.{
  String, Bytes, ◌≡◌, refl, sym, ap, subst, ◌∙◌, Option, none, some, List, [], ◌∷◌, ◌++◌, inl, inr,
  arith, str_eq, if◌then◌else◌, Option-cases,
}
use remote_workspace.Protocol.Error.{ok}
use remote_workspace.Protocol.Record.{AnyOperationRecord}
use remote_workspace.Server.Log.{Codec, AppendIo}
use remote_workspace.Server.Log.Json.{IsJson}
use remote_workspace.Server.Log.Crash.{text, log_of, log_of-append, load_log-log_of}
use remote_workspace.Server.Log.Append.{append_line-success}
use remote_workspace.Server.Store.{
  RequestEntry, RequestLogLine, Requests, OperationStore, get, insert, next_io, append_request_line,
  append_request_tracked,
}
use remote_workspace.Server.Store.Requests.{
  claimed, finished, failed, claim_line, result_line, error_line, claim_request, remember_result,
  remember_error,
}
use remote_workspace.Server.Store.Load.{entry_of, replay, start}
use remote_workspace.Server.Store.Table.{get-insert}
use remote_workspace.Server.Store.Once.{
  Call, claim, result, error, call, calls, requests-append_request_line, prune,
}

replay-append :
    (m : Requests) (ls : List RequestLogLine) (l : RequestLogLine)
    → replay m (ls ++ l ∷ []) ≡ insert l.request_id (entry_of l) (replay m ls)
unfolding replay
replay-append m [] l = refl
replay-append m (x ∷ ls) l = replay-append (insert x.request_id (entry_of x) m) ls l

module _ (json : Codec RequestLogLine) (laws : IsJson json) where
  -- The log is written line by line, and read back it gives the table.
  abbrev pub IsReplayed : OperationStore → Type 0
  IsReplayed s =
      (ls : List RequestLogLine) × (s.requests_file ≡ log_of json laws ls)
      × ((k : String) → get k s.requests ≡ get k (replay [] ls))

  file-append_request_line :
      (l : RequestLogLine) (s : OperationStore)
      → (append_request_line json l s).0 ≡ ok tt
      → (append_request_line json l s).1.requests_file
        ≡ s.requests_file ++ (text json laws l ++ b'\n' ∷ [])
  unfolding append_request_line
  file-append_request_line l s h = ground (
    arith,
    laws.to_string_object l,
    append_line-success s.log_torn s.requests_file (text json laws l) "request log"
        (next_io s.weather),
  )

  -- A table that hears of a line exactly when it was appended stays the replay of the log.
  insert-IsReplayed :
      (l : RequestLogLine) (s t : OperationStore)
      → IsReplayed s
      → t.requests_file ≡ s.requests_file ++ (text json laws l ++ b'\n' ∷ [])
      → t.requests ≡ insert l.request_id (entry_of l) s.requests
      → IsReplayed t
  insert-IsReplayed l s t (ls, file, table) file' table' = (
    ls ++ l ∷ [],
    file'
        ∙ ap (λ f. f ++ (text json laws l ++ b'\n' ∷ [])) file
        ∙ sym (log_of-append json laws ls l),
    λ k.
        ap (get k) table'
        ∙ get-insert l.request_id k (entry_of l) s.requests
        ∙ ap (λ o. if str_eq l.request_id k then some (entry_of l) else o) (table k)
        ∙ sym (get-insert l.request_id k (entry_of l) (replay [] ls))
        ∙ ap (get k) (sym (replay-append [] ls l)),
  )

  append_request_tracked-success :
      (l : RequestLogLine) (apply : Requests → Requests) (s : OperationStore)
      → (append_request_tracked json l apply s).0 ≡ ok tt
      → ((append_request_tracked json l apply s).1.requests_file
          ≡ s.requests_file ++ (text json laws l ++ b'\n' ∷ []))
        × ((append_request_tracked json l apply s).1.requests ≡ apply s.requests)
  unfolding append_request_tracked
  append_request_tracked-success l apply s h =
      ground (arith, file-append_request_line l s, requests-append_request_line json l s)

  tracked-IsReplayed :
      (l : RequestLogLine) (e : RequestEntry) (s : OperationStore)
      → entry_of l ≡ e
      → IsReplayed s
      → (append_request_tracked json l (insert l.request_id e) s).0 ≡ ok tt
      → IsReplayed (append_request_tracked json l (insert l.request_id e) s).1
  tracked-IsReplayed l e s same h done =
      let (file, table) = append_request_tracked-success l (insert l.request_id e) s done in
      insert-IsReplayed l s (append_request_tracked json l (insert l.request_id e) s).1 h file
        (table ∙ ap (λ d. insert l.request_id d s.requests) (sym same))

  -- A call that reports success, and that is no prune.
  abbrev pub Succeeds : Call → OperationStore → Type 0
  Succeeds (claim id op) s = (o : Option RequestEntry) × ((claim_request json id op s).0 ≡ ok o)
  Succeeds (result id msg) s = (remember_result json id msg s).0 ≡ ok tt
  Succeeds (error id e) s = (remember_error json id e s).0 ≡ ok tt
  Succeeds (prune keep io) s = ⊥

  claim_request-fresh :
      (id op : String) (o : Option RequestEntry) (s : OperationStore)
      → get id s.requests ≡ none
      → (claim_request json id op s).0 ≡ ok o
      → ((claim_request json id op s).1.requests_file
          ≡ s.requests_file ++ (text json laws (claim_line id op) ++ b'\n' ∷ []))
        × ((claim_request json id op s).1.requests ≡ insert id (claimed op) s.requests)
  unfolding claim_request
  claim_request-fresh id op o s absent h = ground (
    arith,
    file-append_request_line (claim_line id op) s,
    requests-append_request_line json (claim_line id op) s,
  )

  claim_request-seen :
      (id op : String) (e : RequestEntry) (s : OperationStore)
      → get id s.requests ≡ some e
      → (claim_request json id op s).1 ≡ s
  unfolding claim_request
  claim_request-seen id op e s found = rw (found, claim_request) refl

  claim-IsReplayed :
      (id op : String) (o : Option RequestEntry) (s : OperationStore)
      → IsReplayed s
      → (claim_request json id op s).0 ≡ ok o
      → IsReplayed (claim_request json id op s).1
  claim-IsReplayed id op o s h done = elim (Option-cases (get id s.requests)) [
    | inl absent ↦
        let (file, table) = claim_request-fresh id op o s absent done in
        insert-IsReplayed (claim_line id op) s (claim_request json id op s).1 h file table
    | inr (e, found) ↦ subst IsReplayed (sym (claim_request-seen id op e s found)) h
  ]

  module _ (ops : Codec AnyOperationRecord) where
    call-IsReplayed :
        (c : Call) (s : OperationStore)
        → IsReplayed s
        → Succeeds c s
        → IsReplayed (call ops json c s)
    unfolding remember_result remember_error
    call-IsReplayed (claim id op) s h (o, done) = claim-IsReplayed id op o s h done
    call-IsReplayed (result id msg) s h done =
        tracked-IsReplayed (result_line id msg) (finished msg) s refl h done
    call-IsReplayed (error id e) s h done =
        tracked-IsReplayed (error_line id e) (failed e) s refl h done
    call-IsReplayed (prune keep io) s h done = absurd done

    -- Every call of a run does.
    abbrev pub AllSucceed : List Call → OperationStore → Type 0
    AllSucceed [] s = Unit
    AllSucceed (c ∷ cs) s = Succeeds c s × AllSucceed cs (call ops json c s)

    calls-IsReplayed :
        (cs : List Call) (s : OperationStore)
        → IsReplayed s
        → AllSucceed cs s
        → IsReplayed (calls ops json cs s)
    calls-IsReplayed [] s h done = h
    calls-IsReplayed (c ∷ cs) s h done =
        calls-IsReplayed cs (call ops json c s) (call-IsReplayed c s h done.0) done.1

    requests-start :
        (counter : Option String) (o : Bytes) (weather : List AppendIo) (ls : List RequestLogLine)
        (t : OperationStore)
        → start ops json counter o (log_of json laws ls) weather ≡ ok t
        → t.requests ≡ replay [] ls
    unfolding start
    requests-start counter o weather ls t h = ground (arith, load_log-log_of json laws ls)

    -- From a store whose request log replays to its table, after any such calls, a
    -- start from the files gives each request id the entry that the running server has.
    pub start-lookup :
        (s : OperationStore) (cs : List Call) (t : OperationStore) (k : String)
        → IsReplayed s
        → AllSucceed cs s
        → let u = calls ops json cs s in
          start ops json u.counter_file u.operations_file u.requests_file [] ≡ ok t
          → get k t.requests ≡ get k u.requests
    start-lookup s cs t k h done started =
        let u = calls ops json cs s in
        let (ls, file, table) = calls-IsReplayed cs s h done in
        let started' =
          subst (λ f. start ops json u.counter_file u.operations_file f [] ≡ ok t) file started in
        ap (get k) (requests-start u.counter_file u.operations_file [] ls t started')
        ∙ sym (table k)
