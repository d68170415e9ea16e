-- ===== src/Server/Dispatch/Handle/Replay.antt =====
-- server.rs, `handle`: a request that is sent again.
use remote_workspace.Prelude.{
  String, Bytes, ◌≡◌, ◌∙◌, refl, ap, sym, subst, Option, none, some, arith,
}
use remote_workspace.Protocol.Error.{Result, ok, err}
use remote_workspace.Protocol.Messages.{RequestId, RequestBody, Request}
use remote_workspace.Protocol.Record.{AnyOperationRecord, ResultBody, ServerMessage}
use remote_workspace.Server.Log.{Codec}
use remote_workspace.Server.Store.{StoredResult, RequestEntry, RequestLogLine, OperationStore, get}
use remote_workspace.Server.Store.Requests.{claim_request}
use remote_workspace.Server.Workspace.{AbsPath}
use remote_workspace.Server.Transfer.Site.{Site, Task}
use remote_workspace.Server.Dispatch.Reply.{op_kind_str, replayed, finish}
use remote_workspace.Server.Dispatch.Handle.{
  Server, Answers, Handler, Route, waits, unpersisted, mutates, execs, locked, route, after_claim,
  after_claiming, follow_route, handle,
}
use remote_workspace.Server.Dispatch.Handle.Table.{
  IsResult, Remembers, finish-Remembers, Replies, handle_exec-Replies,
}

-- The requests that change the workspace or the records.
abbrev pub IsRecorded : RequestBody → Type 0
IsRecorded (RequestBody.create _ _) = Unit {0}
IsRecorded (RequestBody.edit _ _ _) = Unit {0}
IsRecorded (RequestBody.delete _) = Unit {0}
IsRecorded (RequestBody.exec _ _ _ _) = Unit {0}
IsRecorded (RequestBody.upload_commit _ _ _ _) = Unit {0}
IsRecorded (RequestBody.download_record _ _ _ _) = Unit {0}
IsRecorded (RequestBody.gc _) = Unit {0}
IsRecorded _ = ⊥

module _ (ops : Codec AnyOperationRecord) (reqs : Codec RequestLogLine) (decode : Bytes → Bytes)
    (sha256_hex : Bytes → String) (display : AbsPath → String) (server : Server) where
  locked-Replies :
      (meanwhile : Site → Site) (id : RequestId) (task : Task ResultBody) (w : Site)
      → Replies id (locked ops reqs decode sha256_hex display server meanwhile id task w)
  unfolding Replies
  locked-Replies meanwhile id task w msg e i =
      let r = task (meanwhile w) in
      let reply = finish reqs id r.0 r.1.store in
      let same : reply.0 ≡ msg = cc in
      subst (λ m. Remembers id m reply.1) same
        (finish-Remembers reqs id r.0 r.1.store (subst IsResult (sym same) i))

  abbrev IsClaimed : Route → Type 0
  IsClaimed (mutates task) = Unit {0}
  IsClaimed (execs asked outcome) = Unit {0}
  IsClaimed _ = ⊥

  recorded-IsClaimed :
      (a : Answers) (id : RequestId) (body : RequestBody)
      → IsRecorded body
      → IsClaimed (route ops reqs decode sha256_hex display server a id body)
  unfolding route
  recorded-IsClaimed a id (RequestBody.create _ _) h = h
  recorded-IsClaimed a id (RequestBody.edit _ _ _) h = h
  recorded-IsClaimed a id _ h = h

  replayed-done :
      (id : RequestId) (r : Option StoredResult) (msg : ServerMessage)
      → replayed id r ≡ msg
      → IsResult msg
      → r ≡ some (StoredResult.done msg)
  replayed-done id (some (StoredResult.done m)) msg h i = ap (λ x. some (StoredResult.done x)) h
  replayed-done id (some (StoredResult.error e)) msg h i = absurd (subst IsResult (sym h) i)
  replayed-done id none msg h i = absurd (subst IsResult (sym h) i)

  -- The handler of a request that is claimed, or what the claim itself answers.
  after_claim-Remembers :
      (id : RequestId) (run : Handler) (w : Site)
      → ((w : Site) → Replies id (run w))
      → (c : Result (Option RequestEntry))
      → ((entry : RequestEntry) → c ≡ ok (some entry) → get id w.store.requests ≡ some entry)
      → Replies id (after_claim ops reqs decode sha256_hex display server id run c w)
  unfolding Replies
  after_claim-Remembers id run w replies (ok none) found msg h i = replies w msg h i
  after_claim-Remembers id run w replies (ok (some entry)) found msg h i =
      (entry, found entry refl, replayed-done id entry.result msg (cc) i)
  after_claim-Remembers id run w replies (err x) found msg h i =
      let same : ServerMessage.error id x ≡ msg = cc in absurd (subst IsResult (sym same) i)

  claim_request-found :
      (id op : String) (s : OperationStore) (entry : RequestEntry)
      → (claim_request reqs id op s).0 ≡ ok (some entry)
      → get id (claim_request reqs id op s).1.requests ≡ some entry
  unfolding claim_request
  claim_request-found id op s entry h = ground (arith, h)

  claim_request-known :
      (id op : String) (s : OperationStore) (entry : RequestEntry)
      → get id s.requests ≡ some entry
      → claim_request reqs id op s ≡ (ok (some entry), s)
  unfolding claim_request
  claim_request-known id op s entry h = rw (h, claim_request) refl

  after_claiming-Replies :
      (req : Request) (run : Handler) (w : Site)
      → ((w : Site) → Replies req.request_id (run w))
      → Replies req.request_id (after_claiming ops reqs decode sha256_hex display server req run w)
  after_claiming-Replies req run w replies =
      let (c, s) = claim_request reqs req.request_id (op_kind_str req.body) w.store in
      after_claim-Remembers req.request_id run (record w { store = s }) replies c
        (λ entry e. claim_request-found req.request_id (op_kind_str req.body) w.store entry e)

  after_claiming-known :
      (req : Request) (run : Handler) (w : Site) (msg : ServerMessage)
      → Remembers req.request_id msg w.store
      → after_claiming ops reqs decode sha256_hex display server req run w ≡ (some msg, w)
  after_claiming-known req run w msg (entry, there, done) =
      ap
        (λ (q : Result (Option RequestEntry) × OperationStore).
          after_claim ops reqs decode sha256_hex display server req.request_id run (q.0)
            (record w { store = q.1 }))
        (claim_request-known req.request_id (op_kind_str req.body) w.store entry there)
      ∙ ap (λ r. (some (replayed req.request_id r), w)) done

  follow_route-Replies :
      (a : Answers) (req : Request) (r : Route) (w : Site)
      → IsClaimed r
      → Replies req.request_id (follow_route ops reqs decode sha256_hex display server a req r w)
  follow_route-Replies a req (waits r) w h = absurd h
  follow_route-Replies a req (unpersisted task) w h = absurd h
  follow_route-Replies a req (mutates task) w h =
      after_claiming-Replies req _ w (λ w. locked-Replies a.meanwhile req.request_id task w)
  follow_route-Replies a req (execs asked outcome) w h =
      after_claiming-Replies req _ w
        (λ w. handle_exec-Replies ops reqs req.request_id a.now asked a.meanwhile (outcome w) w)

  follow_route-known :
      (a : Answers) (req : Request) (r : Route) (w : Site) (msg : ServerMessage)
      → IsClaimed r
      → Remembers req.request_id msg w.store
      → follow_route ops reqs decode sha256_hex display server a req r w ≡ (some msg, w)
  follow_route-known a req (waits r) w msg h k = absurd h
  follow_route-known a req (unpersisted task) w msg h k = absurd h
  follow_route-known a req (mutates task) w msg h k = after_claiming-known req _ w msg k
  follow_route-known a req (execs asked outcome) w msg h k = after_claiming-known req _ w msg k

  -- If a request that changes the workspace or the records is answered with a result, then a request
  -- of this sort that is sent under the same id to the server as it is then gets the same message, and
  -- changes nothing, whatever it asks and whatever the system answers.
  pub handle-again :
      (a a' : Answers) (req again : Request) (w w' : Site) (msg : ServerMessage)
      → IsRecorded req.body
      → IsRecorded again.body
      → again.request_id ≡ req.request_id
      → IsResult msg
      → handle ops reqs decode sha256_hex display server a req w ≡ (some msg, w')
      → handle ops reqs decode sha256_hex display server a' again w' ≡ (some msg, w')
  unfolding handle Replies
  handle-again a a' req again w w' msg h k same i e =
      let first = route ops reqs decode sha256_hex display server a req.request_id req.body in
      let known =
        follow_route-Replies a req first w (recorded-IsClaimed a req.request_id req.body h) msg
          (ap (λ (q : Option ServerMessage × Site). q.0) e) i in
      let kept =
        subst (λ (q : Option ServerMessage × Site). Remembers req.request_id msg (q.1).store) e
          known in
      follow_route-known a' again _ w' msg (recorded-IsClaimed a' again.request_id again.body k)
        (subst (λ id. Remembers id msg w'.store) (sym same) kept)
