-- ===== src/Server/Store/Recovery/Unstuck.antt =====
-- The requests that are in progress when a server starts (Server/Store/Recovery.antt).
use remote_workspace.Prelude.{
  if◌then◌else◌, ◌∙◌, ◌++◌, ℕ, String, Bytes, ◌≡◌, ◌≢◌, refl, sym, subst, Bool, true, false, not,
  ◌&&◌, Option, none, some, List, [], ◌∷◌, arith, str_eq, eq_iff, Bool-cases, inl, inr,
}
use remote_workspace.Protocol.Error.{ProtocolError, ErrorCode, new, Result, ok, err}
use remote_workspace.Protocol.Record.{operation_id, AnyOperationRecord, ServerMessage}
use remote_workspace.Server.Log.{Codec}
use remote_workspace.Server.Store.{
  RequestEntry, RequestLogLine, Requests, OperationStore, Store, ◌>>=◌, ◌>>◌, pure, get, insert,
  remove, append_request_tracked,
}
use remote_workspace.Server.Store.Requests.{
  finished, failed, result_line, error_line, remember_result, remember_error,
}
use remote_workspace.Server.Store.Records.{
  find, committed_for, find_committed_by_request_id, reconstruct_result,
}
use remote_workspace.Server.Store.Prune.{is_in_progress}
use remote_workspace.Server.Store.Table.{get-insert, get-remove}
use remote_workspace.Server.Store.Once.{requests-append_request_line}
use remote_workspace.Server.Store.Recovery.{
  RecoveryAction, stuck_exec_marked_error, cleared_stuck, synthesized, has_result, stuck, forget,
  remember, unstick, recover_stuck, recover_all_stuck, recover, recover_prepareds, recover_requests,
  prepareds,
}
use remote_workspace.Server.Workspace.{FileSystem, Workspace}
use mathlib.Core.List.{reverse}

-- A request that is in progress and has no result.
unfoldable pub is_stuck : RequestEntry → Bool
is_stuck e = is_in_progress e.status && not (has_result e)

unfoldable pub listed : String → List (String × Option String) → Bool
listed k [] = false
listed k ((id, op) ∷ xs) = let rest = listed k xs in if str_eq id k then true else rest

stuck-listed :
    (k : String) (m : Requests) (e : RequestEntry)
    → get k m ≡ some e
    → is_stuck e ≡ true
    → listed k (stuck m) ≡ true
unfolding stuck is_stuck get listed
stuck-listed k [] e h l = cc
stuck-listed k ((id, d) ∷ m) e h l = ground (arith, eq_iff id k, stuck-listed k m e)

-- A step that settles the entry of `id` and leaves the other ones.
abbrev Clears : String → Requests → Requests → Type 0
Clears id m m' =
    (j : String) (e : RequestEntry)
    → get j m' ≡ some e
    → is_stuck e ≡ true
    → (str_eq id j ≡ false) × (get j m ≡ some e)

insert-Clears :
    (id : String) (x : RequestEntry) (m m' : Requests)
    → is_stuck x ≡ false
    → m' ≡ insert id x m
    → Clears id m m'
insert-Clears id x m m' l h j e found l' = ground (arith, get-insert id j x m)

remove-Clears : (id : String) (m m' : Requests) → m' ≡ remove id m → Clears id m m'
remove-Clears id m m' h j e found l = ground (arith, get-remove id j m)

find-committed :
    (id : String) (rs : List AnyOperationRecord) (r : AnyOperationRecord)
    → find (committed_for id) rs ≡ some r
    → reconstruct_result r ≢ none
unfolding find reconstruct_result
find-committed id [] r h = ground arith
find-committed id (x ∷ rs) r h = ground (arith, find-committed id rs r)

pub then_pure :
    {A : Type 0} (m : Store (Unit {0})) (a b : A) (s : OperationStore)
    → ((m >> pure a) s).0 ≡ ok b
    → ((m s).0 ≡ ok tt) × (((m >> pure a) s).1 ≡ (m s).1)
then_pure m a b s h = ground arith

true_ne_false : true ≢ false
true_ne_false h = cc

err_ne_ok : {B : Type 0} (x : ProtocolError) (b : B) → err x ≢ ok b
err_ne_ok x b h = cc

-- A chain that reports success, taken apart.
pub bind-ok :
    {A B : Type 0} (m : Store A) (f : A → Store B) (b : B) (s : OperationStore)
    → ((m >>= f) s).0 ≡ ok b
    → (a : A) × ((m s).0 ≡ ok a) × ((f a (m s).1).0 ≡ ok b) × (((m >>= f) s).1 ≡ (f a (m s).1).1)
bind-ok {A = A} {B = B} m f b s h = go (m s).0 refl
  where
    go :
        (r : Result A)
        → (m s).0 ≡ r
        → (a : A) × ((m s).0 ≡ ok a)
          × ((f a (m s).1).0 ≡ ok b)
          × (((m >>= f) s).1 ≡ (f a (m s).1).1)
    go (ok a) e = (a, e, rw (e, ◌>>=◌) at h, rw (e, ◌>>=◌) refl)
    go (err x) e = let same : err x ≡ ok b = rw (e, ◌>>=◌) at h in absurd (err_ne_ok x b same)

module _ (reqs : Codec RequestLogLine) where
  requests-tracked :
      (l : RequestLogLine) (apply : Requests → Requests) (s : OperationStore)
      → (append_request_tracked reqs l apply s).0 ≡ ok tt
      → (append_request_tracked reqs l apply s).1.requests ≡ apply s.requests
  unfolding append_request_tracked
  requests-tracked l apply s h = ground (arith, requests-append_request_line reqs l s)

  pub requests-remember_result :
      (id : String) (msg : ServerMessage) (s : OperationStore)
      → (remember_result reqs id msg s).0 ≡ ok tt
      → (remember_result reqs id msg s).1.requests ≡ insert id (finished msg) s.requests
  unfolding remember_result
  requests-remember_result id msg s h =
      requests-tracked (result_line id msg) (insert id (finished msg)) s h

  pub requests-remember_error :
      (id : String) (e : ProtocolError) (s : OperationStore)
      → (remember_error reqs id e s).0 ≡ ok tt
      → (remember_error reqs id e s).1.requests ≡ insert id (failed e) s.requests
  unfolding remember_error
  requests-remember_error id e s h = requests-tracked (error_line id e) (insert id (failed e)) s h

  remember_result-Clears :
      (id : String) (msg : ServerMessage) (s : OperationStore)
      → (remember_result reqs id msg s).0 ≡ ok tt
      → Clears id s.requests (remember_result reqs id msg s).1.requests
  unfolding is_stuck
  remember_result-Clears id msg s h =
      insert-Clears id (finished msg) s.requests (remember_result reqs id msg s).1.requests refl
        (requests-remember_result id msg s h)

  remember_error-Clears :
      (id : String) (e : ProtocolError) (s : OperationStore)
      → (remember_error reqs id e s).0 ≡ ok tt
      → Clears id s.requests (remember_error reqs id e s).1.requests
  unfolding is_stuck
  remember_error-Clears id e s h =
      insert-Clears id (failed e) s.requests (remember_error reqs id e s).1.requests refl
        (requests-remember_error id e s h)

  -- The same, once the step has returned its action.
  error_then-Clears :
      {A : Type 0} (id : String) (e : ProtocolError) (a b : A) (s : OperationStore)
      → ((remember_error reqs id e >> pure a) s).0 ≡ ok b
      → Clears id s.requests ((remember_error reqs id e >> pure a) s).1.requests
  error_then-Clears id e a b s h =
      let (done, same) = then_pure (remember_error reqs id e) a b s h in
      subst (λ t. Clears id s.requests t.requests) (sym same) (remember_error-Clears id e s done)

  -- What an action does to the entry of `id` when it reports success.
  abbrev Settles : {A : Type 0} → String → Store A → Type 0
  Settles {A = A} id m =
      (a : A) (s : OperationStore) → (m s).0 ≡ ok a → Clears id s.requests (m s).1.requests

  module _ (ops : Codec AnyOperationRecord) (now : ℕ) where
    reconstructed-Settles :
        (id : String) (o : Option ServerMessage)
        → o ≢ none
        → Settles id (elim o [ some msg ↦ remember_result reqs id msg | none ↦ pure tt ])
    reconstructed-Settles id none ne = absurd (ne refl)
    reconstructed-Settles id (some msg) ne = λ a s h. remember_result-Clears id msg s h

    remember-Settles :
        (id : String) (r : AnyOperationRecord)
        → reconstruct_result r ≢ none
        → Settles id (remember ops reqs now id r)
    unfolding remember
    remember-Settles id r ne = reconstructed-Settles id (reconstruct_result r) ne

    forget_then-Settles : {A : Type 0} (id : String) (a : A) → Settles id (forget id >> pure a)
    unfolding forget
    forget_then-Settles id a b s h = remove-Clears id s.requests (remove id s.requests) refl

    abbrev exec_error : String → Store RecoveryAction
    exec_error id =
        remember_error reqs id (
          new ErrorCode.exec_failed
            "exec in progress at time of crash; retry with a new request_id")
        >> pure (stuck_exec_marked_error id)

    unstick-Settles : (id : String) (op : Option String) → Settles id (unstick ops reqs now id op)
    unfolding unstick
    unstick-Settles id none = λ a s h. error_then-Clears id _ _ a s h
    unstick-Settles id (some op) =
        elim (str_eq op "exec")
          as (λ b.
            Settles id (if b then (exec_error id) else (forget id >> pure (cleared_stuck id)))) [
              | true ↦ λ a s h. error_then-Clears id _ _ a s h
              | false ↦ forget_then-Settles id (cleared_stuck id)
            ]

    recover_stuck-Clears :
        (id : String) (op : Option String) (a : RecoveryAction) (s : OperationStore)
        → (recover_stuck ops reqs now (id, op) s).0 ≡ ok a
        → Clears id s.requests (recover_stuck ops reqs now (id, op) s).1.requests
    unfolding recover_stuck find_committed_by_request_id
    recover_stuck-Clears id op a s h = go (find_committed_by_request_id s id) refl h
      where
        step : Option AnyOperationRecord → Result RecoveryAction × OperationStore
        step (some r) = (remember ops reqs now id r >> pure (synthesized (operation_id r))) s
        step none = unstick ops reqs now id op s

        go :
            (o : Option AnyOperationRecord)
            → find_committed_by_request_id s id ≡ o
            → (step o).0 ≡ ok a
            → Clears id s.requests (step o).1.requests
        go none e h = unstick-Settles id op a s h
        go (some r) e h =
            let (done, same) =
              then_pure (remember ops reqs now id r) (synthesized (operation_id r)) a s h in
            subst (λ t. Clears id s.requests t.requests) (sym same)
              (remember-Settles id r (find-committed id s.records r e) tt s done)

    recover_all_stuck-Clears :
        (xs : List (String × Option String)) (acts : List RecoveryAction) (s : OperationStore)
        → (recover_all_stuck ops reqs now xs s).0 ≡ ok acts
        → (j : String) (e : RequestEntry)
        → get j (recover_all_stuck ops reqs now xs s).1.requests ≡ some e
        → is_stuck e ≡ true
        → (listed j xs ≡ false) × (get j s.requests ≡ some e)
    unfolding recover_all_stuck listed
    recover_all_stuck-Clears [] acts s h j e found l = (refl, found)
    recover_all_stuck-Clears ((id, op) ∷ xs) acts s h j e found l =
        let (a, first, rest, same) =
          bind-ok (recover_stuck ops reqs now (id, op))
            (λ a. recover_all_stuck ops reqs now xs >>= λ actions. pure (a ∷ actions)) acts s h in
        let t = (recover_stuck ops reqs now (id, op) s).1 in
        let (actions, later, _, same') =
          bind-ok (recover_all_stuck ops reqs now xs) (λ actions. pure (a ∷ actions)) acts t rest in
        let found' = subst (λ u. get j u.requests ≡ some e) (same ∙ same') found in
        let (unlisted, before) = recover_all_stuck-Clears xs actions t later j e found' l in
        let (other, known) = recover_stuck-Clears id op a s first j e before l in
        (rw other unlisted, known)

    not_stuck :
        (k : String) (e : RequestEntry) (t : OperationStore) (b : List RecoveryAction)
        → (recover_all_stuck ops reqs now (stuck t.requests) t).0 ≡ ok b
        → get k (recover_all_stuck ops reqs now (stuck t.requests) t).1.requests ≡ some e
        → is_stuck e ≡ false
    not_stuck k e t b h found = elim (Bool-cases (is_stuck e)) [
      | inr done ↦ done
      | inl l ↦
          let (unlisted, known) = recover_all_stuck-Clears (stuck t.requests) b t h k e found l in
          absurd (true_ne_false (sym (stuck-listed k t.requests e known l) ∙ unlisted))
    ]

    -- After a recovery that succeeds no request is in progress without a result.
    pub recover-settled :
        (fs : FileSystem) (sha256_hex : Bytes → String) (ws : Workspace) (s : OperationStore)
        (actions : List RecoveryAction)
        → (recover ops reqs now fs sha256_hex ws s).0 ≡ ok actions
        → (k : String) (e : RequestEntry)
        → get k (recover ops reqs now fs sha256_hex ws s).1.requests ≡ some e
        → is_stuck e ≡ false
    unfolding recover
    recover-settled fs sha256_hex ws s actions h k e found =
        let first =
          recover_prepareds ops reqs now fs sha256_hex ws (reverse (prepareds s.records)) in
        let (a, _, rest, same) =
          bind-ok first (λ a. recover_requests ops reqs now >>= λ b. pure (a ++ b)) actions s h in
        let t = (first s).1 in
        let (b, later, _, same') =
          bind-ok (recover_requests ops reqs now) (λ b. pure (a ++ b)) actions t rest in
        not_stuck k e t b later (subst (λ u. get k u.requests ≡ some e) (same ∙ same') found)
