-- ===== src/Server/Exec/Wait/Ends.antt =====
-- exec.rs, `wait`: how many checks a wait makes at most.
use remote_workspace.Prelude.{
  String, Bytes, ap, ℕ, zero, suc, ◌+◌, ◌-◌, ◌*◌, ◌/◌, ◌≤◌, ◌<◌, ◌≡◌, ◌≢◌, refl, Option, none, some,
  List, [], ◌∷◌, length, ◌==◌, arith, Bool-cases, inl, inr,
}
use remote_workspace.Protocol.Error.{Result, ok, err}
use remote_workspace.Protocol.Messages.{WaitResult, WaitOutcome}
use remote_workspace.Server.Workspace.{AbsPath, Workspace}
use remote_workspace.Server.Config.{ServerConfig}
use remote_workspace.Server.Exec.Run.{ExecOutcome, check_timeout, timeout_of}
use remote_workspace.Server.Exec.Wait.{
  Round, verdict, wait_loop, wait_rounds, waited, told, checked, wait_result, next_now,
  next_interval, Attempt, check_at, rounds_of, wait,
}

abbrev Some {ℓ} : {A : Type ℓ} → Option A → Type ℓ
Some {A = A} o = (a : A) × (o ≡ some a)

module _ (deadline : ℕ) where
  told-Some :
      (checks now : ℕ) (o : ExecOutcome) (v : Option WaitOutcome)
      (rest : Option (Result WaitResult))
      → (deadline - now ≢ 0 → Some rest)
      → Some (told deadline checks now o v rest)
  told-Some checks now o (some outcome) rest h = (_, refl)
  told-Some checks now o none rest h = elim (Bool-cases (deadline - now == 0)) [
    | inl up ↦ (ok (wait_result WaitOutcome.timed_out checks now o), rw up)
    | inr left ↦ let (r, e) = h (ground arith) in (r, rw left e)
  ]

  checked-Some :
      (checks now : ℕ) (c : Result ExecOutcome) (rest : Option (Result WaitResult))
      → (deadline - now ≢ 0 → Some rest)
      → Some (checked deadline checks now c rest)
  checked-Some checks now (err e) rest h = (_, refl)
  checked-Some checks now (ok o) rest h = told-Some checks now o (verdict o.termination) rest h

  -- A round that is not the last takes a second at least off the time that remains.
  wait_loop-Some :
      (n interval checks now : ℕ) (rounds : List Round)
      → 1000 ≤ interval
      → deadline - now ≤ n * 1000
      → n < length rounds
      → Some (wait_loop deadline interval checks now rounds)
  unfolding wait_loop
  wait_loop-Some n interval checks now [] h k l = elim l [ ]
  wait_loop-Some n interval checks now (r ∷ rounds) h k l =
      checked-Some (checks + 1) (now + r.took) r.check _ (λ left. later n k l left (λ m a b.
        wait_loop-Some m (next_interval deadline interval) (checks + 1)
          (next_now deadline interval now r) rounds (omega arith) a b))
    where
      later :
          (n : ℕ)
          → deadline - now ≤ n * 1000
          → n < suc (length rounds)
          → deadline - (now + r.took) ≢ 0
          → ((m : ℕ)
              → deadline - next_now deadline interval now r ≤ m * 1000
              → m < length rounds
              → Some (
                  wait_loop deadline
                    (next_interval deadline interval)
                    (checks + 1)
                    (next_now deadline interval now r)
                    rounds))
          → Some (
              wait_loop deadline
                (next_interval deadline interval)
                (checks + 1)
                (next_now deadline interval now r)
                rounds)
      later zero k l left rec = absurd (left (omega arith))
      later (suc n) k l left rec = rec n (omega arith) (omega arith)

wait_rounds-Some :
    (timeout_ms : Option ℕ) (rounds : List Round)
    → timeout_of timeout_ms / 1000 + 1 < length rounds
    → Some (wait_rounds timeout_ms rounds)
unfolding wait_rounds
wait_rounds-Some timeout_ms rounds h = go (check_timeout (timeout_of timeout_ms))
  where
    go : (c : Result (Unit {0})) → Some (waited timeout_ms rounds c)
    go (err e) = (err e, refl)
    go (ok _) =
        wait_loop-Some (timeout_of timeout_ms) (timeout_of timeout_ms / 1000 + 1) 1000 0 0 rounds
          (omega arith) (omega arith) h

module _ (decode : Bytes → Bytes) (display : AbsPath → String) (ws : Workspace)
    (config : ServerConfig) (cwd profile : Option String) (argv : List String) where
  -- Every check returns.
  abbrev pub AllReturn : List Attempt → Type 0
  AllReturn [] = Unit {0}
  AllReturn (a ∷ attempts) =
      ((r : Result ExecOutcome) × (check_at decode display ws config cwd profile argv a ≡ some r))
      × AllReturn attempts

  length-rounds_of :
      (attempts : List Attempt)
      → AllReturn attempts
      → length (rounds_of decode display ws config cwd profile argv attempts) ≡ length attempts
  unfolding rounds_of
  length-rounds_of [] h = refl
  length-rounds_of (a ∷ attempts) ((r, e), h) = rw e (ap suc (length-rounds_of attempts h))

  -- A wait returns after as many checks as its timeout has seconds, and two more, at the latest, if
  -- every check returns.
  pub wait-returns :
      (timeout_ms : Option ℕ) (attempts : List Attempt)
      → AllReturn attempts
      → timeout_of timeout_ms / 1000 + 1 < length attempts
      → (r : Result WaitResult) × (wait decode display ws config cwd profile argv timeout_ms
            attempts
          ≡ some r)
  unfolding wait
  wait-returns timeout_ms attempts all h =
      wait_rounds-Some timeout_ms (rounds_of decode display ws config cwd profile argv attempts)
        (omega (arith, length-rounds_of attempts all))
