-- ===== src/Server/Exec/Wait/Tells.antt =====
-- exec.rs, `wait`: what its result says of the checks.
use remote_workspace.Prelude.{
  String, Bytes, ℕ, ◌+◌, ◌-◌, ◌≤◌, ◌≡◌, refl, ap, sym, subst, Option, none, some, List, [], ◌∷◌,
  ◌++◌, length, ◌==◌, arith, Bool-cases, inl, inr,
}
use remote_workspace.Prelude.Int.{pos, negsuc}
use remote_workspace.Protocol.Error.{Result, ok, err}
use remote_workspace.Protocol.Messages.{WaitResult, WaitOutcome, ExecTermination}
use remote_workspace.Server.Workspace.{AbsPath, Workspace}
use remote_workspace.Server.Config.{ServerConfig}
use remote_workspace.Server.Exec.Run.{ExecOutcome, check_timeout, timeout_of}
use remote_workspace.Server.Exec.Wait.{
  Round, verdict, wait_loop, wait_rounds, waited, told, checked, wait_result, next_now,
  next_interval, Attempt, rounds_of, wait,
}

-- The check ran, and its command exited with the code.
abbrev Exits : ℕ → Result ExecOutcome → Type 0
Exits code (err e) = ⊥
Exits code (ok o) = o.termination ≡ ExecTermination.exited (pos code)

abbrev AllExit : ℕ → List Round → Type 0
AllExit code [] = Unit {0}
AllExit code (r ∷ rounds) = Exits code r.check × AllExit code rounds

-- The outcome, by the last check and the time.
abbrev Told : (timeout waited : ℕ) → Result ExecOutcome → WaitOutcome → Type 0
Told timeout waited check WaitOutcome.gone = Exits 1 check
Told timeout waited check WaitOutcome.timed_out = Exits 0 check × (timeout ≤ waited)
Told timeout waited check WaitOutcome.check_failed = (Exits 0 check → ⊥) × (Exits 1 check → ⊥)

verdict-none : (t : ExecTermination) → verdict t ≡ none → t ≡ ExecTermination.exited (pos 0)
unfolding verdict
verdict-none (ExecTermination.exited (pos code)) h = ground arith
verdict-none (ExecTermination.exited (negsuc n)) h = cc
verdict-none ExecTermination.timed_out h = cc
verdict-none (ExecTermination.signaled n) h = cc

verdict-Told :
    (timeout waited : ℕ) (o : ExecOutcome) (outcome : WaitOutcome)
    → verdict o.termination ≡ some outcome
    → Told timeout waited (ok o) outcome
unfolding verdict
verdict-Told timeout waited o outcome h = by_termination o.termination outcome h
  where
    by_termination :
        (t : ExecTermination) (outcome : WaitOutcome)
        → verdict t ≡ some outcome
        → Told timeout waited (ok (record o { termination = t })) outcome
    by_termination (ExecTermination.exited (pos code)) WaitOutcome.gone h = ground arith
    by_termination (ExecTermination.exited (pos code)) WaitOutcome.timed_out h = ground arith
    by_termination (ExecTermination.exited (pos code)) WaitOutcome.check_failed h = ground arith
    by_termination (ExecTermination.exited (negsuc n)) WaitOutcome.gone h = cc
    by_termination (ExecTermination.exited (negsuc n)) WaitOutcome.timed_out h = cc
    by_termination (ExecTermination.exited (negsuc n)) WaitOutcome.check_failed h =
        (λ e. cc, λ e. cc)
    by_termination ExecTermination.timed_out WaitOutcome.gone h = cc
    by_termination ExecTermination.timed_out WaitOutcome.timed_out h = cc
    by_termination ExecTermination.timed_out WaitOutcome.check_failed h = (λ e. cc, λ e. cc)
    by_termination (ExecTermination.signaled n) WaitOutcome.gone h = cc
    by_termination (ExecTermination.signaled n) WaitOutcome.timed_out h = cc
    by_termination (ExecTermination.signaled n) WaitOutcome.check_failed h = (λ e. cc, λ e. cc)

-- The rounds that were used, and what the result says of them.
abbrev pub Tells : (timeout checks : ℕ) → List Round → WaitResult → Type 0
Tells timeout checks rounds r =
    (before : List Round) × (last : Round) × (after : List Round) × (rounds
      ≡ before ++ last ∷ after)
    × AllExit 0 before
    × Told timeout r.waited_ms last.check r.outcome
    × (r.checks ≡ checks + length before + 1)

module _ (deadline checks : ℕ) (round : Round) (rounds : List Round) where
  -- The wait ends with this round.
  ends-Tells :
      (now : ℕ) (o : ExecOutcome) (outcome : WaitOutcome) (r : WaitResult)
      → round.check ≡ ok o
      → Told deadline now (ok o) outcome
      → wait_result outcome (checks + 1) now o ≡ r
      → Tells deadline checks (round ∷ rounds) r
  ends-Tells now o outcome r c t same =
      subst (λ r. Tells deadline checks (round ∷ rounds) r) same
        (
          [],
          round,
          rounds,
          refl,
          tt,
          subst (λ c. Told deadline now c outcome) (sym c) t,
          omega arith,
        )

  -- It goes on after a check that says that the thing is still there.
  goes_on-Tells :
      (o : ExecOutcome) (r : WaitResult)
      → round.check ≡ ok o
      → verdict o.termination ≡ none
      → Tells deadline (checks + 1) rounds r
      → Tells deadline checks (round ∷ rounds) r
  goes_on-Tells o r c v (before, last, after, split, still, t, count) = (
    round ∷ before,
    last,
    after,
    ap (λ l. round ∷ l) split,
    (subst (Exits 0) (sym c) (verdict-none o.termination v), still),
    t,
    omega (arith, count),
  )

  told-Tells :
      (now : ℕ) (o : ExecOutcome) (v : Option WaitOutcome) (rest : Option (Result WaitResult))
      (r : WaitResult)
      → round.check ≡ ok o
      → verdict o.termination ≡ v
      → (rest ≡ some (ok r) → Tells deadline (checks + 1) rounds r)
      → told deadline (checks + 1) now o v rest ≡ some (ok r)
      → Tells deadline checks (round ∷ rounds) r
  told-Tells now o (some outcome) rest r c v later h =
      ends-Tells now o outcome r c (verdict-Told deadline now o outcome v) (cc)
  told-Tells now o none rest r c v later h = elim (Bool-cases (deadline - now == 0)) [
    | inl up ↦
        ends-Tells now o WaitOutcome.timed_out r c (verdict-none o.termination v, ground arith)
          (ground (arith, up, h))
    | inr left ↦ goes_on-Tells o r c v (later (ground (arith, left, h)))
  ]

  checked-Tells :
      (now : ℕ) (c : Result ExecOutcome) (rest : Option (Result WaitResult)) (r : WaitResult)
      → round.check ≡ c
      → (rest ≡ some (ok r) → Tells deadline (checks + 1) rounds r)
      → checked deadline (checks + 1) now c rest ≡ some (ok r)
      → Tells deadline checks (round ∷ rounds) r
  checked-Tells now (err e) rest r c later h = cc
  checked-Tells now (ok o) rest r c later h =
      told-Tells now o (verdict o.termination) rest r c refl later h

wait_loop-Tells :
    (deadline interval checks now : ℕ) (rounds : List Round) (r : WaitResult)
    → wait_loop deadline interval checks now rounds ≡ some (ok r)
    → Tells deadline checks rounds r
unfolding wait_loop
wait_loop-Tells deadline interval checks now [] r h = cc
wait_loop-Tells deadline interval checks now (round ∷ rounds) r h =
    checked-Tells deadline checks round rounds (now + round.took) round.check _ r refl
      (wait_loop-Tells deadline (next_interval deadline interval) (checks + 1)
        (next_now deadline interval now round) rounds r)
      h

wait_rounds-Tells :
    (timeout_ms : Option ℕ) (rounds : List Round) (r : WaitResult)
    → wait_rounds timeout_ms rounds ≡ some (ok r)
    → Tells (timeout_of timeout_ms) 0 rounds r
unfolding wait_rounds
wait_rounds-Tells timeout_ms rounds r h = go (check_timeout (timeout_of timeout_ms)) h
  where
    go :
        (c : Result (Unit {0}))
        → waited timeout_ms rounds c ≡ some (ok r)
        → Tells (timeout_of timeout_ms) 0 rounds r
    go (err e) h = cc
    go (ok _) h = wait_loop-Tells (timeout_of timeout_ms) 1000 0 0 rounds r h

module _ (decode : Bytes → Bytes) (display : AbsPath → String) (ws : Workspace)
    (config : ServerConfig) (cwd profile : Option String) (argv : List String) where
  -- The result of a wait tells what its checks were: all before the last exited 0, the last exited 1 if
  -- the outcome is gone, exited 0 with the timeout passed if it is timed_out, and neither 0 nor 1 if it is
  -- check_failed; and the result counts the checks.
  pub wait-Tells :
      (timeout_ms : Option ℕ) (attempts : List Attempt) (r : WaitResult)
      → wait decode display ws config cwd profile argv timeout_ms attempts ≡ some (ok r)
      → Tells
          (timeout_of timeout_ms)
          0
          (rounds_of decode display ws config cwd profile argv attempts)
          r
  unfolding wait
  wait-Tells timeout_ms attempts r h =
      wait_rounds-Tells timeout_ms (rounds_of decode display ws config cwd profile argv attempts) r
        h
