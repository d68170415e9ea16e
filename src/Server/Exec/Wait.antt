-- ===== src/Server/Exec/Wait.antt =====
-- exec.rs, `wait`: checks until one says that what is waited for is gone, or the time is up. A round
-- is a check with the milliseconds that it takes, and by how many the sleep after it is late.
pub mod Ends
pub mod Tells
use remote_workspace.Prelude.{
  String, Bytes, ℕ, ◌+◌, ◌-◌, ◌*◌, min, Bool, Option, none, some, List, [], ◌∷◌, ltb, ◌==◌,
  if◌then◌else◌,
}
use remote_workspace.Prelude.Int.{ℤ, pos, negsuc}
use remote_workspace.Protocol.Error.{ProtocolError, Result, ok, err}
use remote_workspace.Protocol.Messages.{ExecTermination, WaitOutcome, WaitResult}
use remote_workspace.Server.Workspace.{AbsPath, FileSystem, Workspace}
use remote_workspace.Server.Config.{ServerConfig}
use remote_workspace.Server.Exec.Shell.{Command}
use remote_workspace.Server.Exec.Run.{Process, exec, ExecOutcome, timeout_of, check_timeout}

abbrev first_interval : ℕ
first_interval = 1000

-- `WAIT_MAX_INTERVAL`
abbrev wait_max_interval : ℕ
wait_max_interval = 30000

pub record Round : Type 0 where
  pub check : Result ExecOutcome
  pub took : ℕ
  pub overslept : ℕ

abbrev of_code : ℕ → Option WaitOutcome
of_code code =
    if code == 0
    then none
    else if code == 1
    then some WaitOutcome.gone
    else some WaitOutcome.check_failed

-- What a check says: `none` is that the thing is still there.
unfoldable pub verdict : ExecTermination → Option WaitOutcome
verdict (ExecTermination.exited (pos code)) = of_code code
verdict (ExecTermination.exited (negsuc n)) = some WaitOutcome.check_failed
verdict ExecTermination.timed_out = some WaitOutcome.check_failed
verdict (ExecTermination.signaled n) = some WaitOutcome.check_failed

abbrev pub wait_result : WaitOutcome → (checks waited_ms : ℕ) → ExecOutcome → WaitResult
wait_result outcome checks waited_ms o = record {
  outcome = outcome;
  first_check = checks == 1;
  checks = checks;
  waited_ms = waited_ms;
  last_check = record { termination = o.termination; stdout = o.stdout; stderr = o.stderr };
}

-- The loop, at a time `now` since the start. With no round left the wait has not returned.
module _ (deadline : ℕ) where
  abbrev pub next_interval : (interval : ℕ) → ℕ
  next_interval interval = min (interval * 2) wait_max_interval

  abbrev pub next_now : (interval now : ℕ) → Round → ℕ
  next_now interval now r = now + r.took + min interval (deadline - (now + r.took)) + r.overslept

  -- A check that said something, or nothing with the time up, ends the wait.
  abbrev pub told :
      (checks now : ℕ)
      → ExecOutcome
      → Option WaitOutcome
      → Option (Result WaitResult)
      → Option (Result WaitResult)
  told checks now o (some outcome) rest = some (ok (wait_result outcome checks now o))
  told checks now o none rest =
      if deadline - now == 0
      then some (ok (wait_result WaitOutcome.timed_out checks now o))
      else rest

  abbrev pub checked :
      (checks now : ℕ)
      → Result ExecOutcome
      → Option (Result WaitResult)
      → Option (Result WaitResult)
  checked checks now (err e) rest = some (err e)
  checked checks now (ok o) rest = told checks now o (verdict o.termination) rest

  unfoldable pub wait_loop : (interval checks now : ℕ) → List Round → Option (Result WaitResult)
  unfolding verdict
  wait_loop interval checks now [] = none
  wait_loop interval checks now (r ∷ rounds) =
      checked (checks + 1) (now + r.took) r.check
        (wait_loop (next_interval interval) (checks + 1) (next_now interval now r) rounds)

abbrev pub waited :
    (timeout_ms : Option ℕ) → List Round → Result (Unit {0}) → Option (Result WaitResult)
waited timeout_ms rounds (err e) = some (err e)
waited timeout_ms rounds (ok _) = wait_loop (timeout_of timeout_ms) first_interval 0 0 rounds

-- `wait`, given what its checks answer.
unfoldable pub wait_rounds : (timeout_ms : Option ℕ) → List Round → Option (Result WaitResult)
unfolding wait_loop
wait_rounds timeout_ms rounds = waited timeout_ms rounds (check_timeout (timeout_of timeout_ms))

-- What a check finds: the disk, and what becomes of the command.
pub record Attempt : Type 0 where
  pub disk : FileSystem
  pub system : Command → Process
  pub took : ℕ
  pub overslept : ℕ

abbrev wait_check_timeout_ms : ℕ
wait_check_timeout_ms = 30000

module _ (decode : Bytes → Bytes) (display : AbsPath → String) (ws : Workspace)
    (config : ServerConfig) (cwd profile : Option String) (argv : List String) where
  abbrev pub check_at : Attempt → Option (Result ExecOutcome)
  check_at a =
      exec decode display a.disk ws config a.system cwd profile argv (some wait_check_timeout_ms)

  abbrev pub and_then : Attempt → Option (Result ExecOutcome) → List Round → List Round
  and_then a none rounds = []
  and_then a (some check) rounds =
      record { check = check; took = a.took; overslept = a.overslept } ∷ rounds

  -- The checks, up to one that has not returned.
  unfoldable pub rounds_of : List Attempt → List Round
  unfolding exec
  rounds_of [] = []
  rounds_of (a ∷ attempts) = and_then a (check_at a) (rounds_of attempts)

  unfoldable pub wait : (timeout_ms : Option ℕ) → List Attempt → Option (Result WaitResult)
  unfolding wait_rounds rounds_of
  wait timeout_ms attempts = wait_rounds timeout_ms (rounds_of attempts)
