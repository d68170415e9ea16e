-- ===== src/Server/Exec/Run.antt =====
-- exec.rs, `exec`: the checks, and the loops that follow a command. What the system does is a
-- `Process`: the events of each loop in the order in which `select!` takes them, the deadline among
-- them, and whether the wait for a child that was killed at the deadline ends. A list of events that ends with no end of its loop is a command that is still running.
pub mod Returns
pub mod Report
use remote_workspace.Prelude.{
  ℕ, String, Bytes, Bool, true, false, Option, none, some, List, [], ◌∷◌, inl, inr, ltb, ◌==◌, ◌<>◌,
  ◌||◌, if◌then◌else◌,
}
use remote_workspace.Prelude.Decimal.{show}
use remote_workspace.Prelude.Int.{ℤ, pos}
use remote_workspace.Prelude.Utf8.{is_empty}
use remote_workspace.Protocol.Error.{
  ErrorCode, ProtocolError, IoError, new, Result, ok, err, ◌>>=◌, ◌>>◌,
}
use remote_workspace.Protocol.Messages.{ExecOutput, ExecTermination}
use remote_workspace.Server.Workspace.{AbsPath, FileSystem, Workspace, is_dir, resolve}
use remote_workspace.Server.Config.{ServerConfig, profile_for}
use remote_workspace.Server.Exec.Output.{OutputCapture, StreamEvent, capture, empty, finish}
use remote_workspace.Server.Exec.Shell.{Command, command_for}

abbrev pub default_timeout_ms : ℕ
default_timeout_ms = 300000

abbrev pub max_timeout_ms : ℕ
max_timeout_ms = 3600000

pub record ExecOutcome : Type 0 where
  pub termination : ExecTermination
  pub stdout : ExecOutput
  pub stderr : ExecOutput
  pub duration_ms : ℕ
  pub drain_timed_out : Bool

-- `std::process::ExitStatus`: what `code()` and `signal()` answer.
pub record ExitStatus : Type 0 where
  pub code : Option ℤ
  pub signal : Option ℤ

abbrev or_zero : Option ℤ → ℤ
or_zero none = pos 0
or_zero (some n) = n

unfoldable pub exit_termination : ExitStatus → ExecTermination
exit_termination status = elim (status.code) [
  | some code ↦ ExecTermination.exited code
  | none ↦ ExecTermination.signaled (or_zero status.signal)
]

-- What ends a turn of the loop that waits for the command, and of the one that drains its pipes.
pub data Event : Type 0 where
  output : StreamEvent → Event
  exited : ExitStatus → Event
  wait_failed : IoError → Event
  deadline : Event

pub data DrainEvent : Type 0 where
  output : StreamEvent → DrainEvent
  closed deadline : DrainEvent

pub record Process : Type 0 where
  pub spawn : Option IoError
  pub attach : Option IoError
  pub events : List Event
  pub reaped : Bool
  pub drained : List DrainEvent
  pub elapsed_ms : ℕ

abbrev pub Captures : Type 0
Captures = OutputCapture × OutputCapture

unfoldable pub await_exit : List Event → Captures → Option (Result ExecTermination × Captures)
unfolding capture exit_termination
await_exit [] c = none
await_exit (Event.output e ∷ events) c = await_exit events (capture e c)
await_exit (Event.exited status ∷ events) c = some (ok (exit_termination status), c)
await_exit (Event.wait_failed e ∷ events) c =
    some (err (new ErrorCode.exec_failed ("wait failed: " <> e.text)), c)
await_exit (Event.deadline ∷ events) c = some (ok ExecTermination.timed_out, c)

unfoldable pub drain : List DrainEvent → Captures → Option (Bool × Captures)
unfolding capture
drain [] c = none
drain (DrainEvent.output e ∷ events) c = drain events (capture e c)
drain (DrainEvent.closed ∷ events) c = some (false, c)
drain (DrainEvent.deadline ∷ events) c = some (true, c)

abbrev pub invalid : {A : Type 0} → String → Result A
invalid message = err (new ErrorCode.invalid_request message)

abbrev pub check_argv : List String → Result (Unit {0})
check_argv argv = if is_empty argv then invalid "argv must not be empty" else ok tt

abbrev pub timeout_of : Option ℕ → ℕ
timeout_of none = default_timeout_ms
timeout_of (some ms) = ms

abbrev pub check_timeout : ℕ → Result (Unit {0})
check_timeout ms =
    if ms == 0 || ltb max_timeout_ms ms
    then invalid ("timeout_ms must be between 1 and " <> show max_timeout_ms)
    else ok tt

abbrev pub cwd_of : FileSystem → Workspace → Option String → Result AbsPath
cwd_of fs ws none = ok ws.root
cwd_of fs ws (some c) = resolve fs ws c

abbrev is_dir_at : FileSystem → AbsPath → Bool
is_dir_at fs p = elim (fs.metadata p) [ inl meta ↦ is_dir meta.file_type | inr e ↦ false ]

abbrev pub check_cwd : (display : AbsPath → String) → FileSystem → AbsPath → Result (Unit {0})
check_cwd display fs p =
    if is_dir_at fs p then ok tt else err (new ErrorCode.not_found ("cwd not found: " <> display p))

-- All up to the command, which is `none` where an index is out of range.
unfoldable pub prepare :
    (display : AbsPath → String)
    → FileSystem
    → Workspace
    → ServerConfig
    → (cwd profile : Option String) → (argv : List String) → (timeout_ms : Option ℕ)
    → Result (Option Command)
unfolding profile_for resolve command_for
prepare display fs ws config cwd profile argv timeout_ms = do
  check_argv argv
  check_timeout (timeout_of timeout_ms)
  resolved_profile ← profile_for config profile
  working_dir ← cwd_of fs ws cwd
  check_cwd display fs working_dir
  ok (command_for resolved_profile argv)

module _ (decode : Bytes → Bytes) where
  abbrev pub outcome_of :
      ExecTermination
      → Bool
      → ℕ
      → Option ExecOutput
      → Option ExecOutput
      → Option (Result ExecOutcome)
  outcome_of termination late ms (some out) (some error) = some (
      ok (record {
        termination = termination;
        stdout = out;
        stderr = error;
        duration_ms = ms;
        drain_timed_out = late;
      }))
  outcome_of termination late ms none _ = none
  outcome_of termination late ms (some out) none = none

  abbrev pub drained_as :
      ExecTermination → ℕ → Option (Bool × Captures) → Option (Result ExecOutcome)
  drained_as termination ms none = none
  drained_as termination ms (some (late, (out, error))) =
      outcome_of termination late ms (finish decode out) (finish decode error)

  -- A child that was killed is waited for, without a deadline.
  abbrev pub reaped_as :
      (reaped : Bool) → ExecTermination → Option (Result ExecOutcome) → Option (Result ExecOutcome)
  reaped_as false ExecTermination.timed_out rest = none
  reaped_as _ _ rest = rest

  abbrev pub ended_as :
      Process → Option (Result ExecTermination × Captures) → Option (Result ExecOutcome)
  ended_as p none = none
  ended_as p (some (err e, c)) = some (err e)
  ended_as p (some (ok termination, c)) =
      reaped_as p.reaped termination (drained_as termination p.elapsed_ms (drain p.drained c))

  abbrev pub started_as : Process → (spawn attach : Option IoError) → Option (Result ExecOutcome)
  started_as p (some e) _ = some (err (new ErrorCode.exec_failed ("spawn failed: " <> e.text)))
  started_as p none (some e) =
      some (err (new ErrorCode.exec_failed ("create process group failed: " <> e.text)))
  started_as p none none = ended_as p (await_exit p.events (empty, empty))

  -- From the spawn to the outcome.
  unfoldable pub follow : Process → Option (Result ExecOutcome)
  unfolding await_exit drain finish
  follow p = started_as p p.spawn p.attach

  abbrev pub run_prepared :
      (Command → Process) → Result (Option Command) → Option (Result ExecOutcome)
  run_prepared system (err e) = some (err e)
  run_prepared system (ok none) = none
  run_prepared system (ok (some command)) = follow (system command)

  -- `exec`. `none`: it panicked, or has not returned.
  unfoldable pub exec :
      (display : AbsPath → String)
      → FileSystem
      → Workspace
      → ServerConfig
      → (system : Command → Process) → (cwd profile : Option String) → (argv : List String)
      → (timeout_ms : Option ℕ) → Option (Result ExecOutcome)
  unfolding prepare follow
  exec display fs ws config system cwd profile argv timeout_ms =
      run_prepared system (prepare display fs ws config cwd profile argv timeout_ms)
