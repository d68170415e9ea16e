-- ===== src/Tests/Execs.antt =====
-- The theorems on commands and their configuration, at small processes.
use remote_workspace.Prelude.{
  ℕ, ◌≡◌, ◌≢◌, refl, String, Bytes, true, false, Option, none, some, List, [], ◌∷◌, ◌⊎◌, inl,
  length, arith, ◌<>◌,
}
use remote_workspace.Prelude.Int.{pos}
use remote_workspace.Protocol.Error.{Result, ok}
use remote_workspace.Protocol.Messages.{ExecTermination, ExecOutput, WaitOutcome, WaitResult}
use remote_workspace.Server.Workspace.{AbsPath, FileSystem, FileType}
use remote_workspace.Server.Config.{
  Profile, ServerConfig, load_from_str, profile_for, check_shells, check_default,
}
use remote_workspace.Server.Config.Profiles.{profile_for-HasShell, profile_for-unnamed}
use remote_workspace.Server.Exec.Output.{StreamEvent, capture}
use remote_workspace.Server.Exec.Output.Window.{GrowsThreefold}
use remote_workspace.Server.Exec.Output.Stream.{stdout_of, stderr_of}
use remote_workspace.Server.Exec.Shell.{profile_script}
use remote_workspace.Server.Exec.Shell.Words.{words, between, preamble, profile_script-words}
use remote_workspace.Server.Exec.Run.{
  Event, DrainEvent, Process, ExecOutcome, exec, follow, timeout_of,
}
use remote_workspace.Server.Exec.Run.Returns.{exec-returns}
use remote_workspace.Server.Exec.Run.Report.{Reports, all_output, follow-Reports}
use remote_workspace.Server.Exec.Wait.{Attempt, check_at, rounds_of, wait}
use remote_workspace.Server.Exec.Wait.Ends.{AllReturn, wait-returns}
use remote_workspace.Server.Exec.Wait.Tells.{Tells, wait-Tells}
use remote_workspace.Tests.Data.{disk, workspace, hi}

abbrev login : Profile
login = record { shell = "zsh" ∷ "-lic" ∷ []; setup = "set -e" }

abbrev config : ServerConfig
config = record { profiles = ("login", login) ∷ []; default_profile = some "login" }

abbrev pub toml : String → ServerConfig ⊎ String
toml s = inl config

loaded : load_from_str toml "default_profile = 'login'" ≡ ok config
unfolding load_from_str check_shells check_default
loaded = refl

chosen : profile_for config none ≡ ok (some login)
unfolding profile_for
chosen = refl

profile_for-HasShell_example : login.shell ≢ []
profile_for-HasShell_example =
    profile_for-HasShell toml "default_profile = 'login'" config none login loaded chosen

profile_for-unnamed_example : (p : Option Profile) × (profile_for config none ≡ ok p)
profile_for-unnamed_example = profile_for-unnamed toml "default_profile = 'login'" config loaded

profile_script-words_example :
    (line : String) × (profile_script "set -e" ("echo" ∷ "it's" ∷ []) ≡ preamble "set -e" <> line)
    × (words between line ≡ some ("exec" ∷ "echo" ∷ "it's" ∷ []))
profile_script-words_example = profile_script-words "set -e" ("echo" ∷ "it's" ∷ [])

-- A text that is all ASCII decodes to itself.
abbrev as_is : Bytes → Bytes
as_is bytes = bytes

grows : GrowsThreefold as_is
grows bytes = omega arith

abbrev oh : Bytes
oh = b'o' ∷ b'h' ∷ []

-- A command that exits with 0, and whose child writes on until the drain ends.
abbrev process : Process
process = record {
  spawn = none;
  attach = none;
  events =
      Event.output (StreamEvent.stdout hi)
      ∷ Event.output (StreamEvent.stderr oh)
      ∷ Event.exited (record { code = some (pos 0); signal = none })
      ∷ [];
  reaped = true;
  drained = DrainEvent.output (StreamEvent.stdout oh) ∷ DrainEvent.deadline ∷ [];
  elapsed_ms = 12;
}

abbrev four : Bytes
four = b'h' ∷ b'i' ∷ b'o' ∷ b'h' ∷ []

abbrev whole : Bytes → ExecOutput
whole bytes = record { prefix = bytes; suffix = []; total_bytes = length bytes; omitted_bytes = 0 }

abbrev pub outcome : ExecOutcome
outcome = record {
  termination = ExecTermination.exited (pos 0);
  stdout = whole four;
  stderr = whole oh;
  duration_ms = 12;
  drain_timed_out = true;
}

followed : follow as_is process ≡ some (ok outcome)
unfolding follow capture
followed = refl

follow-Reports_example :
    Reports as_is (stdout_of (all_output process)) outcome.stdout
    × Reports as_is (stderr_of (all_output process)) outcome.stderr
follow-Reports_example =
    follow-Reports as_is grows process outcome (omega arith) (omega arith) followed

abbrev root_name : AbsPath → String
root_name p = "/root"

-- Every path is a directory.
abbrev dirs : FileSystem
dirs = record disk {
  metadata = λ p. inl (record { file_type = FileType.dir; len = 0; mode = 493 });
}

exec-returns_example :
    (r : Result ExecOutcome) × (exec as_is root_name dirs workspace config
        (λ c. process)
        none
        none
        ("true" ∷ [])
        none
      ≡ some r)
exec-returns_example =
    exec-returns root_name dirs workspace config none none ("true" ∷ []) none as_is (λ c. process)
      grows toml "default_profile = 'login'" loaded (λ c. tt) (λ c. refl) (λ c. tt)

-- A check that exits with a code.
abbrev exiting : ℕ → Process
exiting code = record process {
  events =
      Event.output (StreamEvent.stdout hi)
      ∷ Event.exited (record { code = some (pos code); signal = none })
      ∷ [];
}

abbrev attempt : ℕ → Attempt
attempt code = record { disk = dirs; system = λ c. exiting code; took = 20; overslept = 1 }

abbrev attempts : List Attempt
attempts = attempt 0 ∷ attempt 0 ∷ attempt 1 ∷ []

abbrev check : ℕ → Result ExecOutcome
check code = ok (record outcome {
  termination = ExecTermination.exited (pos code);
  stdout = whole four;
  stderr = whole [];
})

returned :
    (code : ℕ)
    → check_at as_is root_name workspace config none none ("true" ∷ []) (attempt code)
      ≡ some (check code)
unfolding exec
returned code = refl

all_return : AllReturn as_is root_name workspace config none none ("true" ∷ []) attempts
all_return = ((check 0, returned 0), ((check 0, returned 0), ((check 1, returned 1), tt)))

wait-returns_example :
    (r : Result WaitResult) × (wait as_is root_name workspace config none none
        ("true" ∷ [])
        (some 1500)
        attempts
      ≡ some r)
wait-returns_example =
    wait-returns as_is root_name workspace config none none ("true" ∷ []) (some 1500) attempts
      all_return (omega arith)

abbrev gone : WaitResult
gone = record {
  outcome = WaitOutcome.gone;
  first_check = false;
  checks = 3;
  waited_ms = 1521;
  last_check = record {
    termination = ExecTermination.exited (pos 1);
    stdout = whole four;
    stderr = whole [];
  };
}

waited :
    wait as_is root_name workspace config none none ("true" ∷ []) (some 1500) attempts
    ≡ some (ok gone)
unfolding wait rounds_of exec
waited = refl

wait-Tells_example :
    Tells
      (timeout_of (some 1500))
      0
      (rounds_of as_is root_name workspace config none none ("true" ∷ []) attempts)
      gone
wait-Tells_example =
    wait-Tells as_is root_name workspace config none none ("true" ∷ []) (some 1500) attempts gone
      waited
