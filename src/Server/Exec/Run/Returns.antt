-- ===== src/Server/Exec/Run/Returns.antt =====
-- exec.rs: that `exec` returns.
use remote_workspace.Prelude.{
  ℕ, String, Bytes, ◌≡◌, ◌≢◌, refl, ap, ◌∙◌, Bool, true, false, Option, none, some, List, [], ◌∷◌,
  ◌⊎◌,
}
use remote_workspace.Protocol.Error.{IoError, Result, ok, err, >>=-eq-ok}
use remote_workspace.Protocol.Messages.{ExecTermination}
use remote_workspace.Server.Workspace.{AbsPath, FileSystem, Workspace}
use remote_workspace.Server.Config.{Profile, ServerConfig, load_from_str, profile_for}
use remote_workspace.Server.Config.Profiles.{profile_for-HasShell}
use remote_workspace.Server.Exec.Output.{empty}
use remote_workspace.Server.Exec.Output.Window.{GrowsThreefold}
use remote_workspace.Server.Exec.Output.Preview.{finish-some}
use remote_workspace.Server.Exec.Shell.{Command, command, command_for, profile_script}
use remote_workspace.Server.Exec.Run.{
  ExecOutcome, Event, DrainEvent, Process, Captures, await_exit, drain, check_argv, check_timeout,
  timeout_of, cwd_of, check_cwd, prepare, outcome_of, drained_as, reaped_as, ended_as, started_as,
  follow, run_prepared, exec,
}

-- An event comes that ends the loop: the deadline at the latest.
abbrev pub Ends : List Event → Type 0
Ends [] = ⊥
Ends (Event.output e ∷ events) = Ends events
Ends (_ ∷ events) = Unit {0}

abbrev pub DrainEnds : List DrainEvent → Type 0
DrainEnds [] = ⊥
DrainEnds (DrainEvent.output e ∷ events) = DrainEnds events
DrainEnds (_ ∷ events) = Unit {0}

abbrev Some {ℓ} : {A : Type ℓ} → Option A → Type ℓ
Some {A = A} o = (a : A) × (o ≡ some a)

await_exit-Some : (events : List Event) (c : Captures) → Ends events → Some (await_exit events c)
unfolding await_exit
await_exit-Some [] c h = absurd h
await_exit-Some (Event.output e ∷ events) c h = await_exit-Some events _ h
await_exit-Some (Event.exited status ∷ events) c h = (_, refl)
await_exit-Some (Event.wait_failed e ∷ events) c h = (_, refl)
await_exit-Some (Event.deadline ∷ events) c h = (_, refl)

drain-Some : (events : List DrainEvent) (c : Captures) → DrainEnds events → Some (drain events c)
unfolding drain
drain-Some [] c h = absurd h
drain-Some (DrainEvent.output e ∷ events) c h = drain-Some events _ h
drain-Some (DrainEvent.closed ∷ events) c h = (_, refl)
drain-Some (DrainEvent.deadline ∷ events) c h = (_, refl)

module _ (decode : Bytes → Bytes) (grows : GrowsThreefold decode) where
  drained_as-Some :
      (termination : ExecTermination) (ms : ℕ) (r : Bool × Captures)
      → Some (drained_as decode termination ms (some r))
  drained_as-Some termination ms (late, (out, error)) =
      let (o, e) = finish-some decode grows out in
      let (u, f) = finish-some decode grows error in
      (_, λ i. outcome_of decode termination late ms (e i) (f i))

  reaped_as-true :
      (reaped : Bool) (t : ExecTermination) (rest : Option (Result ExecOutcome))
      → reaped ≡ true
      → reaped_as decode reaped t rest ≡ rest
  reaped_as-true false t rest h = cc
  reaped_as-true true t rest h = refl

  ended_as-Some :
      (p : Process) (r : Result ExecTermination × Captures)
      → p.reaped ≡ true
      → DrainEnds p.drained
      → Some (ended_as decode p (some r))
  ended_as-Some p (err e, c) reaped h = (_, refl)
  ended_as-Some p (ok termination, c) reaped h =
      let (d, e) = drain-Some p.drained c h in
      let (o, f) = drained_as-Some termination p.elapsed_ms d in
      (
        o,
        reaped_as-true p.reaped termination
              (drained_as decode termination p.elapsed_ms (drain p.drained c)) reaped
            ∙ ap (drained_as decode termination p.elapsed_ms) e
            ∙ f,
      )

  follow-Some :
      (p : Process) → Ends p.events → p.reaped ≡ true → DrainEnds p.drained → Some (follow decode p)
  unfolding follow
  follow-Some p h reaped k = go p.spawn p.attach
    where
      go : (spawn attach : Option IoError) → Some (started_as decode p spawn attach)
      go (some e) attach = (_, refl)
      go none (some e) = (_, refl)
      go none none =
          let (r, e) = await_exit-Some p.events (empty, empty) h in
          let (o, f) = ended_as-Some p r reaped k in (o, ap (ended_as decode p) e ∙ f)

command-none : (l more : List String) → command l more ≡ none → l ≡ []
command-none [] more e = refl
command-none (program ∷ args) more e = cc

-- The command of a request that passed the checks has a program.
command_for-some :
    (o : Option Profile) (argv : List String)
    → argv ≢ []
    → ((p : Profile) → o ≡ some p → p.shell ≢ [])
    → command_for o argv ≢ none
unfolding command_for
command_for-some none [] h k e = h refl
command_for-some none (a ∷ argv) h k e = cc
command_for-some (some p) argv h k e =
    k p refl (command-none p.shell (profile_script p.setup argv ∷ []) e)

check_argv-ok : (argv : List String) → check_argv argv ≡ ok tt → argv ≢ []
check_argv-ok [] h e = cc
check_argv-ok (a ∷ argv) h e = cc

module _ (display : AbsPath → String) (fs : FileSystem) (ws : Workspace) (config : ServerConfig)
    (cwd profile : Option String) (argv : List String) (timeout_ms : Option ℕ) where
  prepare-some :
      (toml : String → ServerConfig ⊎ String) (text : String)
      → load_from_str toml text ≡ ok config
      → (o : Option Command) → prepare display fs ws config cwd profile argv timeout_ms ≡ ok o
      → o ≢ none
  unfolding prepare
  prepare-some toml text loaded o h =
      let (_, given, h1) = >>=-eq-ok (check_argv argv) _ o h in
      let (_, _, h2) = >>=-eq-ok (check_timeout (timeout_of timeout_ms)) _ o h1 in
      let (resolved, found, h3) = >>=-eq-ok (profile_for config profile) _ o h2 in
      let (dir, _, h4) = >>=-eq-ok (cwd_of fs ws cwd) _ o h3 in
      let (_, _, h5) = >>=-eq-ok (check_cwd display fs dir) _ o h4 in
      let same : command_for resolved argv ≡ o = cc in
      λ e.
        command_for-some resolved argv (check_argv-ok argv given)
          (λ p q. profile_for-HasShell toml text config profile p loaded (found ∙ ap ok q))
          (same ∙ e)

  module _ (decode : Bytes → Bytes) (system : Command → Process) where
    -- Under a configuration that was loaded, a request to run a command returns, with no index out of
    -- range, if each of its two loops gets an event that ends it (the deadline at the latest), the wait
    -- for a child that was killed ends, and decoding makes at most three bytes of one.
    pub exec-returns :
        GrowsThreefold decode
        → (toml : String → ServerConfig ⊎ String) (text : String)
        → load_from_str toml text ≡ ok config
        → ((c : Command) → Ends (system c).events)
        → ((c : Command) → (system c).reaped ≡ true)
        → ((c : Command) → DrainEnds (system c).drained)
        → (r : Result ExecOutcome) × (exec decode display fs ws config system cwd profile argv
              timeout_ms
            ≡ some r)
    unfolding exec
    exec-returns grows toml text loaded ends reaped drain_ends =
        go (prepare display fs ws config cwd profile argv timeout_ms) refl
      where
        go :
            (prepared : Result (Option Command))
            → prepare display fs ws config cwd profile argv timeout_ms ≡ prepared
            → Some (run_prepared decode system prepared)
        go (err e) h = (_, refl)
        go (ok none) h = absurd (prepare-some toml text loaded none h refl)
        go (ok (some c)) h = follow-Some decode grows (system c) (ends c) (reaped c) (drain_ends c)
