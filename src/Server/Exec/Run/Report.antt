-- ===== src/Server/Exec/Run/Report.antt =====
-- exec.rs: what `exec` reports of the output of a command.
use remote_workspace.Prelude.{
  ℕ, Bytes, ◌≡◌, ◌<◌, refl, ap, sym, subst, ◌∙◌, Bool, true, false, Option, none, some, List, [],
  ◌∷◌, ◌++◌, length, arith,
}
use remote_workspace.Prelude.Decimal.{u64_mod}
use remote_workspace.Protocol.Error.{IoError, Result, ok, err}
use remote_workspace.Protocol.Messages.{ExecOutput, ExecTermination}
use remote_workspace.Server.Exec.Output.{
  StreamEvent, OutputCapture, capture, capture_all, empty, finish,
}
use remote_workspace.Server.Exec.Output.Stream.{stdout_of, stderr_of}
use remote_workspace.Server.Exec.Output.Window.{GrowsThreefold}
use remote_workspace.Server.Exec.Output.Preview.{Previews, PreviewOf, capture_all-PreviewOf}
use remote_workspace.Server.Exec.Run.{
  ExecOutcome, Event, DrainEvent, Process, Captures, await_exit, drain, outcome_of, drained_as,
  reaped_as, ended_as, started_as, follow,
}

-- What a loop receives until it ends.
abbrev pub received : List Event → List StreamEvent
received [] = []
received (Event.output e ∷ events) = e ∷ received events
received (_ ∷ events) = []

abbrev pub drained_output : List DrainEvent → List StreamEvent
drained_output [] = []
drained_output (DrainEvent.output e ∷ events) = e ∷ drained_output events
drained_output (_ ∷ events) = []

abbrev pub all_output : Process → List StreamEvent
all_output p = received p.events ++ drained_output p.drained

await_exit-captures :
    (events : List Event) (c : Captures) (r : Result ExecTermination × Captures)
    → await_exit events c ≡ some r
    → r.1 ≡ capture_all (received events) c
unfolding await_exit capture_all
await_exit-captures [] c r h = cc
await_exit-captures (Event.output e ∷ events) c r h = await_exit-captures events (capture e c) r h
await_exit-captures (Event.exited status ∷ events) c r h = ground arith
await_exit-captures (Event.wait_failed e ∷ events) c r h = ground arith
await_exit-captures (Event.deadline ∷ events) c r h = ground arith

drain-captures :
    (events : List DrainEvent) (c : Captures) (r : Bool × Captures)
    → drain events c ≡ some r
    → r.1 ≡ capture_all (drained_output events) c
unfolding drain capture_all
drain-captures [] c r h = cc
drain-captures (DrainEvent.output e ∷ events) c r h = drain-captures events (capture e c) r h
drain-captures (DrainEvent.closed ∷ events) c r h = ground arith
drain-captures (DrainEvent.deadline ∷ events) c r h = ground arith

capture_all-append :
    (xs ys : List StreamEvent) (c : Captures)
    → capture_all (xs ++ ys) c ≡ capture_all ys (capture_all xs c)
unfolding capture_all
capture_all-append [] ys c = refl
capture_all-append (x ∷ xs) ys c = capture_all-append xs ys (capture x c)

module _ (decode : Bytes → Bytes) where
  -- An outcome is made of the captures of all that was received.
  abbrev Finishes : Captures → ExecOutcome → Type 0
  Finishes c o = (finish decode (c.0) ≡ some o.stdout) × (finish decode (c.1) ≡ some o.stderr)

  outcome_of-Finishes :
      (t : ExecTermination) (late : Bool) (ms : ℕ) (x y : Option ExecOutput) (o : ExecOutcome)
      → outcome_of decode t late ms x y ≡ some (ok o)
      → (x ≡ some o.stdout) × (y ≡ some o.stderr)
  outcome_of-Finishes t late ms none y o h = cc
  outcome_of-Finishes t late ms (some x) none o h = cc
  outcome_of-Finishes t late ms (some x) (some y) o h = ground arith

  drained_as-Finishes :
      (t : ExecTermination) (ms : ℕ) (d : Option (Bool × Captures)) (o : ExecOutcome)
      → drained_as decode t ms d ≡ some (ok o)
      → (r : Bool × Captures) × (d ≡ some r) × Finishes (r.1) o
  drained_as-Finishes t ms none o h = cc
  drained_as-Finishes t ms (some (late, (out, error))) o h = (
    (late, (out, error)),
    refl,
    outcome_of-Finishes t late ms (finish decode out) (finish decode error) o h,
  )

  reaped_as-ok :
      (reaped : Bool) (t : ExecTermination) (rest : Option (Result ExecOutcome)) (o : ExecOutcome)
      → reaped_as decode reaped t rest ≡ some (ok o)
      → rest ≡ some (ok o)
  reaped_as-ok false ExecTermination.timed_out rest o h = cc
  reaped_as-ok false (ExecTermination.exited n) rest o h = h
  reaped_as-ok false (ExecTermination.signaled n) rest o h = h
  reaped_as-ok true t rest o h = h

  ended_as-Finishes :
      (p : Process) (a : Option (Result ExecTermination × Captures)) (o : ExecOutcome)
      → await_exit p.events (empty, empty) ≡ a
      → ended_as decode p a ≡ some (ok o)
      → Finishes (capture_all (all_output p) (empty, empty)) o
  ended_as-Finishes p none o e h = cc
  ended_as-Finishes p (some (err x, c)) o e h = cc
  ended_as-Finishes p (some (ok t, c)) o e h =
      let (r, d, f) =
        drained_as-Finishes t p.elapsed_ms (drain p.drained c) o
          (reaped_as-ok p.reaped t (drained_as decode t p.elapsed_ms (drain p.drained c)) o h) in
      subst (λ cs. Finishes cs o)
        (drain-captures p.drained c r d
          ∙ ap (capture_all (drained_output p.drained))
              (await_exit-captures p.events (empty, empty) (ok t, c) e)
          ∙ sym (capture_all-append (received p.events) (drained_output p.drained) (empty, empty)))
        f

  follow-Finishes :
      (p : Process) (o : ExecOutcome)
      → follow decode p ≡ some (ok o)
      → Finishes (capture_all (all_output p) (empty, empty)) o
  unfolding follow
  follow-Finishes p o h = go p.spawn p.attach h
    where
      go :
          (spawn attach : Option IoError)
          → started_as decode p spawn attach ≡ some (ok o)
          → Finishes (capture_all (all_output p) (empty, empty)) o
      go (some e) attach h = cc
      go none (some e) h = cc
      go none none h = ended_as-Finishes p (await_exit p.events (empty, empty)) o refl h

  abbrev pub Reports : Bytes → ExecOutput → Type 0
  Reports bytes o = (p : ℕ) × (s : ℕ) × Previews decode bytes o p s

  finish-Reports :
      (bytes : Bytes) (c : OutputCapture) (o : ExecOutput)
      → finish decode c ≡ some o
      → PreviewOf decode bytes c
      → Reports bytes o
  finish-Reports bytes c o h (o', p, s, e, previews) =
      let same : o' ≡ o = cc in (p, s, subst (λ x. Previews decode bytes x p s) same previews)

  -- A command that has run is reported with two texts of each of its streams, whatever chunks these
  -- came in, however they were interleaved, and whether they came before the command ended or while
  -- its pipes were drained: the texts are within their limits, decode a beginning and an end of all
  -- that was received which do not overlap, and the count of omitted bytes is that of the bytes
  -- between them; if each stream is shorter than a u64 can count and decoding makes at most three
  -- bytes of one.
  pub follow-Reports :
      GrowsThreefold decode
      → (p : Process) (o : ExecOutcome) → length (stdout_of (all_output p)) < u64_mod
      → length (stderr_of (all_output p)) < u64_mod
      → follow decode p ≡ some (ok o)
      → Reports (stdout_of (all_output p)) o.stdout × Reports (stderr_of (all_output p)) o.stderr
  follow-Reports grows p o h k e =
      let (out, error) = follow-Finishes p o e in
      let (x, y) = capture_all-PreviewOf decode grows (all_output p) h k in
      (finish-Reports _ _ o.stdout out x, finish-Reports _ _ o.stderr error y)
