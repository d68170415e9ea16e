-- ===== src/Server/Install/Monotone.antt =====
-- Installers that run one after the other under the install lock (Server/Install.antt).
use mathlib.Core.List.{foldl}
use remote_workspace.Prelude.{
  ◌≡◌, ◌≢◌, refl, ◌⊎◌, inl, inr, true, Option, some, List, [], ◌∷◌, String, arith,
}
use remote_workspace.Protocol.Version.{VersionInfo, should_replace}
use remote_workspace.Protocol.Version.Order.{should_replace_trans}
use remote_workspace.Server.Install.{
  Binary, Host, InstallError, no_report, failed, reports_of, probe_installed, run_install_to,
}

-- One run of an installer.
pub record Run : Type 0 where
  pub self : Binary
  pub desired : VersionInfo
  pub expect_sha256 : Option String
  pub host : Host

-- The binary of every run reports the version that it was built as, and the probe of what stands at the
-- managed path comes through.
abbrev pub AllReport : List Run → Type 0
AllReport [] = Unit
AllReport (r ∷ runs) =
    ((r.self.reports ≡ some r.desired) × (r.host.probe_ok ≡ true)) × AllReport runs

abbrev pub after_run : Option Binary → Run → Option Binary
after_run managed r = (run_install_to r.self r.desired r.expect_sha256 r.host managed).1

-- At least as new: the same version, or one that may replace it.
abbrev pub AtLeast : VersionInfo → VersionInfo → Type 0
AtLeast v w = (w ≡ v) ⊎ (should_replace (some v) w ≡ true)

-- A run leaves the managed path alone, or it puts its own binary there by the swap rule.
after_run_cases :
    (managed : Option Binary) (r : Run)
    → (after_run managed r ≡ managed)
      ⊎ ((after_run managed r ≡ some r.self)
          × (should_replace (probe_installed r.host.probe_ok managed) r.desired ≡ true))
unfolding run_install_to
after_run_cases managed r = ground arith

after_run-AtLeast :
    (managed : Option Binary) (r : Run) (v : VersionInfo)
    → r.self.reports ≡ some r.desired
    → r.host.probe_ok ≡ true
    → reports_of managed ≡ some v
    → (w : VersionInfo) × (reports_of (after_run managed r) ≡ some w) × AtLeast v w
after_run-AtLeast managed r v own probed h = elim (after_run_cases managed r) [
  | inl kept ↦ (v, rw kept h, inl refl)
  | inr (is_self, newer) ↦ (r.desired, rw is_self own, inr (rw (probed, h) at newer))
]

AtLeast-trans : (u v w : VersionInfo) → AtLeast u v → AtLeast v w → AtLeast u w
AtLeast-trans u v w p q = ground (arith, should_replace_trans u v w)

-- Whatever installers run, in whatever order and whatever else fails, as long as each has a binary that
-- prints the version it was built as and its probe of the installed binary runs it with success: a
-- binary at the managed path that prints a version is followed by one that prints a version, and that
-- is the first one or one that may replace it.
pub after_runs-AtLeast :
    (runs : List Run) (managed : Option Binary) (v : VersionInfo)
    → AllReport runs
    → reports_of managed ≡ some v
    → (w : VersionInfo) × (reports_of (foldl after_run managed runs) ≡ some w) × AtLeast v w
after_runs-AtLeast [] managed v own h = (v, h, inl refl)
after_runs-AtLeast (r ∷ runs) managed v ((own, probed), all) h =
    let (u, hu, vu) = after_run-AtLeast managed r v own probed h in
    let (w, hw, uw) = after_runs-AtLeast runs (after_run managed r) u all hu in
    (w, hw, AtLeast-trans v u w vu uw)

-- An install that reports a failure other than a missing version report left the managed binary
-- alone.
pub run_install_to-failed :
    (self : Binary) (desired : VersionInfo) (expect_sha256 : Option String) (host : Host)
    (managed : Option Binary) (e : InstallError)
    → (run_install_to self desired expect_sha256 host managed).0 ≡ failed e
    → e ≢ no_report
    → (run_install_to self desired expect_sha256 host managed).1 ≡ managed
unfolding run_install_to
run_install_to-failed self desired expect_sha256 host managed e h ne = ground arith
