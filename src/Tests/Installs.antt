-- ===== src/Tests/Installs.antt =====
-- The theorems on versions and installs.
use mathlib.Core.Path.{◌≡◌, refl}
use mathlib.Core.Logic.{◌≢◌, ◌↔◌}
use mathlib.Core.List.{foldl}
use remote_workspace.Prelude.{true, false, none, some, List, [], ◌∷◌}
use remote_workspace.Protocol.Version.{
  VersionInfo, need_install, preflight, should_replace, software_cmp, parse_triple,
}
use remote_workspace.Prelude.Decimal.{split, parse_u64}
use remote_workspace.Protocol.Version.Order.{
  preflight-should_replace, should_replace_trans, should_replace_asymm,
}
use remote_workspace.Server.Install.{
  Binary, Host, checksum_mismatch, no_report, failed, reports_of, run_install_to,
}
use remote_workspace.Server.Install.Monotone.{
  Run, after_run, AtLeast, after_runs-AtLeast, run_install_to-failed,
}

abbrev older : VersionInfo
older = record { software_version = "0.9.0"; protocol_version = 3 }

abbrev middle : VersionInfo
middle = record { software_version = "0.10.0"; protocol_version = 3 }

abbrev newest : VersionInfo
newest = record { software_version = "0.2.0"; protocol_version = 4 }

abbrev binary : VersionInfo → Binary
binary v = record { sha256 = v.software_version; reports = some v }

abbrev host : Host
host = record {
  current_exe_ok = true;
  read_ok = true;
  has_parent = true;
  mkdir_ok = true;
  lock_ok = true;
  probe_ok = true;
  rename_ok = true;
  remove_ok = true;
  reprobe_ok = true;
}

abbrev run : VersionInfo → Run
run v = record { self = binary v; desired = v; expect_sha256 = none; host = host }

middle_replaces : should_replace (some older) middle ≡ true
unfolding should_replace software_cmp parse_triple split parse_u64
middle_replaces = refl

newest_replaces : should_replace (some middle) newest ≡ true
unfolding should_replace
newest_replaces = refl

preflight-should_replace_example :
    (preflight (some older) middle ≡ need_install) ↔ (should_replace (some older) middle ≡ true)
preflight-should_replace_example = preflight-should_replace (some older) middle

should_replace_trans_example : should_replace (some older) newest ≡ true
should_replace_trans_example =
    should_replace_trans older middle newest middle_replaces newest_replaces

should_replace_asymm_example : should_replace (some middle) older ≡ false
should_replace_asymm_example = should_replace_asymm older middle middle_replaces

abbrev runs : List Run
runs = run newest ∷ run middle ∷ []

after_runs-AtLeast_example :
    (w : VersionInfo) × (reports_of (foldl after_run (some (binary older)) runs) ≡ some w)
    × AtLeast older w
after_runs-AtLeast_example =
    after_runs-AtLeast runs (some (binary older)) older ((refl, refl), ((refl, refl), tt)) refl

is_mismatch :
    (run_install_to (binary middle) middle (some "0.11.0") host (some (binary older))).0
    ≡ failed checksum_mismatch
unfolding run_install_to
is_mismatch = refl

is_other : checksum_mismatch ≢ no_report
is_other h = cc

run_install_to-failed_example :
    (run_install_to (binary middle) middle (some "0.11.0") host (some (binary older))).1
    ≡ some (binary older)
run_install_to-failed_example =
    run_install_to-failed (binary middle) middle (some "0.11.0") host (some (binary older))
      checksum_mismatch is_mismatch is_other
