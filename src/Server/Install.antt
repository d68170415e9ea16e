-- ===== src/Server/Install.antt =====
-- crates/remote-workspace-server/src/install.rs: a freshly uploaded server that installs itself, on
-- Unix. The digest of a binary (sha2) and what it prints for `--version-json` are data of the binary;
-- whether it runs and succeeds is the host's. Messages of `anyhow` are the constructors of
-- `InstallError`.
pub mod Monotone
use remote_workspace.Prelude.{
  ℕ, ◌+◌, String, Bool, true, false, ◌&&◌, not, Option, none, some, List, [], ◌∷◌, leb, ◌==◌, codes,
  if◌then◌else◌,
}
use remote_workspace.Protocol.Version.{VersionInfo, InstallOutcome, should_replace}

pub record Binary : Type 0 where
  pub sha256 : String
  pub reports : Option VersionInfo

pub data InstallError : Type 0 where
  no_current_exe unreadable checksum_mismatch no_parent mkdir_failed install_locked rename_failed
        no_report :
      InstallError

-- What the host answers to one run.
pub record Host : Type 0 where
  pub current_exe_ok : Bool
  pub read_ok : Bool
  pub has_parent : Bool
  pub mkdir_ok : Bool
  pub lock_ok : Bool
  pub probe_ok : Bool
  pub rename_ok : Bool
  pub remove_ok : Bool
  pub reprobe_ok : Bool

-- What a binary prints: nothing that parses for a legacy or broken one.
abbrev pub reports_of : Option Binary → Option VersionInfo
reports_of none = none
reports_of (some b) = b.reports

-- `probe_installed`: `None` for a missing, legacy or broken binary, and for one that could not be run
-- or that failed.
abbrev pub probe_installed : (runs : Bool) → Option Binary → Option VersionInfo
probe_installed runs managed = if runs then reports_of managed else none

-- `eq_ignore_ascii_case`
abbrev to_ascii_lowercase : ℕ → ℕ
to_ascii_lowercase c = if leb b'A' c && leb c b'Z' then c + 32 else c

eq_codes : List ℕ → List ℕ → Bool
eq_codes [] [] = true
eq_codes (a ∷ s) (b ∷ t) = to_ascii_lowercase a == to_ascii_lowercase b && eq_codes s t
eq_codes _ _ = false

abbrev matches_checksum : Option String → String → Bool
matches_checksum none got = true
matches_checksum (some expect) got = eq_codes (codes got) (codes expect)

pub data Outcome : Type 0 where
  done : InstallOutcome → Outcome
  failed : InstallError → Outcome

abbrev report : Bool → Option VersionInfo → Option VersionInfo → Outcome
report installed previous none = failed no_report
report installed previous (some current) =
    done (record { installed = installed; previous = previous; current = current })

abbrev is_read : Option String → Host → Bool
is_read none host = true
is_read (some expect) host = host.read_ok

-- The part under the install lock: probe, swap or keep, probe again.
swap : Binary → VersionInfo → Host → Option Binary → Outcome × Option Binary × Bool
swap self desired host managed =
    if should_replace (probe_installed host.probe_ok managed) desired
    then (if host.rename_ok
        then (
          report true (probe_installed host.probe_ok managed)
              (probe_installed host.reprobe_ok (some self)),
          some self,
          false,
        )
        else (failed rename_failed, managed, true))
    else (
      report false (probe_installed host.probe_ok managed)
          (probe_installed host.reprobe_ok managed),
      managed,
      not host.remove_ok,
    )

-- The outcome, the binary that then stands at the managed path, and whether the upload is still there.
unfoldable pub run_install_to :
    Binary → VersionInfo → Option String → Host → Option Binary → Outcome × Option Binary × Bool
unfolding eq_codes swap
run_install_to self desired expect_sha256 host managed =
    if host.current_exe_ok
    then (if is_read expect_sha256 host
        then (if matches_checksum expect_sha256 self.sha256
            then (if host.has_parent
                then (if host.mkdir_ok
                    then (if host.lock_ok
                        then swap self desired host managed
                        else (failed install_locked, managed, true))
                    else (failed mkdir_failed, managed, true))
                else (failed no_parent, managed, true))
            else (failed checksum_mismatch, managed, true))
        else (failed unreadable, managed, true))
    else (failed no_current_exe, managed, true)
