-- ===== src/Server/Config.antt =====
-- crates/remote-workspace-server/src/config.rs: the profiles that commands run under, and the checks
-- on them. The parser of TOML (toml, serde) is a parameter; its error is its text.
pub mod Profiles
use remote_workspace.Prelude.{
  String, ◌≡◌, ◌≢◌, ap, Bool, true, false, Option, none, some, List, [], ◌∷◌, ◌⊎◌, inl, inr, str_eq,
  ◌<>◌, if◌then◌else◌, Bool-cases, arith,
}
use remote_workspace.Prelude.Decimal.{trim_text}
use remote_workspace.Prelude.Utf8.{is_empty}
use remote_workspace.Protocol.Error.{ErrorCode, new, Result, ok, err, ◌>>=◌, ◌>>◌, >>=-eq-ok}

pub record Profile : Type 0 where
  pub shell : List String
  pub setup : String

abbrev pub Profiles : Type 0
Profiles = List (String × Profile)

pub record ServerConfig : Type 0 where
  pub profiles : Profiles
  pub default_profile : Option String

-- `ServerConfig::default()`
abbrev pub no_config : ServerConfig
no_config = record { profiles = []; default_profile = none }

unfoldable pub profile_get : String → Profiles → Option Profile
profile_get name [] = none
profile_get name ((n, p) ∷ ps) = if str_eq n name then some p else profile_get name ps

-- The loop over the profiles: none may have an empty shell.
unfoldable pub check_shells : Profiles → Result (Unit {0})
check_shells [] = ok tt
check_shells ((name, p) ∷ ps) =
    if is_empty p.shell
    then err (
        new ErrorCode.invalid_request
          ("invalid server config: profile '" <> name <> "' has an empty shell"))
    else check_shells ps

abbrev pub check_found : (name : String) → Option Profile → Result (Unit {0})
check_found name (some p) = ok tt
check_found name none = err (
    new ErrorCode.invalid_request
      ("invalid server config: default_profile '" <> name <> "' is not a declared profile"))

unfoldable pub check_default : Profiles → Option String → Result (Unit {0})
unfolding profile_get
check_default ps none = ok tt
check_default ps (some name) = check_found name (profile_get name ps)

abbrev pub accept : ServerConfig → Result ServerConfig
accept config = do
  check_shells config.profiles
  check_default config.profiles config.default_profile
  ok config

abbrev pub loaded : ServerConfig ⊎ String → Result ServerConfig
loaded (inr e) = err (new ErrorCode.invalid_request ("invalid server config: " <> e))
loaded (inl config) = accept config

unfoldable pub load_from_str : (String → ServerConfig ⊎ String) → String → Result ServerConfig
unfolding trim_text check_shells check_default
load_from_str toml s = if str_eq (trim_text s) "" then ok no_config else loaded (toml s)

abbrev pub or_default : Option String → Option String → Option String
or_default none d = d
or_default (some n) d = some n

unfoldable pub profile_named : Profiles → Option String → Result (Option Profile)
unfolding profile_get
profile_named ps none = ok none
profile_named ps (some name) = elim (profile_get name ps) [
  | some p ↦ ok (some p)
  | none ↦ err (new ErrorCode.invalid_request ("unknown profile: " <> name))
]

unfoldable pub profile_for : ServerConfig → (requested : Option String) → Result (Option Profile)
unfolding profile_named
profile_for config requested =
    profile_named config.profiles (or_default requested config.default_profile)
