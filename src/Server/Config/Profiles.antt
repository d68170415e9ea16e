-- ===== src/Server/Config/Profiles.antt =====
-- config.rs: what a configuration that was loaded says of its profiles.
use remote_workspace.Prelude.{
  subst, if◌then◌else◌, String, ◌≡◌, ◌≢◌, Bool, true, false, Option, none, some, [], ◌∷◌, ◌⊎◌, inl,
  inr, str_eq, arith, refl,
}
use remote_workspace.Protocol.Error.{ok, >>=-eq-ok}
use remote_workspace.Prelude.Decimal.{trim_text}
use remote_workspace.Server.Config.{
  Profile, Profiles, ServerConfig, no_config, profile_get, check_shells, check_default, accept,
  loaded, load_from_str, or_default, profile_named, profile_for, check_found,
}

check_shells-get :
    (name : String) (ps : Profiles) (p : Profile)
    → check_shells ps ≡ ok tt
    → profile_get name ps ≡ some p
    → p.shell ≢ []
unfolding check_shells profile_get
check_shells-get name [] p h g e = cc
check_shells-get name ((n, q) ∷ ps) p h g e = ground (arith, check_shells-get name ps p)

abbrev Passed : ServerConfig → Type 0
Passed c = (check_shells c.profiles ≡ ok tt) × (check_default c.profiles c.default_profile ≡ ok tt)

accept-Passed : (config c : ServerConfig) → accept config ≡ ok c → Passed c
accept-Passed config c h =
    let (_, shells, h1) = >>=-eq-ok (check_shells config.profiles) _ c h in
    let (_, default, h2) =
      >>=-eq-ok (check_default config.profiles config.default_profile) _ c h1 in
    let same : config ≡ c = cc in subst Passed same (shells, default)

-- A configuration that was loaded is the empty one or has passed both checks.
load_from_str-Passed :
    (toml : String → ServerConfig ⊎ String) (s : String) (c : ServerConfig)
    → load_from_str toml s ≡ ok c
    → Passed c
unfolding load_from_str
load_from_str-Passed toml s c h = go (str_eq (trim_text s) "") (toml s) h
  where
    go :
        (b : Bool) (r : ServerConfig ⊎ String)
        → (if b then ok no_config else loaded r) ≡ ok c
        → Passed c
    go true r h = let same : no_config ≡ c = cc in subst Passed same (refl, refl)
    go false (inl config) h = accept-Passed config c h
    go false (inr e) h = cc

profile_named-HasShell :
    (ps : Profiles) (name : Option String) (p : Profile)
    → check_shells ps ≡ ok tt
    → profile_named ps name ≡ ok (some p)
    → p.shell ≢ []
unfolding profile_named
profile_named-HasShell ps none p h k e = cc
profile_named-HasShell ps (some name) p h k e = ground (arith, check_shells-get name ps p)

-- Under a configuration that was loaded, a profile that a request is run under has a program to run.
pub profile_for-HasShell :
    (toml : String → ServerConfig ⊎ String) (s : String) (c : ServerConfig)
    (requested : Option String) (p : Profile)
    → load_from_str toml s ≡ ok c
    → profile_for c requested ≡ ok (some p)
    → p.shell ≢ []
unfolding profile_for
profile_for-HasShell toml s c requested p h k =
    profile_named-HasShell c.profiles (or_default requested c.default_profile) p
      (load_from_str-Passed toml s c h).0 k

profile_named-default :
    (ps : Profiles) (name : Option String)
    → check_default ps name ≡ ok tt
    → (p : Option Profile) × (profile_named ps name ≡ ok p)
unfolding profile_named check_default
profile_named-default ps none h = (none, refl)
profile_named-default ps (some name) h = go (profile_get name ps) h refl
  where
    go :
        (o : Option Profile)
        → check_found name o ≡ ok tt
        → profile_get name ps ≡ o
        → (p : Option Profile) × (profile_named ps (some name) ≡ ok p)
    go none h e = cc
    go (some p) h e = (some p, rw (e, profile_named) refl)

-- Under a configuration that was loaded, a request that names no profile gets one, or none, without an
-- error.
pub profile_for-unnamed :
    (toml : String → ServerConfig ⊎ String) (s : String) (c : ServerConfig)
    → load_from_str toml s ≡ ok c
    → (p : Option Profile) × (profile_for c none ≡ ok p)
unfolding profile_for
profile_for-unnamed toml s c h =
    profile_named-default c.profiles c.default_profile (load_from_str-Passed toml s c h).1
