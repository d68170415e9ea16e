-- ===== src/Protocol/Version.antt =====
-- crates/remote-workspace-protocol/src/version.rs: which server release replaces which.
pub mod Order
use Prim.Native.Nat.{compare, Ordering}
use remote_workspace.Prelude.{ℕ, String, Bool, true, false, Option, none, some, List, [], ◌∷◌}
use remote_workspace.Prelude.Decimal.{parse_u64, split}

pub record VersionInfo : Type 0 where
  pub software_version : String
  pub protocol_version : ℕ

pub record InstallOutcome : Type 0 where
  pub installed : Bool
  pub previous : Option VersionInfo
  pub current : VersionInfo

pub data Preflight : Type 0 where
  connect need_install client_too_old : Preflight

pub record Triple : Type 0 where
  pub major : ℕ
  pub minor : ℕ
  pub patch : ℕ

-- `it.next()?.parse().ok()?` three times, and nothing after the third part.
abbrev triple_of : Option ℕ → Option ℕ → Option ℕ → Option Triple
triple_of (some a) (some b) (some c) = some (record { major = a; minor = b; patch = c })
triple_of _ _ _ = none

abbrev parse_parts : List String → Option Triple
parse_parts (a ∷ b ∷ c ∷ []) = triple_of (parse_u64 a) (parse_u64 b) (parse_u64 c)
parse_parts _ = none

unfoldable pub parse_triple : String → Option Triple
parse_triple s = parse_parts (split b'.' s)

-- `Ord` on triples: the first difference decides.
abbrev pub then_cmp : Ordering → Ordering → Ordering
then_cmp Ordering.lt o = Ordering.lt
then_cmp Ordering.eq o = o
then_cmp Ordering.gt o = Ordering.gt

abbrev pub cmp_triple : Triple → Triple → Ordering
cmp_triple a b =
    then_cmp (compare a.major b.major)
      (then_cmp (compare a.minor b.minor) (compare a.patch b.patch))

abbrev cmp_parsed : Option Triple → Option Triple → Option Ordering
cmp_parsed (some a) (some b) = some (cmp_triple a b)
cmp_parsed _ _ = none

unfoldable pub software_cmp : String → String → Option Ordering
software_cmp a b = cmp_parsed (parse_triple a) (parse_triple b)

-- `== Some(Ordering::Less)`
abbrev pub is_less : Option Ordering → Bool
is_less (some Ordering.lt) = true
is_less _ = false

unfoldable pub preflight : Option VersionInfo → VersionInfo → Preflight
preflight none desired = need_install
preflight (some cur) desired = elim (compare cur.protocol_version desired.protocol_version) [
  | Ordering.gt ↦ client_too_old
  | Ordering.lt ↦ need_install
  | Ordering.eq ↦ elim (is_less (software_cmp cur.software_version desired.software_version)) [
    | true ↦ need_install
    | false ↦ connect
  ]
]

unfoldable pub should_replace : Option VersionInfo → VersionInfo → Bool
should_replace none desired = true
should_replace (some cur) desired = elim (compare cur.protocol_version desired.protocol_version) [
  | Ordering.lt ↦ true
  | Ordering.gt ↦ false
  | Ordering.eq ↦ is_less (software_cmp cur.software_version desired.software_version)
]
