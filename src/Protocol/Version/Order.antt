-- ===== src/Protocol/Version/Order.antt =====
-- The swap rule of version.rs as an order, beside the client's decision.
use Prim.Native.Nat.{Ordering}
use remote_workspace.Prelude.{◌≡◌, ◌≢◌, ◌↔◌, true, false, Option, some, arith}
use remote_workspace.Protocol.Version.{
  VersionInfo, need_install, preflight, should_replace, software_cmp, Triple, parse_triple,
  cmp_triple, cmp_parsed, is_less,
}

cmp_triple_trans :
    (a b c : Triple)
    → cmp_triple a b ≡ Ordering.lt
    → cmp_triple b c ≡ Ordering.lt
    → cmp_triple a c ≡ Ordering.lt
cmp_triple_trans a b c p q = ground arith

cmp_triple_asymm : (a b : Triple) → cmp_triple a b ≡ Ordering.lt → cmp_triple b a ≢ Ordering.lt
cmp_triple_asymm a b p q = ground arith

parsed_trans :
    (a b c : Option Triple)
    → is_less (cmp_parsed a b) ≡ true
    → is_less (cmp_parsed b c) ≡ true
    → is_less (cmp_parsed a c) ≡ true
parsed_trans (some a) (some b) (some c) p q = ground (arith, cmp_triple_trans a b c)
parsed_trans _ _ _ p q = cc

parsed_asymm :
    (a b : Option Triple) → is_less (cmp_parsed a b) ≡ true → is_less (cmp_parsed b a) ≡ false
parsed_asymm (some a) (some b) p = ground (arith, cmp_triple_asymm a b)
parsed_asymm _ _ p = cc

-- A release that would replace the installed one is not replaced by it.
pub should_replace_asymm :
    (a b : VersionInfo) → should_replace (some a) b ≡ true → should_replace (some b) a ≡ false
unfolding should_replace software_cmp
should_replace_asymm a b h =
    ground (arith, parsed_asymm (parse_triple a.software_version) (parse_triple b.software_version))

-- Replacing a release is transitive.
pub should_replace_trans :
    (a b c : VersionInfo)
    → should_replace (some a) b ≡ true
    → should_replace (some b) c ≡ true
    → should_replace (some a) c ≡ true
unfolding should_replace software_cmp
should_replace_trans a b c p q = ground (
  arith,
  parsed_trans (parse_triple a.software_version) (parse_triple b.software_version)
      (parse_triple c.software_version),
)

-- The client decides to install exactly where the swap on the host would happen.
pub preflight-should_replace :
    (installed : Option VersionInfo) (desired : VersionInfo)
    → (preflight installed desired ≡ need_install) ↔ (should_replace installed desired ≡ true)
unfolding preflight should_replace
preflight-should_replace installed desired = ground arith
