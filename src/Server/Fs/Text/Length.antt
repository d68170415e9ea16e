-- ===== src/Server/Fs/Text/Length.antt =====
-- The sizes of what `replace` and `replace_first` give (Server/Fs/Text.antt).
use mathlib.Core.Path.{◌≡◌, refl, subst}
use mathlib.Core.Logic.{◌≢◌, inl, inr}
use native.Mathlib.Omega.{arith}
use remote_workspace.Prelude.{
  ℕ, zero, suc, ◌+◌, ◌*◌, ◌-◌, ◌≤◌, Bytes, true, false, [], ◌∷◌, length, drop, Bool-cases,
  length-append, length-drop,
}
use remote_workspace.Server.Fs.Text.{
  is_prefix, count_from, matches, replace_from, replace, replace_first,
}

pub is_prefix-le : (p s : Bytes) → is_prefix p s ≡ true → length p ≤ length s
unfolding is_prefix
is_prefix-le [] s h = omega arith
is_prefix-le (a ∷ p) [] h = ground arith
is_prefix-le (a ∷ p) (b ∷ s) h = ground (arith, is_prefix-le p s)

length-pos : (p : Bytes) → p ≢ [] → 1 ≤ length p
length-pos [] h = absurd (h refl)
length-pos (a ∷ p) h = omega arith

-- One more match, of `n` bytes, that `m` bytes replace.
one_more :
    (c n m l r : ℕ)
    → 1 ≤ n
    → l + (n - 1) + c * n ≡ r + c * m
    → m + l + (1 + c) * n ≡ suc r + (1 + c) * m
one_more c n m l r h e = omega arith

pub length-replace_from :
    (pat new : Bytes) (skip : ℕ) (s : Bytes)
    → pat ≢ []
    → skip ≤ length s
    → length (replace_from pat new skip s) + skip + count_from pat skip s * length pat
      ≡ length s + count_from pat skip s * length new
unfolding replace_from count_from
length-replace_from pat new zero [] ne h = omega arith
length-replace_from pat new (suc skip) [] ne h = elim h [ ]
length-replace_from pat new (suc skip) (b ∷ s) ne h =
    omega (arith, length-replace_from pat new skip s ne (omega arith))
length-replace_from pat new zero (b ∷ s) ne h = elim (Bool-cases (is_prefix pat (b ∷ s))) [
  | inl hit ↦
      rw
        (hit, replace_from, count_from, length-append new (replace_from pat new (length pat - 1) s))
        (omega (
          arith,
          length-pos pat ne,
          is_prefix-le pat (b ∷ s) hit,
          length-replace_from pat new (length pat - 1) s ne
              (omega (arith, length-pos pat ne, is_prefix-le pat (b ∷ s) hit)),
        ))
  | inr miss ↦
      rw (miss, replace_from, count_from)
        (omega (arith, length-replace_from pat new zero s ne (omega arith)))
]

pub length-replace :
    (content pat new : Bytes)
    → pat ≢ []
    → length (replace content pat new) + matches content pat * length pat
      ≡ length content + matches content pat * length new
unfolding replace matches
length-replace content pat new ne =
    omega (arith, length-replace_from pat new 0 content ne (omega arith))

miss_lem :
    (b : ℕ) (s pat : Bytes) → is_prefix pat (b ∷ s) ≡ false → matches (b ∷ s) pat ≡ matches s pat
unfolding matches count_from
miss_lem b s pat miss = rw (miss, count_from) refl

pub length-replace_first :
    (content pat new : Bytes)
    → pat ≢ []
    → 1 ≤ matches content pat
    → length (replace_first content pat new) + length pat ≡ length content + length new
unfolding replace_first matches count_from
length-replace_first [] pat new ne h = elim h [ ]
length-replace_first (b ∷ s) pat new ne h = elim (Bool-cases (is_prefix pat (b ∷ s))) [
  | inl hit ↦
      rw
        (
          hit,
          replace_first,
          length-append new (drop (length pat) (b ∷ s)),
          length-drop (length pat) (b ∷ s),
        )
        (omega (arith, is_prefix-le pat (b ∷ s) hit))
  | inr miss ↦
      rw (miss, replace_first)
        (omega
          (arith, length-replace_first s pat new ne (subst (λ n. 1 ≤ n) (miss_lem b s pat miss) h)))
]

-- The matches do not overlap, so they fit in the text.
pub count_from-le :
    (pat : Bytes) (skip : ℕ) (s : Bytes)
    → pat ≢ []
    → skip ≤ length s
    → skip + count_from pat skip s * length pat ≤ length s
unfolding count_from
count_from-le pat zero [] ne h = omega arith
count_from-le pat (suc skip) [] ne h = elim h [ ]
count_from-le pat (suc skip) (b ∷ s) ne h = omega (arith, count_from-le pat skip s ne (omega arith))
count_from-le pat zero (b ∷ s) ne h = elim (Bool-cases (is_prefix pat (b ∷ s))) [
  | inl hit ↦
      rw (hit, count_from)
        (omega (
          arith,
          length-pos pat ne,
          is_prefix-le pat (b ∷ s) hit,
          count_from-le pat (length pat - 1) s ne
              (omega (arith, length-pos pat ne, is_prefix-le pat (b ∷ s) hit)),
        ))
  | inr miss ↦ rw (miss, count_from) (omega (arith, count_from-le pat zero s ne (omega arith)))
]
