-- ===== src/Server/Fs/Text.antt =====
-- `str::matches(..).count()`, `str::replace` and `str::replacen(.., 1)` on UTF-8 bytes, where the
-- matches of a text are those of its bytes.
pub mod Length
use remote_workspace.Prelude.{
  ℕ, zero, suc, ◌+◌, ◌-◌, Bytes, Bool, true, false, List, [], ◌∷◌, ◌++◌, ◌&&◌, ◌==◌, length, drop,
  if◌then◌else◌,
}

unfoldable pub is_prefix : Bytes → Bytes → Bool
is_prefix [] s = true
is_prefix (a ∷ p) [] = false
is_prefix (a ∷ p) (b ∷ s) = a == b && is_prefix p s

-- The matches from left to right without overlap: `skip` bytes still belong to the last match.
unfoldable pub count_from : Bytes → ℕ → Bytes → ℕ
unfolding is_prefix
count_from pat skip [] = 0
count_from pat (suc skip) (b ∷ s) = count_from pat skip s
count_from pat zero (b ∷ s) = elim (is_prefix pat (b ∷ s)) [
  | true ↦ 1 + count_from pat (length pat - 1) s
  | false ↦ count_from pat zero s
]

unfoldable pub matches : Bytes → Bytes → ℕ
unfolding count_from
matches content pat = count_from pat 0 content

unfoldable pub replace_from : Bytes → Bytes → ℕ → Bytes → Bytes
unfolding is_prefix
replace_from pat new skip [] = []
replace_from pat new (suc skip) (b ∷ s) = replace_from pat new skip s
replace_from pat new zero (b ∷ s) = elim (is_prefix pat (b ∷ s)) [
  | true ↦ new ++ replace_from pat new (length pat - 1) s
  | false ↦ b ∷ replace_from pat new zero s
]

unfoldable pub replace : Bytes → Bytes → Bytes → Bytes
unfolding replace_from
replace content pat new = replace_from pat new 0 content

-- `replacen(pat, new, 1)`
unfoldable pub replace_first : Bytes → Bytes → Bytes → Bytes
unfolding is_prefix
replace_first [] pat new = []
replace_first (b ∷ s) pat new = elim (is_prefix pat (b ∷ s)) [
  | true ↦ new ++ drop (length pat) (b ∷ s)
  | false ↦ b ∷ replace_first s pat new
]
