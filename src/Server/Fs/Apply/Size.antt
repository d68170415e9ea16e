-- ===== src/Server/Fs/Apply/Size.antt =====
-- The size of an edited text (Server/Fs/Apply.antt).
use remote_workspace.Prelude.{
  ℕ, zero, suc, ◌+◌, ◌*◌, ◌-◌, ◌≤◌, min, String, Bytes, List, [], ◌∷◌, ◌≡◌, ◌≢◌, refl, inl, inr,
  length, arith, Bool-cases, subst,
}
use remote_workspace.Protocol.Error.{ok, >>=-eq-ok}
use remote_workspace.Protocol.Messages.{EditSpec}
use remote_workspace.Server.Fs.Text.{matches, replace, replace_first}
use remote_workspace.Server.Fs.Text.Length.{length-replace, length-replace_first, count_from-le}
use remote_workspace.Server.Fs.Apply.{
  check_edit, check_edits, edit_prefix, max_text_bytes, usize_max, projected, replaced_text,
  apply_found, apply_edit, apply_edits,
}

mul_le : (a b c : ℕ) → a ≤ b → a * c ≤ b * c
mul_le zero b c h = omega arith
mul_le (suc a) zero c h = elim h [ ]
mul_le (suc a) (suc b) c h = omega (arith, mul_le a b c (omega arith))

product_le : (a b m n : ℕ) → a ≤ m → b ≤ n → a * b ≤ m * n
product_le a b m n h k = omega (arith, mul_le a m b h, mul_le b n m k)

length-pos : (p : Bytes) → p ≢ [] → 1 ≤ length p
length-pos [] h = absurd (h refl)
length-pos (a ∷ p) h = omega arith

matches-le : (content pat : Bytes) → pat ≢ [] → matches content pat * length pat ≤ length content
unfolding matches
matches-le content pat ne = omega (arith, count_from-le pat 0 content ne (omega arith))

count_le : (content pat : Bytes) → pat ≢ [] → matches content pat ≤ length content
count_le content pat ne = omega (
  arith,
  matches-le content pat ne,
  mul_le 1 (length pat) (matches content pat) (length-pos pat ne),
)

-- No saturation: the products stay far below 2^64.
exact :
    (n k a b : ℕ)
    → k * a ≤ n
    → n ≤ max_text_bytes
    → k ≤ max_text_bytes
    → b ≤ max_text_bytes
    → (r : ℕ) → r + k * a ≡ n + k * b
    → min (n - min (k * a) usize_max + min (k * b) usize_max) usize_max ≡ r
exact n k a b h1 h2 h3 h4 r h5 = omega (arith, product_le k b max_text_bytes max_text_bytes h3 h4)

-- The size computed before a replacement, in saturating 64-bit arithmetic, is the size of the text
-- that it gives, if the pattern is not empty and was found and the text and the new text are within
-- the cap.
pub projected-eq :
    (content : Bytes) (e : EditSpec)
    → e.old_text ≢ []
    → length content ≤ max_text_bytes
    → length e.new_text ≤ max_text_bytes
    → 1 ≤ matches content e.old_text
    → projected content e (matches content e.old_text) ≡ length (replaced_text content e)
unfolding projected replaced_text
projected-eq content e ne h1 h2 h3 = elim (Bool-cases e.replace_all) [
  | inl all ↦ rw all (
      exact (length content) (matches content e.old_text) (length e.old_text) (length e.new_text)
        (matches-le content e.old_text ne) h1 (omega (arith, count_le content e.old_text ne)) h2
        (length (replace content e.old_text e.new_text))
        (length-replace content e.old_text e.new_text ne))
  | inr one ↦ rw one (
      exact (length content) 1 (length e.old_text) (length e.new_text)
        (omega (
          arith,
          matches-le content e.old_text ne,
          mul_le 1 (matches content e.old_text) (length e.old_text) h3,
        ))
        h1 (omega arith) h2 (length (replace_first content e.old_text e.new_text))
        (omega (arith, length-replace_first content e.old_text e.new_text ne h3)))
]

check_edit-ok :
    (at : String) (e : EditSpec)
    → check_edit at e ≡ ok tt
    → (e.old_text ≢ []) × (length e.new_text ≤ max_text_bytes)
unfolding check_edit
check_edit-ok at e h = ground arith

apply_found-ok :
    (at path : String) (content : Bytes) (e : EditSpec) (found : ℕ) (c : Bytes)
    → apply_found at path content e found ≡ ok c
    → (1 ≤ found) × ((projected content e found ≤ max_text_bytes) × (c ≡ replaced_text content e))
unfolding apply_found
apply_found-ok at path content e found c h = ground arith

apply_edit-le :
    (at path : String) (content : Bytes) (e : EditSpec) (c : Bytes)
    → check_edit at e ≡ ok tt
    → length content ≤ max_text_bytes
    → apply_edit at path content e ≡ ok c
    → length c ≤ max_text_bytes
unfolding apply_edit
apply_edit-le at path content e c h1 h2 h3 =
    let (ne, new_le) = check_edit-ok at e h1 in
    let (found, (le, eq)) = apply_found-ok at path content e (matches content e.old_text) c h3 in
    rw eq (subst (λ n. n ≤ max_text_bytes) (projected-eq content e ne h2 new_le found) le)

-- A list of accepted replacements that is applied to a text within the cap of 4 MiB gives a text
-- within the cap.
pub apply_edits-le :
    (path : String) (index total : ℕ) (content : Bytes) (es : List EditSpec) (c : Bytes)
    → check_edits index total es ≡ ok tt
    → length content ≤ max_text_bytes
    → apply_edits path index total content es ≡ ok c
    → length c ≤ max_text_bytes
unfolding apply_edits check_edits
apply_edits-le path index total content [] c h1 h2 h3 = ground arith
apply_edits-le path index total content (e ∷ es) c h1 h2 h3 =
    let (u, accepted, rest) =
      >>=-eq-ok (check_edit (edit_prefix index total) e) (λ _. check_edits (index + 1) total es) tt
        h1 in
    let (d, applied, later) =
      >>=-eq-ok (apply_edit (edit_prefix index total) path content e)
        (λ c. apply_edits path (index + 1) total c es) c h3 in
    apply_edits-le path (index + 1) total d es c rest
      (apply_edit-le (edit_prefix index total) path content e d accepted h2 applied) later
