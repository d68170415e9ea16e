-- ===== src/Prelude/Utf8/Trim.antt =====
-- What `trim` does to a text that begins with a brace: JSON objects and what a crash leaves of them.
use mathlib.Core.List.{reverse, reverse-append, reverse-reverse}
use remote_workspace.Prelude.{
  Bytes, ◌≡◌, refl, sym, ap, ◌∙◌, Bool, true, false, [], ◌∷◌, ◌++◌, arith, if◌then◌else◌,
}
use remote_workspace.Prelude.Utf8.{trim_start, trim_reversed, trim, white1, white2, white3}

trim_start-brace : (s : Bytes) → trim_start (b'{' ∷ s) ≡ b'{' ∷ s
unfolding trim_start
trim_start-brace [] = refl
trim_start-brace (b ∷ []) = refl
trim_start-brace (b ∷ c ∷ s) = refl

trim_reversed-brace : (s : Bytes) → trim_reversed (b'}' ∷ s) ≡ b'}' ∷ s
unfolding trim_reversed
trim_reversed-brace [] = refl
trim_reversed-brace (b ∷ []) = ground arith
trim_reversed-brace (b ∷ c ∷ s) = ground arith

reverse-object : (s : Bytes) → reverse (b'{' ∷ (s ++ b'}' ∷ [])) ≡ b'}' ∷ reverse (b'{' ∷ s)
reverse-object s = reverse-append (b'{' ∷ s) (b'}' ∷ [])

-- An object's text is not trimmed.
pub trim-object : (s : Bytes) → trim (b'{' ∷ (s ++ b'}' ∷ [])) ≡ b'{' ∷ (s ++ b'}' ∷ [])
unfolding trim
trim-object s =
    ap (λ t. reverse (trim_reversed (reverse t))) (trim_start-brace (s ++ b'}' ∷ []))
    ∙ ap (λ t. reverse (trim_reversed t)) (reverse-object s)
    ∙ ap reverse (trim_reversed-brace (reverse (b'{' ∷ s)) ∙ sym (reverse-object s))
    ∙ reverse-reverse _

if-holds {ℓ} : (P : Bytes → Type ℓ) (b : Bool) (x y : Bytes) → P x → P y → P (if b then x else y)
if-holds P true x y px py = px
if-holds P false x y px py = py

-- `t` is what is left of `s` when some bytes are taken off its front.
abbrev Leaves : Bytes → Bytes → Type 0
Leaves s t = (u : Bytes) × (s ≡ u ++ t)

Leaves-cons : (a : _) (s t : Bytes) → Leaves s t → Leaves (a ∷ s) t
Leaves-cons a s t (u, e) = (a ∷ u, ap (λ r. a ∷ r) e)

trim_reversed-Leaves : (r : Bytes) → Leaves r (trim_reversed r)
unfolding trim_reversed
trim_reversed-Leaves [] = ([], refl)
trim_reversed-Leaves (a ∷ []) = if-holds (Leaves (a ∷ [])) (white1 a) _ _ (a ∷ [], refl) ([], refl)
trim_reversed-Leaves (a ∷ b ∷ []) =
    if-holds (Leaves (a ∷ b ∷ [])) (white1 a) _ _
      (Leaves-cons a _ _ (trim_reversed-Leaves (b ∷ [])))
      (if-holds (Leaves (a ∷ b ∷ [])) (white2 b a) _ _ (a ∷ b ∷ [], refl) ([], refl))
trim_reversed-Leaves (a ∷ b ∷ c ∷ rest) =
    if-holds (Leaves (a ∷ b ∷ c ∷ rest)) (white1 a) _ _
      (Leaves-cons a _ _ (trim_reversed-Leaves (b ∷ c ∷ rest)))
      (if-holds (Leaves (a ∷ b ∷ c ∷ rest)) (white2 b a) _ _
        (Leaves-cons a _ _ (Leaves-cons b _ _ (trim_reversed-Leaves (c ∷ rest))))
        (if-holds (Leaves (a ∷ b ∷ c ∷ rest)) (white3 c b a) _ _
          (Leaves-cons a _ _ (Leaves-cons b _ _ (Leaves-cons c _ _ (trim_reversed-Leaves rest))))
          ([], refl)))

abbrev EndsWithBrace : Bytes → Type 0
EndsWithBrace t = (q : Bytes) × (t ≡ q ++ b'{' ∷ [])

trim_reversed-EndsWithBrace : (r : Bytes) → EndsWithBrace (trim_reversed (r ++ b'{' ∷ []))
unfolding trim_reversed
trim_reversed-EndsWithBrace [] = ([], refl)
trim_reversed-EndsWithBrace (a ∷ []) =
    if-holds EndsWithBrace (white1 a) _ _ ([], refl) (a ∷ [], refl)
trim_reversed-EndsWithBrace (a ∷ b ∷ []) =
    if-holds EndsWithBrace (white1 a) _ _
      (if-holds EndsWithBrace (white1 b) _ _ ([], refl) (b ∷ [], refl))
      (if-holds EndsWithBrace (white2 b a) _ _ ([], refl) (a ∷ b ∷ [], refl))
trim_reversed-EndsWithBrace (a ∷ b ∷ c ∷ rest) =
    if-holds EndsWithBrace (white1 a) _ _ (trim_reversed-EndsWithBrace (b ∷ c ∷ rest)) (
      if-holds EndsWithBrace (white2 b a) _ _ (trim_reversed-EndsWithBrace (c ∷ rest)) (
        if-holds EndsWithBrace (white3 c b a) _ _ (trim_reversed-EndsWithBrace rest)
          (a ∷ b ∷ c ∷ rest, refl)))

reverse-brace : (s : Bytes) → reverse (b'{' ∷ s) ≡ reverse s ++ b'{' ∷ []
reverse-brace s = reverse-append (b'{' ∷ []) s

unreverse-brace : (q : Bytes) → reverse (q ++ b'{' ∷ []) ≡ b'{' ∷ reverse q
unreverse-brace q = reverse-append q (b'{' ∷ [])

-- Of a text that begins with a brace the trim keeps a beginning, the brace included.
pub trim-brace :
    (s : Bytes) → (q u : Bytes) × (trim (b'{' ∷ s) ≡ b'{' ∷ q) × (b'{' ∷ s ≡ (b'{' ∷ q) ++ u)
unfolding trim
trim-brace s =
    let (u, eu) = trim_reversed-Leaves (reverse s ++ b'{' ∷ []) in
    let (q, eq) = trim_reversed-EndsWithBrace (reverse s) in
    (
      reverse q,
      reverse u,
      ap (λ t. reverse (trim_reversed (reverse t))) (trim_start-brace s)
          ∙ ap (λ t. reverse (trim_reversed t)) (reverse-brace s)
          ∙ ap reverse eq
          ∙ unreverse-brace q,
      sym (unreverse-brace (reverse s) ∙ ap (λ t. b'{' ∷ t) (reverse-reverse s))
          ∙ ap reverse (eu ∙ ap (λ t. u ++ t) eq)
          ∙ reverse-append u (q ++ b'{' ∷ [])
          ∙ ap (λ t. t ++ reverse u) (unreverse-brace q),
    )
