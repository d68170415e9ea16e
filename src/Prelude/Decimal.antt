-- ===== src/Prelude/Decimal.antt =====
-- Rust's `u64::from_str`, `Display` for `u64`, `str::split` at one character and
-- `str::strip_prefix`, over the native texts.
use Prim.Native.Char.{Char, code}
use Prim.Native.String.{[] as nil, ◌∷◌ as ◌▹◌}
use text.Mathlib.TextLemmas.{cons-append, nil-append}
use remote_workspace.Prelude.{
  ℕ, zero, suc, ◌+◌, ◌-◌, ◌*◌, ◌/◌, ◌%◌, ◌^◌, ◌<◌, String, ◌≡◌, refl, ap, ◌∙◌, Bool, true, false,
  ◌&&◌, ◌||◌, Option, none, some, List, [], ◌∷◌, arith, ltb, leb, ◌==◌, if◌then◌else◌, Bool-cases,
  inl, inr, ◌<>◌,
}

abbrev pub u64_mod : ℕ
u64_mod = 2 ^ 64

abbrev is_digit : ℕ → Bool
is_digit c = leb 48 c && leb c 57

digits : ℕ → String → Option ℕ
digits n nil = some n
digits n (c ▹ rest) =
    let m : ℕ = n * 10 + (code c - 48) in
    let more : Option ℕ = digits m rest in if is_digit (code c) && ltb m u64_mod then more else none

-- A leading `+` is accepted, and a text with no digit is not.
unfoldable pub parse_u64 : String → Option ℕ
unfolding digits
parse_u64 nil = none
parse_u64 (c ▹ nil) = digits 0 (c ▹ nil)
parse_u64 (c ▹ d ▹ rest) = if code c == 43 then digits 0 (d ▹ rest) else digits 0 (c ▹ d ▹ rest)

digit : ℕ → Char
digit zero = "0"
digit (suc zero) = "1"
digit (suc (suc zero)) = "2"
digit (suc (suc (suc zero))) = "3"
digit (suc (suc (suc (suc zero)))) = "4"
digit (suc (suc (suc (suc (suc zero))))) = "5"
digit (suc (suc (suc (suc (suc (suc zero)))))) = "6"
digit (suc (suc (suc (suc (suc (suc (suc zero))))))) = "7"
digit (suc (suc (suc (suc (suc (suc (suc (suc zero)))))))) = "8"
digit _ = "9"

show_onto : ℕ → ℕ → String → String
show_onto zero n acc = acc
show_onto (suc fuel) n acc =
    let rest = show_onto fuel (n / 10) (digit (n % 10) ▹ acc) in
    if ltb n 10 then digit n ▹ acc else rest

-- The number has fewer digits than its own successor counts.
unfoldable pub show : ℕ → String
unfolding show_onto digit
show n = show_onto (suc n) n nil

abbrev cons_head : Char → List String → List String
cons_head c [] = (c ▹ nil) ∷ []
cons_head c (s ∷ rest) = (c ▹ s) ∷ rest

unfoldable pub split : ℕ → String → List String
split at nil = nil ∷ []
split at (c ▹ s) = let rest = split at s in if code c == at then nil ∷ rest else cons_head c rest

unfoldable pub strip_prefix : String → String → Option String
strip_prefix nil s = some s
strip_prefix (c ▹ p) nil = none
strip_prefix (c ▹ p) (d ▹ s) = if code c == code d then strip_prefix p s else none

code-digit : (d : ℕ) → d < 10 → code (digit d) ≡ 48 + d
unfolding digit
code-digit zero h = refl
code-digit (suc zero) h = refl
code-digit (suc (suc zero)) h = refl
code-digit (suc (suc (suc zero))) h = refl
code-digit (suc (suc (suc (suc zero)))) h = refl
code-digit (suc (suc (suc (suc (suc zero))))) h = refl
code-digit (suc (suc (suc (suc (suc (suc zero)))))) h = refl
code-digit (suc (suc (suc (suc (suc (suc (suc zero))))))) h = refl
code-digit (suc (suc (suc (suc (suc (suc (suc (suc zero)))))))) h = refl
code-digit (suc (suc (suc (suc (suc (suc (suc (suc (suc zero))))))))) h = refl
code-digit (suc (suc (suc (suc (suc (suc (suc (suc (suc (suc n)))))))))) h = absurd (omega arith)

digits-digit :
    (n d : ℕ) (rest : String)
    → d < 10
    → n * 10 + d < u64_mod
    → digits n (digit d ▹ rest) ≡ digits (n * 10 + d) rest
unfolding digits
digits-digit n d rest h fits = ground (arith, code-digit d h)

digits-show_onto :
    (fuel n : ℕ) (acc : String)
    → n < fuel
    → n < u64_mod
    → digits 0 (show_onto fuel n acc) ≡ digits n acc
unfolding show_onto
digits-show_onto zero n acc h fits = elim h [ ]
digits-show_onto (suc fuel) n acc h fits = ground (
  arith,
  digits-digit 0 n acc,
  digits-digit (n / 10) (n % 10) acc,
  digits-show_onto fuel (n / 10) (digit (n % 10) ▹ acc),
)

-- The text begins with a digit, so no sign is read.
abbrev BeginsWithDigit : String → Type 0
BeginsWithDigit nil = ⊥
BeginsWithDigit (c ▹ s) = is_digit (code c) ≡ true

show_onto-BeginsWithDigit :
    (fuel n : ℕ) (acc : String) → n < fuel → BeginsWithDigit (show_onto fuel n acc)
unfolding show_onto
show_onto-BeginsWithDigit zero n acc h = elim h [ ]
show_onto-BeginsWithDigit (suc fuel) n acc h = elim (Bool-cases (ltb n 10)) [
  | inl small ↦ rw small (let e = code-digit n (ground arith) in rw e (ground arith))
  | inr big ↦ rw big (show_onto-BeginsWithDigit fuel (n / 10) _ (ground arith))
]

parse_u64-digits : (s : String) → BeginsWithDigit s → parse_u64 s ≡ digits 0 s
unfolding parse_u64
parse_u64-digits nil h = absurd h
parse_u64-digits (c ▹ nil) h = refl
parse_u64-digits (c ▹ d ▹ rest) h = ground arith

-- A printed 64-bit number reads back.
pub parse_u64-show : (n : ℕ) → n < u64_mod → parse_u64 (show n) ≡ some n
unfolding show
parse_u64-show n fits =
    parse_u64-digits _ (show_onto-BeginsWithDigit (suc n) n nil (omega arith))
    ∙ digits-show_onto (suc n) n nil (omega arith) fits
    ∙ unfold digits in refl

-- What is read fits the type.
digits-lt : (n : ℕ) (s : String) (m : ℕ) → n < u64_mod → digits n s ≡ some m → m < u64_mod
unfolding digits
digits-lt n nil m h e = ground arith
digits-lt n (c ▹ rest) m h e = ground (arith, digits-lt (n * 10 + (code c - 48)) rest m)

pub parse_u64-lt : (s : String) (m : ℕ) → parse_u64 s ≡ some m → m < u64_mod
unfolding parse_u64
parse_u64-lt nil m e = cc
parse_u64-lt (c ▹ nil) m e = digits-lt 0 (c ▹ nil) m (omega arith) e
parse_u64-lt (c ▹ d ▹ rest) m e =
    ground (arith, digits-lt 0 (d ▹ rest) m, digits-lt 0 (c ▹ d ▹ rest) m)

-- A prefix that was put there is taken off again.
pub strip_prefix-append : (p s : String) → strip_prefix p (p <> s) ≡ some s
unfolding strip_prefix
strip_prefix-append nil s = rw nil-append
strip_prefix-append (c ▹ p) s = rw cons-append (ground (arith, strip_prefix-append p s))

-- `str::trim`: the White_Space characters go from both ends.
abbrev is_white : ℕ → Bool
is_white c =
    (leb 9 c && leb c 13)
    || (c == 32
        || (c == 0x85
            || (c == 0xa0
                || (c == 0x1680
                    || ((leb 0x2000 c && leb c 0x200a)
                        || (c == 0x2028
                            || (c == 0x2029 || (c == 0x202f || (c == 0x205f || c == 0x3000)))))))))

abbrev is_nil : String → Bool
is_nil nil = true
is_nil (c ▹ s) = false

trim_text_start : String → String
trim_text_start nil = nil
trim_text_start (c ▹ s) = let rest = trim_text_start s in if is_white (code c) then rest else c ▹ s

trim_text_end : String → String
trim_text_end nil = nil
trim_text_end (c ▹ s) =
    let t = trim_text_end s in if is_white (code c) && is_nil t then nil else c ▹ t

unfoldable pub trim_text : String → String
unfolding trim_text_start trim_text_end
trim_text s = trim_text_end (trim_text_start s)

abbrev AllDigits : String → Type 0
AllDigits nil = Unit
AllDigits (c ▹ s) = (is_digit (code c) ≡ true) × AllDigits s

show_onto-AllDigits :
    (fuel n : ℕ) (acc : String) → n < fuel → AllDigits acc → AllDigits (show_onto fuel n acc)
unfolding show_onto
show_onto-AllDigits zero n acc h d = elim h [ ]
show_onto-AllDigits (suc fuel) n acc h d = elim (Bool-cases (ltb n 10)) [
  | inl small ↦ rw small (let e = code-digit n (ground arith) in (rw e (ground arith), d))
  | inr big ↦
      let e = code-digit (n % 10) (omega arith) in
      rw big (show_onto-AllDigits fuel (n / 10) _ (ground arith) (rw e (ground arith), d))
]

trim_text_end-newline : (s : String) → AllDigits s → trim_text_end (s <> "\n") ≡ s
unfolding trim_text_end
trim_text_end-newline nil d = refl
trim_text_end-newline (c ▹ s) d = rw cons-append (ground (arith, trim_text_end-newline s d.1, d.0))

trim_text_start-digit : (s : String) → BeginsWithDigit s → trim_text_start (s <> "\n") ≡ s <> "\n"
unfolding trim_text_start
trim_text_start-digit nil h = absurd h
trim_text_start-digit (c ▹ s) h = rw cons-append (ground (arith, h))

-- A number that was printed on a line of its own reads back.
pub parse_u64-trim_text : (n : ℕ) → n < u64_mod → parse_u64 (trim_text (show n <> "\n")) ≡ some n
unfolding trim_text
parse_u64-trim_text n fits =
    ap (λ t. parse_u64 (trim_text_end t))
      (trim_text_start-digit (show n)
        (unfold show in show_onto-BeginsWithDigit (suc n) n nil (omega arith)))
    ∙ ap parse_u64 (
        trim_text_end-newline (show n)
          (unfold show in show_onto-AllDigits (suc n) n nil (omega arith) tt))
    ∙ parse_u64-show n fits
