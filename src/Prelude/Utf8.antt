-- ===== src/Prelude/Utf8.antt =====
-- `std::str::from_utf8` and `str::trim`, over the bytes of a text.
pub mod Trim
use mathlib.Core.List.{reverse}
use remote_workspace.Prelude.{
  ℕ, Bytes, Bool, true, false, ◌&&◌, ◌||◌, Option, none, some, List, [], ◌∷◌, leb, ◌==◌,
  if◌then◌else◌,
}

abbrev between : ℕ → ℕ → ℕ → Bool
between lo hi b = leb lo b && leb b hi

-- What may come next: a character, or so many continuation bytes, the first of them in a range of
-- its own after E0, ED, F0 and F4.
pub data Expect : Type 0 where
  any tail1 tail2 tail3 after_e0 after_ed after_f0 after_f4 : Expect

abbrev lead : ℕ → Option Expect
lead b =
    if leb b 0x7f
    then some any
    else if between 0xc2 0xdf b
    then some tail1
    else if b == 0xe0
    then some after_e0
    else if b == 0xed
    then some after_ed
    else if between 0xe1 0xef b
    then some tail2
    else if b == 0xf0
    then some after_f0
    else if between 0xf1 0xf3 b
    then some tail3
    else if b == 0xf4
    then some after_f4
    else none

abbrev expect : Expect → ℕ → Option Expect
expect any b = lead b
expect tail1 b = if between 0x80 0xbf b then some any else none
expect tail2 b = if between 0x80 0xbf b then some tail1 else none
expect tail3 b = if between 0x80 0xbf b then some tail2 else none
expect after_e0 b = if between 0xa0 0xbf b then some tail1 else none
expect after_ed b = if between 0x80 0x9f b then some tail1 else none
expect after_f0 b = if between 0x90 0xbf b then some tail2 else none
expect after_f4 b = if between 0x80 0x8f b then some tail2 else none

valid_from : Option Expect → Bytes → Bool
valid_from none bytes = false
valid_from (some any) [] = true
valid_from (some _) [] = false
valid_from (some e) (b ∷ bytes) = valid_from (expect e b) bytes

unfoldable pub is_utf8 : Bytes → Bool
unfolding valid_from
is_utf8 = valid_from (some any)

-- The White_Space characters, by the length of their encodings.
abbrev white1 : ℕ → Bool
white1 a = between 0x09 0x0d a || a == 0x20

abbrev white2 : ℕ → ℕ → Bool
white2 a b = a == 0xc2 && (b == 0x85 || b == 0xa0)

abbrev white3 : ℕ → ℕ → ℕ → Bool
white3 a b c =
    (a == 0xe1 && b == 0x9a && c == 0x80)
    || ((a == 0xe2
          && ((b == 0x80 && (between 0x80 0x8a c || c == 0xa8 || c == 0xa9 || c == 0xaf))
              || (b == 0x81 && c == 0x9f)))
        || (a == 0xe3 && b == 0x80 && c == 0x80))

unfoldable pub trim_start : Bytes → Bytes
trim_start [] = []
trim_start (a ∷ []) = if white1 a then [] else a ∷ []
trim_start (a ∷ b ∷ []) =
    let s = trim_start (b ∷ []) in if white1 a then s else if white2 a b then [] else a ∷ b ∷ []
trim_start (a ∷ b ∷ c ∷ rest) =
    let s1 = trim_start (b ∷ c ∷ rest) in
    let s2 = trim_start (c ∷ rest) in
    let s3 = trim_start rest in
    if white1 a
    then s1
    else if white2 a b
    then s2
    else if white3 a b c
    then s3
    else a ∷ b ∷ c ∷ rest

-- The same on the reversed bytes, so from the end.
unfoldable pub trim_reversed : Bytes → Bytes
trim_reversed [] = []
trim_reversed (a ∷ []) = if white1 a then [] else a ∷ []
trim_reversed (a ∷ b ∷ []) =
    let s = trim_reversed (b ∷ []) in if white1 a then s else if white2 b a then [] else a ∷ b ∷ []
trim_reversed (a ∷ b ∷ c ∷ rest) =
    let s1 = trim_reversed (b ∷ c ∷ rest) in
    let s2 = trim_reversed (c ∷ rest) in
    let s3 = trim_reversed rest in
    if white1 a
    then s1
    else if white2 b a
    then s2
    else if white3 c b a
    then s3
    else a ∷ b ∷ c ∷ rest

unfoldable pub trim : Bytes → Bytes
unfolding trim_start trim_reversed
trim s = reverse (trim_reversed (reverse (trim_start s)))

abbrev pub is_empty {ℓ} : {A : Type ℓ} → List A → Bool
is_empty [] = true
is_empty (x ∷ xs) = false
