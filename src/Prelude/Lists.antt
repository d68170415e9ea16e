-- ===== src/Prelude/Lists.antt =====
-- Lists measured and indexed by native numbers, under the library's names.
use Prim.Native.Nat.{ℕ, zero, suc, ◌+◌, ◌-◌, ◌≤◌, ◌<◌, min}
use mathlib.Core.Path.{◌≡◌, refl, ap, sym, ◌∙◌}
use mathlib.Core.Logic.{◌≢◌}
use mathlib.Core.List.{List, [], ◌∷◌, ◌++◌, map}
use mathlib.Core.Option.{Option, none, some}
use native.Mathlib.Omega.{arith}

module _ {ℓ} {A : Type ℓ} where
  abbrev pub length : List A → ℕ
  length [] = 0
  length (x ∷ xs) = suc (length xs)

  abbrev pub get_elem? : List A → ℕ → Option A
  get_elem? [] i = none
  get_elem? (x ∷ xs) zero = some x
  get_elem? (x ∷ xs) (suc i) = get_elem? xs i

  -- A write out of bounds changes nothing.
  abbrev pub set : List A → ℕ → A → List A
  set [] i v = []
  set (x ∷ xs) zero v = v ∷ xs
  set (x ∷ xs) (suc i) v = x ∷ set xs i v

  pub length-append : (xs ys : List A) → length (xs ++ ys) ≡ length xs + length ys
  length-append [] ys = omega arith
  length-append (x ∷ xs) ys = omega (arith, length-append xs ys)

module _ {ℓ} {A : Type ℓ} where
  pub length-set : (xs : List A) (i : ℕ) (v : A) → length (set xs i v) ≡ length xs
  length-set [] i v = refl
  length-set (x ∷ xs) zero v = refl
  length-set (x ∷ xs) (suc i) v = ap suc (length-set xs i v)

  pub get_elem?-set_self :
      (xs : List A) (i : ℕ) (v : A) → i < length xs → get_elem? (set xs i v) i ≡ some v
  get_elem?-set_self [] i v h = elim h [ ]
  get_elem?-set_self (x ∷ xs) zero v h = refl
  get_elem?-set_self (x ∷ xs) (suc i) v h = get_elem?-set_self xs i v (omega arith)

  pub get_elem?-set_ne :
      (xs : List A) {i j : ℕ} (v : A) → i ≢ j → get_elem? (set xs i v) j ≡ get_elem? xs j
  get_elem?-set_ne [] v h = refl
  get_elem?-set_ne (x ∷ xs) {i = zero} {j = zero} v h = absurd (h refl)
  get_elem?-set_ne (x ∷ xs) {i = zero} {j = suc j} v h = refl
  get_elem?-set_ne (x ∷ xs) {i = suc i} {j = zero} v h = refl
  get_elem?-set_ne (x ∷ xs) {i = suc i} {j = suc j} v h = get_elem?-set_ne xs v (λ e. h (ap suc e))

module _ {ℓ} {A : Type ℓ} where
  abbrev pub get_or : List A → ℕ → A → A
  get_or [] i d = d
  get_or (x ∷ xs) zero d = x
  get_or (x ∷ xs) (suc i) d = get_or xs i d

  abbrev pub take : ℕ → List A → List A
  take zero xs = []
  take (suc n) [] = []
  take (suc n) (x ∷ xs) = x ∷ take n xs

  abbrev pub drop : ℕ → List A → List A
  drop zero xs = xs
  drop (suc n) [] = []
  drop (suc n) (x ∷ xs) = drop n xs

  abbrev pub replicate : ℕ → A → List A
  replicate zero a = []
  replicate (suc n) a = a ∷ replicate n a

  pub take-append-drop : (n : ℕ) (xs : List A) → take n xs ++ drop n xs ≡ xs
  take-append-drop zero xs = refl
  take-append-drop (suc n) [] = refl
  take-append-drop (suc n) (x ∷ xs) = rw (take-append-drop n xs)

  pub length-take : (n : ℕ) (xs : List A) → length (take n xs) ≡ min n (length xs)
  length-take zero xs = omega arith
  length-take (suc n) [] = omega arith
  length-take (suc n) (x ∷ xs) = omega (arith, length-take n xs)

  pub length-drop : (n : ℕ) (xs : List A) → length (drop n xs) ≡ length xs - n
  length-drop zero xs = omega arith
  length-drop (suc n) [] = omega arith
  length-drop (suc n) (x ∷ xs) = omega (arith, length-drop n xs)

  pub length-replicate : (n : ℕ) (a : A) → length (replicate n a) ≡ n
  length-replicate zero a = refl
  length-replicate (suc n) a = ap suc (length-replicate n a)

  pub length-map {κ} : {B : Type κ} (xs : List A) (f : A → B) → length (map f xs) ≡ length xs
  length-map [] f = refl
  length-map (x ∷ xs) f = ap suc (length-map xs f)

module _ {ℓ} {A : Type ℓ} where
  pub take-append_of_lt : (k : ℕ) (xs ys : List A) → k < length xs → take k (xs ++ ys) ≡ take k xs
  take-append_of_lt zero xs ys h = refl
  take-append_of_lt (suc k) [] ys h = elim h [ ]
  take-append_of_lt (suc k) (x ∷ xs) ys h =
      ap (λ t. x ∷ t) (take-append_of_lt k xs ys (omega arith))

  pub take-append_self : (xs ys : List A) → take (length xs) (xs ++ ys) ≡ xs
  take-append_self [] ys = refl
  take-append_self (x ∷ xs) ys = ap (λ t. x ∷ t) (take-append_self xs ys)

  pub take-eq_of_le : (k : ℕ) (xs : List A) → length xs ≤ k → take k xs ≡ xs
  take-eq_of_le zero [] h = refl
  take-eq_of_le zero (x ∷ xs) h = elim h [ ]
  take-eq_of_le (suc k) [] h = refl
  take-eq_of_le (suc k) (x ∷ xs) h = ap (λ t. x ∷ t) (take-eq_of_le k xs (omega arith))

  pub drop-ne-nil : (k : ℕ) (xs : List A) → k < length xs → drop k xs ≢ []
  drop-ne-nil zero [] h e = elim h [ ]
  drop-ne-nil zero (x ∷ xs) h e = cc
  drop-ne-nil (suc k) [] h e = elim h [ ]
  drop-ne-nil (suc k) (x ∷ xs) h e = drop-ne-nil k xs (omega arith) e

module _ {ℓ} {A : Type ℓ} where
  pub take-take : (a b : ℕ) (xs : List A) → a ≤ b → take a (take b xs) ≡ take a xs
  take-take zero b xs h = refl
  take-take (suc a) zero xs h = elim h [ ]
  take-take (suc a) (suc b) [] h = refl
  take-take (suc a) (suc b) (x ∷ xs) h = ap (λ t. x ∷ t) (take-take a b xs (omega arith))

  drop-nil : (b : ℕ) → drop {A = A} b [] ≡ []
  drop-nil zero = refl
  drop-nil (suc b) = refl

  pub drop-drop : (a b c : ℕ) (xs : List A) → c ≡ a + b → drop c xs ≡ drop b (drop a xs)
  drop-drop zero b c xs h = ap (λ n. drop n xs) (omega arith)
  drop-drop (suc a) b zero xs h = absurd (omega arith)
  drop-drop (suc a) b (suc c) [] h = sym (drop-nil b)
  drop-drop (suc a) b (suc c) (x ∷ xs) h = drop-drop a b c xs (omega arith)

  pub drop-eq-nil : (a : ℕ) (xs : List A) → length xs ≤ a → drop a xs ≡ []
  drop-eq-nil a [] h = drop-nil a
  drop-eq-nil zero (x ∷ xs) h = elim h [ ]
  drop-eq-nil (suc a) (x ∷ xs) h = drop-eq-nil a xs (omega arith)

module _ {ℓ} {A : Type ℓ} where
  pub take-none : (k : ℕ) (xs : List A) → k ≡ 0 → take k xs ≡ []
  take-none zero xs h = refl
  take-none (suc k) xs h = absurd (omega arith)

  pub drop-none : (k : ℕ) (xs : List A) → k ≡ 0 → drop k xs ≡ xs
  drop-none zero xs h = refl
  drop-none (suc k) xs h = absurd (omega arith)

  pub drop-at : (j k : ℕ) (xs : List A) → j ≡ k → drop j xs ≡ drop k xs
  drop-at j k xs h = ap (λ i. drop i xs) h

  pub take-at : (j k : ℕ) (xs : List A) → j ≡ k → take j xs ≡ take k xs
  take-at j k xs h = ap (λ i. take i xs) h

  -- Two lists joined, and cut.
  pub take-append :
      (n : ℕ) (xs ys : List A) → take n (xs ++ ys) ≡ take n xs ++ take (n - length xs) ys
  take-append zero xs ys = sym (take-none (0 - length xs) ys (omega arith))
  take-append (suc n) [] ys = take-at (suc n) (suc n - 0) ys (omega arith)
  take-append (suc n) (x ∷ xs) ys =
      ap (λ t. x ∷ t)
        (take-append n xs ys
          ∙ ap (λ t. take n xs ++ t)
              (take-at (n - length xs) (suc n - suc (length xs)) ys (omega arith)))

  pub drop-append :
      (n : ℕ) (xs ys : List A) → drop n (xs ++ ys) ≡ drop n xs ++ drop (n - length xs) ys
  drop-append zero xs ys = ap (λ t. xs ++ t) (sym (drop-none (0 - length xs) ys (omega arith)))
  drop-append (suc n) [] ys = drop-at (suc n) (suc n - 0) ys (omega arith)
  drop-append (suc n) (x ∷ xs) ys =
      drop-append n xs ys
      ∙ ap (λ t. drop n xs ++ t)
          (drop-at (n - length xs) (suc n - suc (length xs)) ys (omega arith))
