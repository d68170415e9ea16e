-- ===== src/Server/Exec/Output/Stream.antt =====
-- exec.rs, `push`: what a capture holds of all that it was given.
use mathlib.Core.List.{append-nil, append_assoc}
use remote_workspace.Prelude.{
  ℕ, zero, suc, ◌-◌, ◌≤◌, ◌<◌, ◌≡◌, ap, sym, ◌∙◌, min, Bytes, false, List, [], ◌∷◌, ◌++◌, inl, inr,
  length, take, drop, ◌==◌, Bool-cases, arith, length-append, length-take, length-drop, drop-drop,
  drop-append, drop-at, take-at, drop-none, take-none, le_of_lt, take-append,
}
use remote_workspace.Prelude.Decimal.{u64_mod}
use remote_workspace.Server.Exec.Output.{
  OutputCapture, StreamEvent, stdout, stderr, push, push_back, capture, capture_all, make_room,
  saturating_add, output_prefix_limit, output_suffix_limit,
}

-- The last bytes of a text.
abbrev pub last : ℕ → Bytes → Bytes
last n bytes = drop (length bytes - n) bytes

-- What is kept of a stream: its beginning, the end of the rest, and its length.
abbrev pub kept : Bytes → OutputCapture
kept bytes = record {
  prefix = take output_prefix_limit bytes;
  suffix = last output_suffix_limit (drop output_prefix_limit bytes);
  total_bytes = min (length bytes) (u64_mod - 1);
}

-- The last bytes of a text that is as long, and of one that is not.
last-long :
    (n : ℕ) (xs : Bytes) (b : ℕ)
    → suc n ≤ length xs
    → drop 1 (last (suc n) xs) ++ b ∷ [] ≡ last (suc n) (xs ++ b ∷ [])
last-long n xs b h =
    ap (λ t. t ++ b ∷ []) (sym (drop-drop (length xs - suc n) 1 (length xs - n) xs (omega arith)))
    ∙ ap (λ t. drop (length xs - n) xs ++ t)
        (sym (drop-none (length xs - n - length xs) (b ∷ []) (omega arith)))
    ∙ sym (drop-append (length xs - n) xs (b ∷ []))
    ∙ drop-at (length xs - n) (length (xs ++ b ∷ []) - suc n) (xs ++ b ∷ [])
        (omega (arith, length-append xs (b ∷ [])))

last-short : (n : ℕ) (xs : Bytes) → length xs ≤ n → last n xs ≡ xs
last-short n xs h = drop-none (length xs - n) xs (omega arith)

-- A ring that holds the last bytes holds the last bytes after one more.
make_room-last :
    (n : ℕ) (xs : Bytes) (b : ℕ)
    → make_room (suc n) (last (suc n) xs) ++ b ∷ [] ≡ last (suc n) (xs ++ b ∷ [])
make_room-last n xs b = elim (Bool-cases (length (last (suc n) xs) == suc n)) [
  | inl full ↦ rw full (last-long n xs b (ground (arith, length-drop (length xs - suc n) xs)))
  | inr room ↦ rw room (
      ap (λ t. t ++ b ∷ []) (last-short (suc n) xs (le_of_lt (short room)))
      ∙ sym (
          last-short (suc n) (xs ++ b ∷ [])
            (ground (arith, length-append xs (b ∷ []), short room))))
]
  where
    short : (length (last (suc n) xs) == suc n) ≡ false → length xs < suc n
    short e = ground (arith, length-drop (length xs - suc n) xs)

push_back-last :
    (n : ℕ) (xs ys : Bytes) → push_back (suc n) (last (suc n) xs) ys ≡ last (suc n) (xs ++ ys)
unfolding push_back
push_back-last n xs [] = ap (last (suc n)) (sym (append-nil xs))
push_back-last n xs (y ∷ ys) =
    ap (λ s. push_back (suc n) s ys) (make_room-last n xs y)
    ∙ push_back-last n (xs ++ y ∷ []) ys
    ∙ ap (last (suc n)) (append_assoc xs (y ∷ []) ys)

min-take : (k : ℕ) (ys : Bytes) → take (min k (length ys)) ys ≡ take k ys
min-take zero ys = take-none (min 0 (length ys)) ys (omega arith)
min-take (suc k) [] = take-none (min (suc k) 0) [] (omega arith)
min-take (suc k) (y ∷ ys) =
    take-at (min (suc k) (suc (length ys))) (suc (min k (length ys))) (y ∷ ys) (omega arith)
    ∙ ap (λ t. y ∷ t) (min-take k ys)

min-drop : (k : ℕ) (ys : Bytes) → drop (min k (length ys)) ys ≡ drop k ys
min-drop zero ys = drop-none (min 0 (length ys)) ys (omega arith)
min-drop (suc k) [] = drop-none (min (suc k) 0) [] (omega arith)
min-drop (suc k) (y ∷ ys) =
    drop-at (min (suc k) (suc (length ys))) (suc (min k (length ys))) (y ∷ ys) (omega arith)
    ∙ min-drop k ys

-- How much of a chunk goes to a beginning of `p` bytes at most.
abbrev room : (p : ℕ) (xs ys : Bytes) → ℕ
room p xs ys = min (p - length (take p xs)) (length ys)

room-eq : (p : ℕ) (xs ys : Bytes) → room p xs ys ≡ min (p - length xs) (length ys)
room-eq p xs ys = omega (arith, length-take p xs)

prefix-kept : (p : ℕ) (xs ys : Bytes) → take p xs ++ take (room p xs ys) ys ≡ take p (xs ++ ys)
prefix-kept p xs ys =
    ap (λ t. take p xs ++ t)
      (take-at (room p xs ys) (min (p - length xs) (length ys)) ys (room-eq p xs ys)
        ∙ min-take (p - length xs) ys)
    ∙ sym (take-append p xs ys)

suffix-kept :
    (p n : ℕ) (xs ys : Bytes)
    → push_back (suc n) (last (suc n) (drop p xs)) (drop (room p xs ys) ys)
      ≡ last (suc n) (drop p (xs ++ ys))
suffix-kept p n xs ys =
    push_back-last n (drop p xs) (drop (room p xs ys) ys)
    ∙ ap (last (suc n)) (
        ap (λ t. drop p xs ++ t)
          (drop-at (room p xs ys) (min (p - length xs) (length ys)) ys (room-eq p xs ys)
            ∙ min-drop (p - length xs) ys)
        ∙ sym (drop-append p xs ys))

total-kept :
    (xs ys : Bytes)
    → saturating_add (min (length xs) (u64_mod - 1)) (length ys)
      ≡ min (length (xs ++ ys)) (u64_mod - 1)
total-kept xs ys = omega (arith, length-append xs ys)

-- A chunk joins what is kept of the stream before it.
pub push-kept : (xs ys : Bytes) → push (kept xs) ys ≡ kept (xs ++ ys)
unfolding push
push-kept xs ys = λ i. record {
  prefix = prefix-kept output_prefix_limit xs ys i;
  suffix = suffix-kept output_prefix_limit 12287 xs ys i;
  total_bytes = total-kept xs ys i;
}

-- What a command wrote to each of its streams.
abbrev pub stdout_of : List StreamEvent → Bytes
stdout_of [] = []
stdout_of (stdout bytes ∷ events) = bytes ++ stdout_of events
stdout_of (stderr bytes ∷ events) = stdout_of events

abbrev pub stderr_of : List StreamEvent → Bytes
stderr_of [] = []
stderr_of (stdout bytes ∷ events) = stderr_of events
stderr_of (stderr bytes ∷ events) = bytes ++ stderr_of events

kept-append : (xs ys zs : Bytes) → kept ((xs ++ ys) ++ zs) ≡ kept (xs ++ (ys ++ zs))
kept-append xs ys zs = ap kept (append_assoc xs ys zs)

-- Events from two streams, however they come and in whatever chunks.
pub capture_all-kept :
    (events : List StreamEvent) (xs ys : Bytes)
    → capture_all events (kept xs, kept ys)
      ≡ (kept (xs ++ stdout_of events), kept (ys ++ stderr_of events))
unfolding capture_all capture
capture_all-kept [] xs ys =
    ap (λ t. (kept t, kept ys)) (sym (append-nil xs))
    ∙ ap (λ t. (kept (xs ++ []), kept t)) (sym (append-nil ys))
capture_all-kept (stdout bytes ∷ events) xs ys =
    ap (λ c. capture_all events (c, kept ys)) (push-kept xs bytes)
    ∙ capture_all-kept events (xs ++ bytes) ys
    ∙ ap (λ c. (c, kept (ys ++ stderr_of events))) (kept-append xs bytes (stdout_of events))
capture_all-kept (stderr bytes ∷ events) xs ys =
    ap (λ c. capture_all events (kept xs, c)) (push-kept ys bytes)
    ∙ capture_all-kept events xs (ys ++ bytes)
    ∙ ap (λ c. (kept (xs ++ stdout_of events), c)) (kept-append ys bytes (stderr_of events))
