-- ===== src/Server/Fs/Read/Paging.antt =====
-- Reading a file page by page (Server/Fs/Read.antt).
use mathlib.Core.List.{append-nil}
use remote_workspace.Prelude.{
  take-take, drop-drop, drop-eq-nil, ℕ, ◌+◌, ◌-◌, ◌≤◌, ◌<◌, min, String, Bytes, Bool, Option, none,
  some, [], ◌∷◌, ◌++◌, ◌≡◌, ◌⊎◌, refl, inl, inr, length, take, drop, arith, ltb, subst,
  if◌then◌else◌, length-drop, length-take, take-append-drop, ap, sym, ◌∙◌,
}
use remote_workspace.Protocol.Error.{ProtocolError, ok, err, >>=-eq-ok}
use remote_workspace.Protocol.Messages.{ReadResult}
use remote_workspace.Server.Fs.Read.{
  utf8_tail_slack, check_offset, boundary, page_end, page, read_whole,
}

boundary-le : (s : Bytes) → boundary s ≤ length s
unfolding boundary
boundary-le [] = omega arith
boundary-le (b ∷ s) = ground (arith, boundary-le s)

page_end-le : (limit : ℕ) (window : Bytes) → page_end limit window ≤ length window
unfolding page_end
page_end-le limit window = omega (
  arith,
  boundary-le (drop (min (length window) limit) window),
  length-drop (min (length window) limit) window,
)

page_end-pos :
    (limit : ℕ) (window : Bytes) → 1 ≤ limit → 1 ≤ length window → 1 ≤ page_end limit window
unfolding page_end
page_end-pos limit window h k = omega arith

only_ok :
    {A : Type 0} (inside utf8 : Bool) (x r : A) (e f : ProtocolError)
    → (if inside then err e else if utf8 then ok x else err f) ≡ ok r
    → r ≡ x
only_ok inside utf8 x r e f h = ground arith

-- Where the next page begins.
IsNext : (start end file_len : ℕ) → Option ℕ → Type 0
IsNext start end file_len next =
    ((next ≡ none) × (file_len ≤ start + end))
    ⊎ ((next ≡ some (start + end)) × (start + end < file_len))

page_of-IsNext :
    (start end file_len : ℕ)
    → IsNext start end file_len (if ltb (start + end) file_len then some (start + end) else none)
unfolding IsNext
page_of-IsNext start end file_len = ground arith

page-ok :
    (start limit file_len : ℕ) (window : Bytes) (hash : Option String) (r : ReadResult)
    → page start limit file_len window hash ≡ ok r
    → (r.content ≡ take (page_end limit window) window)
      × IsNext start (page_end limit window) file_len r.next_offset
unfolding page
page-ok start limit file_len window hash r h =
    let e = only_ok _ _ _ r _ _ h in
    (
      ap (λ t. t.content) e,
      subst (IsNext start (page_end limit window) file_len) (sym (ap (λ t. t.next_offset) e))
          (page_of-IsNext start (page_end limit window) file_len),
    )

abbrev window_of : (start limit : ℕ) → Bytes → Bytes
window_of start limit whole =
    take (min (length whole) (start + limit + utf8_tail_slack) - start) (drop start whole)

-- A page and the bytes from its end on, for a page that ends within its window.
rejoined :
    (start end w : ℕ) (whole : Bytes)
    → end ≤ w
    → take end (take w (drop start whole)) ++ drop (start + end) whole ≡ drop start whole
rejoined start end w whole h =
    rw (take-take end w (drop start whole) h, drop-drop start end (start + end) whole refl)
      (take-append-drop end (drop start whole))

window_le :
    (start limit : ℕ) (whole : Bytes)
    → page_end limit (window_of start limit whole)
      ≤ min (length whole) (start + limit + utf8_tail_slack) - start
window_le start limit whole = omega (
  arith,
  page_end-le limit (window_of start limit whole),
  length-take (min (length whole) (start + limit + utf8_tail_slack) - start) (drop start whole),
)

offset_le : (start file_len : ℕ) → check_offset start file_len ≡ ok tt → start ≤ file_len
unfolding check_offset
offset_le start file_len h = ground arith

-- A page that was read, and what is left.
unfoldable pub Advances : (start : ℕ) → (whole : Bytes) → ReadResult → Type 0
Advances start whole r =
    ((r.next_offset ≡ none) × (r.content ≡ drop start whole))
    ⊎ ((n : ℕ) × (r.next_offset ≡ some n)
        × (start < n)
        × (n < length whole)
        × (r.content ++ drop n whole ≡ drop start whole))

nothing_left : (n : ℕ) (whole c d : Bytes) → length whole ≤ n → c ++ drop n whole ≡ d → c ≡ d
nothing_left n whole c d over h =
    sym (append-nil c) ∙ ap (λ t. c ++ t) (sym (drop-eq-nil n whole over)) ∙ h

moved :
    (start limit : ℕ) (whole : Bytes)
    → 1 ≤ limit
    → start + page_end limit (window_of start limit whole) < length whole
    → start < start + page_end limit (window_of start limit whole)
moved start limit whole h inside = omega (
  arith,
  page_end-pos limit (window_of start limit whole) h (
      omega (
        arith,
        length-take (min (length whole) (start + limit + utf8_tail_slack) - start)
            (drop start whole),
        length-drop start whole,
      )),
)

-- For a limit of at least one byte, a page of a file that is read whole is all the rest of it, or
-- it names a larger next offset inside the file from which on the rest joins it without a gap.
pub read_whole-Advances :
    (sha256_hex : Bytes → String) (start limit : ℕ) (whole : Bytes) (r : ReadResult)
    → 1 ≤ limit
    → read_whole sha256_hex start limit whole ≡ ok r
    → Advances start whole r
unfolding read_whole Advances IsNext
read_whole-Advances sha256_hex start limit whole r h e =
    let (u, offset_ok, page_given) = >>=-eq-ok (check_offset start (length whole)) _ r e in
    let (content, next) =
      page-ok start limit (length whole) (window_of start limit whole) _ r page_given in
    let joined =
      rejoined start (page_end limit (window_of start limit whole))
        (min (length whole) (start + limit + utf8_tail_slack) - start) whole
        (window_le start limit whole) in
    elim next [
      | inl (is_none, over) ↦ inl (
        is_none,
        content
            ∙ nothing_left (start + page_end limit (window_of start limit whole)) whole _ _ over
                joined,
      )
      | inr (is_some, inside) ↦ inr (
        start + page_end limit (window_of start limit whole),
        is_some,
        moved start limit whole h inside,
        inside,
        subst
            (λ c.
              c ++ drop (start + page_end limit (window_of start limit whole)) whole
              ≡ drop start whole)
            (sym content) joined,
      )
    ]
