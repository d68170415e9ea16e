-- ===== src/Server/Fs/List/Paging.antt =====
-- Listing a directory page by page (Server/Fs/List.antt).
use mathlib.Core.List.{append-nil}
use remote_workspace.Prelude.{
  ℕ, ◌-◌, ◌≤◌, ◌<◌, ◌≡◌, ◌⊎◌, ◌∙◌, refl, sym, ap, inl, inr, Bool, true, false, ◌&&◌, none, some,
  List, ◌++◌, arith, length, take, drop, ltb, leb, take-append-drop, drop-drop, drop-eq-nil,
  length-take, if◌then◌else◌, subst, Bool-cases,
}
use remote_workspace.Prelude.Decimal.{u64_mod}
use remote_workspace.Protocol.Error.{ProtocolError, ok, err}
use remote_workspace.Protocol.Messages.{ListEntry, ListResult}
use remote_workspace.Server.Fs.List.{list_page, saturating_end}

-- A page that was listed, and what is left: its size is at most the limit.
unfoldable pub Continues : (offset limit : ℕ) → List ListEntry → ListResult → Type 0
Continues offset limit entries r =
    (length r.entries ≤ limit)
    × (((r.next_offset ≡ none) × (r.entries ≡ drop offset entries))
        ⊎ ((n : ℕ) × (r.next_offset ≡ some n)
            × (offset < n)
            × (r.entries ++ drop n entries ≡ drop offset entries)))

abbrev page_of : (offset end count : ℕ) → List ListEntry → ListResult
page_of offset end count entries = record {
  entries = take (end - offset) (drop offset entries);
  next_offset = if ltb end count then some end else none;
}

list_page-ok :
    (offset limit : ℕ) (entries : List ListEntry) (r : ListResult)
    → list_page offset limit entries ≡ ok r
    → ((offset ≡ 0) ⊎ (offset < length entries))
      × (r ≡ page_of offset (saturating_end offset limit (length entries)) (length entries) entries)
unfolding list_page
list_page-ok offset limit entries r h = go (ltb 0 offset && leb (length entries) offset) _ refl h
  where
    page : ListResult
    page = page_of offset (saturating_end offset limit (length entries)) (length entries) entries

    go :
        (b : Bool) (e : ProtocolError)
        → (ltb 0 offset && leb (length entries) offset) ≡ b
        → (if b then err e else ok page) ≡ ok r
        → ((offset ≡ 0) ⊎ (offset < length entries)) × (r ≡ page)
    go true e h k = cc
    go false e h k = (ground arith, cc)

Continues-page_of :
    (offset end limit : ℕ) (entries : List ListEntry)
    → offset ≤ end
    → end - offset ≤ limit
    → (end < length entries → offset < end)
    → Continues offset limit entries (page_of offset end (length entries) entries)
unfolding Continues
Continues-page_of offset end limit entries h l k =
    let joined : take (end - offset) (drop offset entries) ++ drop end entries
        ≡ drop offset entries =
      ap (λ t. take (end - offset) (drop offset entries) ++ t)
        (drop-drop offset (end - offset) end entries (omega arith))
      ∙ take-append-drop (end - offset) (drop offset entries) in
    (omega (arith, length-take (end - offset) (drop offset entries)), rest joined)
  where
    rest :
        take (end - offset) (drop offset entries) ++ drop end entries ≡ drop offset entries
        → (((page_of offset end (length entries) entries).next_offset ≡ none)
            × (take (end - offset) (drop offset entries) ≡ drop offset entries))
          ⊎ ((n : ℕ) × ((page_of offset end (length entries) entries).next_offset ≡ some n)
              × (offset < n)
              × (take (end - offset) (drop offset entries) ++ drop n entries ≡ drop offset entries))
    rest joined = elim (Bool-cases (ltb end (length entries))) [
      | inl more ↦ inr (end, rw more refl, k (ground arith), joined)
      | inr all ↦ inl (
        rw all refl,
        sym (append-nil (take (end - offset) (drop offset entries)))
            ∙ ap (λ t. take (end - offset) (drop offset entries) ++ t)
                (sym (drop-eq-nil end entries (ground arith)))
            ∙ joined,
      )
    ]

-- For a limit of at least one and a number of entries that a usize holds, a page of a directory has
-- at most as many entries as the limit says and is all the rest, or names a larger next offset from
-- which on the rest joins it without a gap.
pub list_page-Continues :
    (offset limit : ℕ) (entries : List ListEntry) (r : ListResult)
    → 1 ≤ limit
    → length entries < u64_mod
    → list_page offset limit entries ≡ ok r
    → Continues offset limit entries r
list_page-Continues offset limit entries r h fits given =
    let (start, same) = list_page-ok offset limit entries r given in
    subst (Continues offset limit entries) (sym same) (
      Continues-page_of offset (saturating_end offset limit (length entries)) limit entries
        (start_le start) (omega arith) (λ more. omega arith))
  where
    start_le :
        (offset ≡ 0) ⊎ (offset < length entries)
        → offset ≤ saturating_end offset limit (length entries)
    start_le (inl z) = omega arith
    start_le (inr l) = omega arith
