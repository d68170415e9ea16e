-- ===== src/Server/Scratch/Idle.antt =====
-- scratch.rs, `enforce`: which files go, and which are counted.
use remote_workspace.Prelude.{
  ℕ, ◌+◌, ◌≤◌, ◌<◌, leb, not, ◌++◌, ◌≡◌, ◌∙◌, refl, ap, sym, Bool, true, false, Option, none, some,
  List, [], ◌∷◌, inl, inr, arith, Bool-cases, if◌then◌else◌, String,
}
use remote_workspace.Prelude.Decimal.{u64_mod}
use remote_workspace.Protocol.Error.{IoError}
use remote_workspace.Protocol.Messages.{ScratchUsage}
use remote_workspace.Server.Workspace.{AbsPath, FileSystem, is_missing}
use remote_workspace.Server.Fs.WriteAhead.{path_eq}
use remote_workspace.Server.Transfer.Sweep.Abandoned.{
  Same, Same-refl, Same-trans, drop_file-Same, path_eq-eq,
}
use remote_workspace.Server.Scratch.{
  Entry, Dir, Tally, is_over, counted, evicted, no_usage, report, Failed, turn, evict, collect,
  enforce,
}

-- The entry was used within the limit, or there is none.
abbrev pub IsFresh : (max_age : Option ℕ) → Entry → Type 0
IsFresh none e = Unit {0}
IsFresh (some limit) e = e.idle ≤ limit

IsFresh-is_over : (max_age : Option ℕ) (e : Entry) → IsFresh max_age e → is_over max_age e ≡ false
IsFresh-is_over none e h = refl
IsFresh-is_over (some limit) e h = ground arith

-- Every entry at the path was.
abbrev pub FreshAt : (max_age : Option ℕ) → AbsPath → List Entry → Type 0
FreshAt max_age p [] = Unit {0}
FreshAt max_age p (e ∷ entries) = (e.path ≡ p → IsFresh max_age e) × FreshAt max_age p entries

abbrev pub is_fresh : (max_age : Option ℕ) → Entry → Bool
is_fresh none e = true
is_fresh (some limit) e = leb e.idle limit

-- How many files were used within the limit, and their bytes.
abbrev pub fresh_files : (max_age : Option ℕ) → List Entry → ℕ
fresh_files max_age [] = 0
fresh_files max_age (e ∷ entries) =
    if is_fresh max_age e then 1 + fresh_files max_age entries else fresh_files max_age entries

abbrev pub fresh_bytes : (max_age : Option ℕ) → List Entry → ℕ
fresh_bytes max_age [] = 0
fresh_bytes max_age (e ∷ entries) =
    if is_fresh max_age e
    then e.bytes + fresh_bytes max_age entries
    else fresh_bytes max_age entries

is_over-fresh : (max_age : Option ℕ) (e : Entry) → is_over max_age e ≡ not (is_fresh max_age e)
is_over-fresh none e = refl
is_over-fresh (some limit) e = ground arith

module _ (max_age : Option ℕ) (remove_file : AbsPath → Option IoError) where
  evicted-Same :
      (p : AbsPath) (e : Entry) (o : Option IoError) (t : Tally)
      → path_eq p e.path ≡ false
      → Same p t.disk (evicted e o t).disk
  evicted-Same p e none t h = drop_file-Same e.path p t.disk h
  evicted-Same p e (some x) t h = by_kind (is_missing x.kind)
    where
      by_kind :
          (b : Bool)
          → Same p t.disk (if b then t else record t { failed = t.failed ++ (e.path, x) ∷ [] }).disk
      by_kind true = Same-refl p t.disk
      by_kind false = Same-refl p t.disk

  turn-Same :
      (p : AbsPath) (e : Entry) (t : Tally)
      → (e.path ≡ p → IsFresh max_age e)
      → Same p t.disk (turn max_age remove_file e t).disk
  turn-Same p e t h = by_age (is_over max_age e) refl
    where
      elsewhere : is_over max_age e ≡ true → path_eq p e.path ≡ true → ⊥
      elsewhere o q = cc (IsFresh-is_over max_age e (h (path_eq-eq p e.path q)))

      by_age :
          (b : Bool)
          → is_over max_age e ≡ b
          → Same p t.disk
              (if b
                then evicted e (remove_file e.path) t
                else record t { usage = counted e t.usage }).disk
      by_age false o = Same-refl p t.disk
      by_age true o = elim (Bool-cases (path_eq p e.path)) [
        | inl q ↦ absurd (elsewhere o q)
        | inr q ↦ evicted-Same p e (remove_file e.path) t q
      ]

  evict-Same :
      (p : AbsPath) (entries : List Entry) (t : Tally)
      → FreshAt max_age p entries
      → Same p t.disk (evict max_age remove_file entries t).disk
  unfolding evict
  evict-Same p [] t h = Same-refl p t.disk
  evict-Same p (e ∷ entries) t (h, hs) =
      Same-trans (turn-Same p e t h) (evict-Same p entries (turn max_age remove_file e t) hs)

  -- As long as the counts stay within their types.
  turn-fresh :
      (e : Entry) (t : Tally)
      → t.usage.files + fresh_files max_age (e ∷ []) < u64_mod
      → t.usage.bytes + fresh_bytes max_age (e ∷ []) < u64_mod
      → ((turn max_age remove_file e t).usage.files ≡ t.usage.files + fresh_files max_age (e ∷ []))
        × ((turn max_age remove_file e t).usage.bytes
            ≡ t.usage.bytes + fresh_bytes max_age (e ∷ []))
  turn-fresh e t few small =
      by_age (is_over max_age e) (is_fresh max_age e) (remove_file e.path) (is_over-fresh max_age e)
        few small
    where
      by_age :
          (b c : Bool) (o : Option IoError)
          → b ≡ not c
          → t.usage.files + (if c then 1 else 0) < u64_mod
          → t.usage.bytes + (if c then e.bytes + 0 else 0) < u64_mod
          → ((if b then evicted e o t else record t { usage = counted e t.usage }).usage.files
              ≡ t.usage.files + (if c then 1 else 0))
            × ((if b then evicted e o t else record t { usage = counted e t.usage }).usage.bytes
                ≡ t.usage.bytes + (if c then e.bytes + 0 else 0))
      by_age false true o h few small = (omega arith, omega arith)
      by_age false false o h few small = cc
      by_age true true o h few small = cc
      by_age true false none h few small = (omega arith, omega arith)
      by_age true false (some x) h few small = ground arith

  fresh-cons :
      (e : Entry) (entries : List Entry)
      → (fresh_files max_age (e ∷ entries)
          ≡ fresh_files max_age (e ∷ []) + fresh_files max_age entries)
        × (fresh_bytes max_age (e ∷ entries)
            ≡ fresh_bytes max_age (e ∷ []) + fresh_bytes max_age entries)
  fresh-cons e entries = ground arith

  evict-fresh :
      (entries : List Entry) (t : Tally)
      → t.usage.files + fresh_files max_age entries < u64_mod
      → t.usage.bytes + fresh_bytes max_age entries < u64_mod
      → ((evict max_age remove_file entries t).usage.files
          ≡ t.usage.files + fresh_files max_age entries)
        × ((evict max_age remove_file entries t).usage.bytes
            ≡ t.usage.bytes + fresh_bytes max_age entries)
  unfolding evict
  evict-fresh [] t few small = (omega arith, omega arith)
  evict-fresh (e ∷ entries) t few small =
      let (h, d) = fresh-cons e entries in
      let (g, c) = turn-fresh e t (omega (arith, few, h)) (omega (arith, small, d)) in
      let (f, b) =
        evict-fresh entries (turn max_age remove_file e t) (omega (arith, few, h, g))
          (omega (arith, small, d, c)) in
      (omega (arith, f, g, h), omega (arith, b, c, d))

  report-inl :
      (display : AbsPath → String) (failed : Failed) (u usage : ScratchUsage)
      → report max_age remove_file display failed u ≡ inl usage
      → u ≡ usage
  report-inl display [] u usage h = ground arith
  report-inl display ((path, e) ∷ failed) u usage h = cc

  module _ (display : AbsPath → String) (now : ℕ) (root : Dir) (fs : FileSystem) where
    abbrev entries : List Entry
    entries = (collect now root ([], [])).0

    start : Tally
    start = record { usage = no_usage; failed = (collect now root ([], [])).1; disk = fs }

    -- A sweep of the scratch space changes nothing at a path where every file that it found was used
    -- within the limit, if there is one.
    pub enforce-Same :
        (p : AbsPath)
        → FreshAt max_age p entries
        → Same p fs (enforce max_age remove_file display now root fs).1
    unfolding enforce start
    enforce-Same p h = evict-Same p entries start h

    -- The usage that a sweep reports counts the files it found that were used within the limit, or all
    -- if there is no limit, and their bytes, if there are fewer than 2 to the 64 of each.
    pub enforce-counts :
        (usage : ScratchUsage)
        → fresh_files max_age entries < u64_mod
        → fresh_bytes max_age entries < u64_mod
        → (enforce max_age remove_file display now root fs).0 ≡ inl usage
        → (usage.files ≡ fresh_files max_age entries) × (usage.bytes ≡ fresh_bytes max_age entries)
    unfolding enforce start
    enforce-counts usage few small e =
        let same =
          report-inl display (evict max_age remove_file entries start).failed
            (evict max_age remove_file entries start).usage usage e in
        let (f, b) = evict-fresh entries start (omega (arith, few)) (omega (arith, small)) in
        (
          ap (λ (u : ScratchUsage). u.files) (sym same) ∙ f ∙ omega arith,
          ap (λ (u : ScratchUsage). u.bytes) (sym same) ∙ b ∙ omega arith,
        )
