-- ===== src/Server/Transfer/Sweep/Abandoned.antt =====
-- transfer.rs: what the sweeps leave alone.
use text.Mathlib.TextEquality.{eq_iff}
use remote_workspace.Prelude.{
  ℕ, String, ◌≡◌, ◌≤◌, ◌∙◌, refl, Bool, true, false, Option, none, some, List, [], ◌∷◌, arith,
  Bool-cases, inl, inr, if◌then◌else◌,
}
use remote_workspace.Server.Workspace.{AbsPath, FileSystem}
use remote_workspace.Server.Fs.WriteAhead.{path_eq, drop_file}
use remote_workspace.Server.Transfer.Registry.{StagedMeta, is_stale}
use remote_workspace.Server.Transfer.Sweep.{
  StagingEntry, Tree, Trees, unreadable, dir, no_more, more, is_staging_name, contains, is_swept,
  swept, swept_as, sweep_stale_staging_dir, sweep_stale_staging_tree, sweep_trees,
}

-- The disk answers the same at a path.
pub record Same (p : AbsPath) (fs fs' : FileSystem) : Type 0 where
  pub canonicalize : fs.canonicalize p ≡ fs'.canonicalize p
  pub metadata : fs.metadata p ≡ fs'.metadata p
  pub symlink_metadata : fs.symlink_metadata p ≡ fs'.symlink_metadata p
  pub contents : fs.contents p ≡ fs'.contents p

-- A regular file under a staging name, that no upload in flight uses and that was last written so long
-- ago.
pub record Abandoned (in_flight : List AbsPath) (max_age : ℕ) (e : StagingEntry) : Type 0 where
  pub name : String
  pub meta : StagedMeta
  pub age : ℕ
  pub named : e.name ≡ some name
  pub staging : is_staging_name name ≡ true
  pub free : contains in_flight e.path ≡ false
  pub there : e.meta ≡ some meta
  pub regular : meta.regular ≡ true
  pub written : meta.age ≡ some age
  pub old : max_age ≤ age

module _ (in_flight : List AbsPath) (max_age : ℕ) where
  -- No entry at the path is one.
  abbrev pub NoneOf : AbsPath → List StagingEntry → Type 0
  NoneOf p [] = Unit {0}
  NoneOf p (e ∷ entries) = (e.path ≡ p → Abandoned in_flight max_age e → ⊥) × NoneOf p entries

  abbrev mutual
    pub NoneIn : AbsPath → Tree → Type 0
    NoneIn p unreadable = Unit {0}
    NoneIn p (dir entries trees) = NoneOf p entries × NoneInAll p trees

    pub NoneInAll : AbsPath → Trees → Type 0
    NoneInAll p no_more = Unit {0}
    NoneInAll p (more t trees) = NoneIn p t × NoneInAll p trees

pub path_eq-eq : (p q : AbsPath) → path_eq p q ≡ true → q ≡ p
unfolding path_eq
path_eq-eq [] [] h = refl
path_eq-eq [] (b ∷ q) h = cc
path_eq-eq (a ∷ p) [] h = cc
path_eq-eq (a ∷ p) (b ∷ q) h = ground (arith, eq_iff a b, path_eq-eq p q)

pub drop_file-Same :
    (abs p : AbsPath) (fs : FileSystem) → path_eq p abs ≡ false → Same p fs (drop_file abs fs)
unfolding drop_file
drop_file-Same abs p fs h = record {
  canonicalize = rw h;
  metadata = rw h;
  symlink_metadata = rw h;
  contents = rw h;
}

pub Same-refl : (p : AbsPath) (fs : FileSystem) → Same p fs fs
Same-refl p fs = record {
  canonicalize = refl;
  metadata = refl;
  symlink_metadata = refl;
  contents = refl;
}

pub Same-trans : {p : AbsPath} {a b c : FileSystem} → Same p a b → Same p b c → Same p a c
Same-trans s t = record {
  canonicalize = s.canonicalize ∙ t.canonicalize;
  metadata = s.metadata ∙ t.metadata;
  symlink_metadata = s.symlink_metadata ∙ t.symlink_metadata;
  contents = s.contents ∙ t.contents;
}

-- What the loop takes is abandoned.
is_swept-Abandoned :
    (in_flight : List AbsPath) (max_age : ℕ) (e : StagingEntry)
    → is_swept in_flight max_age e ≡ true
    → Abandoned in_flight max_age e
unfolding is_swept is_stale
is_swept-Abandoned in_flight max_age e h = by_name e.name e.meta refl refl h
  where
    by_age :
        (n : String) (m : StagedMeta) (o : Option ℕ)
        → e.name ≡ some n
        → e.meta ≡ some m
        → m.age ≡ o
        → swept_as in_flight max_age e (some n) (some m) ≡ true
        → Abandoned in_flight max_age e
    by_age n m none a b c h = ground (arith, c)
    by_age n m (some age) a b c h = record {
      name = n;
      meta = m;
      age = age;
      named = a;
      staging = ground arith;
      free = ground arith;
      there = b;
      regular = ground arith;
      written = c;
      old = ground (arith, c, h);
    }

    by_name :
        (n : Option String) (m : Option StagedMeta)
        → e.name ≡ n
        → e.meta ≡ m
        → swept_as in_flight max_age e n m ≡ true
        → Abandoned in_flight max_age e
    by_name none m a b h = cc
    by_name (some n) none a b h = ground arith
    by_name (some n) (some m) a b h = by_age n m m.age a b refl h

module _ (in_flight : List AbsPath) (max_age : ℕ) (p : AbsPath) where
  swept-Same :
      (e : StagingEntry) (fs : FileSystem)
      → (e.path ≡ p → Abandoned in_flight max_age e → ⊥)
      → Same p fs (swept in_flight max_age e fs)
  swept-Same e fs h = by_test (is_swept in_flight max_age e) refl
    where
      here : path_eq p e.path ≡ true → is_swept in_flight max_age e ≡ true → ⊥
      here q s = h (path_eq-eq p e.path q) (is_swept-Abandoned in_flight max_age e s)

      by_test :
          (b : Bool)
          → is_swept in_flight max_age e ≡ b
          → Same p fs (if b then drop_file e.path fs else fs)
      by_test false s = Same-refl p fs
      by_test true s = elim (Bool-cases (path_eq p e.path)) [
        | inl q ↦ absurd (here q s)
        | inr q ↦ drop_file-Same e.path p fs q
      ]

  sweep_dir-Same :
      (entries : List StagingEntry) (fs : FileSystem)
      → NoneOf in_flight max_age p entries
      → Same p fs (sweep_stale_staging_dir in_flight max_age entries fs).1
  unfolding sweep_stale_staging_dir
  sweep_dir-Same [] fs h = Same-refl p fs
  sweep_dir-Same (e ∷ entries) fs (h, hs) =
      Same-trans (swept-Same e fs h) (sweep_dir-Same entries (swept in_flight max_age e fs) hs)

  mutual
    unfolding sweep_stale_staging_tree sweep_stale_staging_dir

    tree-Same :
        (t : Tree) (fs : FileSystem)
        → NoneIn in_flight max_age p t
        → Same p fs (sweep_stale_staging_tree in_flight max_age t fs).1
    tree-Same unreadable fs h = Same-refl p fs
    tree-Same (dir entries trees) fs (h, hs) =
        Same-trans (sweep_dir-Same entries fs h)
          (trees-Same trees (sweep_stale_staging_dir in_flight max_age entries fs).1 hs)

    trees-Same :
        (ts : Trees) (fs : FileSystem)
        → NoneInAll in_flight max_age p ts
        → Same p fs (sweep_trees in_flight max_age ts fs).1
    trees-Same no_more fs h = Same-refl p fs
    trees-Same (more t ts) fs (h, hs) =
        Same-trans (tree-Same t fs h)
          (trees-Same ts (sweep_stale_staging_tree in_flight max_age t fs).1 hs)

  -- A sweep of a tree changes nothing at a path where no entry of the tree is a regular file under a
  -- staging name that no upload in flight uses and that was last written at least the age ago.
  pub sweep_stale_staging_tree-Same :
      (t : Tree) (fs : FileSystem)
      → NoneIn in_flight max_age p t
      → Same p fs (sweep_stale_staging_tree in_flight max_age t fs).1
  sweep_stale_staging_tree-Same t fs h = tree-Same t fs h
