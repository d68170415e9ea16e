-- ===== src/Server/Transfer/Sweep.antt =====
-- transfer.rs, the sweeps of staging files that were left behind. An entry of a directory is what the
-- system calls answer for it; `removed` is the outcome of `remove_file`.
pub mod Abandoned
use Prim.Native.String.{[] as nil, ◌∷◌ as ◌▹◌}
use remote_workspace.Prelude.{
  ℕ, ◌+◌, String, Bool, true, false, not, ◌&&◌, ◌||◌, Option, none, some, List, [], ◌∷◌, ◌++◌,
  str_eq, if◌then◌else◌,
}
use remote_workspace.Prelude.Decimal.{strip_prefix}
use remote_workspace.Server.Workspace.{AbsPath, FileSystem}
use remote_workspace.Server.Fs.WriteAhead.{path_eq, drop_file}
use remote_workspace.Server.Transfer.Registry.{StagedMeta, is_stale}

abbrev pub staging_prefix : String
staging_prefix = ".remote-workspace-upload."

abbrev pub staging_suffix : String
staging_suffix = ".part"

abbrev pub write_staging_prefix : String
write_staging_prefix = ".remote-workspace-write."

-- A name is `none` if it is not UTF-8, and so are the metadata that cannot be read.
pub record StagingEntry : Type 0 where
  pub name : Option String
  pub path : AbsPath
  pub meta : Option StagedMeta
  pub removed : Bool

abbrev begins_with : String → String → Bool
begins_with p s = elim (strip_prefix p s) [ none ↦ false | some rest ↦ true ]

unfoldable pub ends_with : String → String → Bool
ends_with p nil = str_eq p nil
ends_with p (c ▹ s) = if str_eq p (c ▹ s) then true else ends_with p s

unfoldable pub is_staging_name : String → Bool
unfolding strip_prefix ends_with
is_staging_name name =
    (begins_with staging_prefix name || begins_with write_staging_prefix name)
    && ends_with staging_suffix name

abbrev pub has_staging_name : Option String → Bool
has_staging_name none = false
has_staging_name (some name) = is_staging_name name

unfoldable pub contains : List AbsPath → AbsPath → Bool
unfolding path_eq
contains [] p = false
contains (q ∷ qs) p = if path_eq q p then true else contains qs p

abbrev pub is_old_file : ℕ → Option StagedMeta → Bool
is_old_file max_age none = false
is_old_file max_age (some meta) = meta.regular && is_stale meta max_age

-- The tests of the loop, in their order, on the name and the metadata.
abbrev pub swept_as :
    (in_flight : List AbsPath)
    → (max_age : ℕ) → StagingEntry
    → Option String
    → Option StagedMeta
    → Bool
swept_as in_flight max_age e name meta =
    has_staging_name name
    && (not (contains in_flight e.path) && (is_old_file max_age meta && e.removed))

unfoldable pub is_swept : (in_flight : List AbsPath) → (max_age : ℕ) → StagingEntry → Bool
unfolding is_staging_name contains is_stale
is_swept in_flight max_age e = swept_as in_flight max_age e e.name e.meta

abbrev pub swept :
    (in_flight : List AbsPath) → (max_age : ℕ) → StagingEntry → FileSystem → FileSystem
swept in_flight max_age e fs = if is_swept in_flight max_age e then drop_file e.path fs else fs

-- `sweep_stale_staging_dir`: how many files went, and the disk without them. The entries are those of
-- a directory that can be read.
unfoldable pub sweep_stale_staging_dir :
    (in_flight : List AbsPath) → (max_age : ℕ) → List StagingEntry → FileSystem → ℕ × FileSystem
unfolding is_swept drop_file
sweep_stale_staging_dir in_flight max_age [] fs = (0, fs)
sweep_stale_staging_dir in_flight max_age (e ∷ entries) fs =
    let (removed, fs') =
      sweep_stale_staging_dir in_flight max_age entries (swept in_flight max_age e fs) in
    (if is_swept in_flight max_age e then removed + 1 else removed, fs')

-- A directory that can be read, with its directories, or one that cannot.
mutual
  pub data Tree : Type 0 where
    unreadable : Tree
    dir : List StagingEntry → Trees → Tree

  pub data Trees : Type 0 where
    no_more : Trees
    more : Tree → Trees → Trees

unfoldable mutual
  unfolding sweep_stale_staging_dir

  pub sweep_stale_staging_tree :
      (in_flight : List AbsPath) → (max_age : ℕ) → Tree → FileSystem → ℕ × FileSystem
  sweep_stale_staging_tree in_flight max_age unreadable fs = (0, fs)
  sweep_stale_staging_tree in_flight max_age (dir entries trees) fs =
      let (here, fs1) = sweep_stale_staging_dir in_flight max_age entries fs in
      let (below, fs2) = sweep_trees in_flight max_age trees fs1 in (here + below, fs2)

  pub sweep_trees : (in_flight : List AbsPath) → (max_age : ℕ) → Trees → FileSystem → ℕ × FileSystem
  sweep_trees in_flight max_age no_more fs = (0, fs)
  sweep_trees in_flight max_age (more t trees) fs =
      let (here, fs1) = sweep_stale_staging_tree in_flight max_age t fs in
      let (rest, fs2) = sweep_trees in_flight max_age trees fs1 in (here + rest, fs2)
