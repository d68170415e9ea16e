-- ===== src/Server/Fs/WriteAhead.antt =====
-- crates/remote-workspace-server/src/fs_ops.rs, the write-ahead sequences of `create`, `edit` and
-- `delete`: record the intent, change the disk, record the result. The world is the store and the
-- disk. What the system calls of a mutation answer is `Io`; `meanwhile` is what the writers that
-- hold no lock do to the disk between the preparation and the last step that can refuse.
use remote_workspace.Prelude.{
  ℕ, String, Bytes, Bool, true, false, ◌&&◌, Option, none, some, [], ◌∷◌, ◌⊎◌, inl, inr, length,
  str_eq, opt_eq, ◌<>◌, if◌then◌else◌,
}
use remote_workspace.Protocol.Error.{
  ErrorCode, ProtocolError, IoError, IoErrorKind, new, with_hashes, from_io, Result, ok, err,
}
use remote_workspace.Server.Store.{OperationStore, Store}
use remote_workspace.Server.Workspace.{
  AbsPath, FileType, Metadata, FileSystem, starts_with, is_missing, hash_file,
}

pub record World : Type 0 where
  pub store : OperationStore
  pub disk : FileSystem

abbrev pub Step : Type 0 → Type 0
Step A = World → Result A × World

infixl 5 ◌>>=◌ ◌>>◌
abbrev pub ◌>>=◌ : {A B : Type 0} → Step A → (A → Step B) → Step B
◌>>=◌ m f w = elim (m w).0 [ ok a ↦ f a (m w).1 | err e ↦ (err e, (m w).1) ]

abbrev pub ◌>>◌ : {A B : Type 0} → Step A → Step B → Step B
m >> k = m >>= λ _. k

abbrev pub pure : {A : Type 0} → A → Step A
pure a w = (ok a, w)

abbrev pub fail : {A : Type 0} → ProtocolError → Step A
fail e w = (err e, w)

abbrev pub on_store : {A : Type 0} → Store A → Step A
on_store m w = ((m w.store).0, record w { store = (m w.store).1 })

-- A question about the disk.
abbrev pub ask : {A : Type 0} → (FileSystem → Result A) → Step A
ask f w = (f w.disk, w)

-- Answers of the system calls that one mutation makes; `none` is success. `first_mode` is the mode
-- of a directory that `create_dir_all` makes, and `reached` the last one that it made before it failed.
pub record Io : Type 0 where
  pub mkdir : Option IoError
  pub reached : Option AbsPath
  pub temp : Option IoError
  pub write : Option IoError
  pub chmod : Option IoError
  pub persist : Option IoError
  pub remove : Option IoError
  pub sync : Option IoError
  pub first_mode : ℕ
  pub meanwhile : FileSystem → FileSystem

unfoldable pub path_eq : AbsPath → AbsPath → Bool
path_eq [] [] = true
path_eq [] (b ∷ q) = false
path_eq (a ∷ p) [] = false
path_eq (a ∷ p) (b ∷ q) = str_eq a b && path_eq p q

abbrev nothing_there : IoError
nothing_there = record {
  kind = IoErrorKind.missing;
  text = "No such file or directory (os error 2)";
}

abbrev regular : ℕ → Bytes → Metadata
regular mode bytes = record { file_type = FileType.file; len = length bytes; mode = mode }

-- The disk with a regular file at a resolved path, and without it.
unfoldable pub put_file : AbsPath → ℕ → Bytes → FileSystem → FileSystem
unfolding path_eq
put_file abs mode bytes fs = record {
  canonicalize = λ p. if path_eq p abs then inl abs else fs.canonicalize p;
  metadata = λ p. if path_eq p abs then inl (regular mode bytes) else fs.metadata p;
  symlink_metadata = λ p. if path_eq p abs then inl (regular mode bytes) else fs.symlink_metadata p;
  contents = λ p. if path_eq p abs then inl bytes else fs.contents p;
}

unfoldable pub drop_file : AbsPath → FileSystem → FileSystem
unfolding path_eq
drop_file abs fs = record {
  canonicalize = λ p. if path_eq p abs then inr nothing_there else fs.canonicalize p;
  metadata = λ p. if path_eq p abs then inr nothing_there else fs.metadata p;
  symlink_metadata = λ p. if path_eq p abs then inr nothing_there else fs.symlink_metadata p;
  contents = λ p. if path_eq p abs then inr nothing_there else fs.contents p;
}

-- `create_dir_all`: what is missing on the way to `dir` becomes a directory.
abbrev or_dir : ℕ → Metadata ⊎ IoError → Metadata ⊎ IoError
or_dir mode (inl meta) = inl meta
or_dir mode (inr e) =
    if is_missing e.kind
    then inl (record { file_type = FileType.dir; len = 0; mode = mode })
    else inr e

abbrev or_path : AbsPath → AbsPath ⊎ IoError → AbsPath ⊎ IoError
or_path p (inl q) = inl q
or_path p (inr e) = if is_missing e.kind then inl p else inr e

unfoldable pub make_dirs : ℕ → AbsPath → FileSystem → FileSystem
unfolding starts_with
make_dirs mode dir fs = record fs {
  canonicalize =
      λ p. if starts_with dir p then or_path p (fs.canonicalize p) else fs.canonicalize p;
  metadata = λ p. if starts_with dir p then or_dir mode (fs.metadata p) else fs.metadata p;
  symlink_metadata =
      λ p. if starts_with dir p then or_dir mode (fs.symlink_metadata p) else fs.symlink_metadata p;
}

-- `Path::parent`
unfoldable pub parent : AbsPath → Option AbsPath
parent [] = none
parent (c ∷ []) = some []
parent (c ∷ d ∷ p) = elim (parent (d ∷ p)) [ none ↦ none | some q ↦ some (c ∷ q) ]

abbrev pub file_absent_hash : String
file_absent_hash = "sha256:"

abbrev pub new_file_mode : ℕ
new_file_mode = 420

abbrev pub check : (IoError → ProtocolError) → Option IoError → Step (Unit {0})
check f none = pure tt
check f (some e) = fail (f e)

abbrev pub change : (FileSystem → FileSystem) → Step (Unit {0})
change f w = (ok tt, record w { disk = f w.disk })

-- `StagedWrite`: the temporary file's bytes and mode, and their hash.
pub record StagedWrite : Type 0 where
  pub bytes : Bytes
  pub mode : ℕ
  pub new_hash : String

pub record InstallFailure : Type 0 where
  pub changed : Bool
  pub error : ProtocolError

abbrev or_absent : Option String → String
or_absent none = file_absent_hash
or_absent (some h) = h

module _ (sha256_hex : Bytes → String) where
  unfoldable pub verify_unchanged :
      FileSystem → AbsPath → (expected client_path : String) → Result (Unit {0})
  unfolding hash_file
  verify_unchanged fs abs expected client_path = elim (hash_file sha256_hex fs abs) [
    | inr e ↦ err (from_io e)
    | inl now ↦
        if opt_eq now (some expected)
        then ok tt
        else err (
            with_hashes
              (new ErrorCode.stale_file
                (client_path <> " changed while the edit was being prepared"))
              expected (or_absent now))
  ]
