-- ===== src/Server/Workspace.antt =====
-- crates/remote-workspace-server/src/workspace.rs and src/hash.rs, on Unix: client paths resolved
-- against the root they address. An absolute path is the list of its components. The file system is
-- what its system calls answer; SHA-256 with its hexadecimal spelling (sha2, hex) is a parameter.
pub mod Inside
use mathlib.Core.List.{reverse}
use remote_workspace.Prelude.{
  ℕ, String, Bytes, Bool, true, false, ◌&&◌, ◌||◌, Option, none, some, List, [], ◌∷◌, ◌++◌, ◌⊎◌,
  inl, inr, str_eq, ◌<>◌, if◌then◌else◌,
}
use remote_workspace.Prelude.Decimal.{split, strip_prefix}
use remote_workspace.Protocol.Error.{
  ErrorCode, IoError, IoErrorKind, new, io_failed, Result, ok, err, ◌>>=◌,
}

abbrev pub AbsPath : Type 0
AbsPath = List String

pub data FileType : Type 0 where
  file dir symlink other : FileType

pub record Metadata : Type 0 where
  pub file_type : FileType
  pub len : ℕ
  pub mode : ℕ

-- Answers of the system calls at one moment. `metadata` follows links and `symlink_metadata` does
-- not; `canonicalize` follows every link and fails on what does not exist.
pub record FileSystem : Type 0 where
  pub canonicalize : AbsPath → AbsPath ⊎ IoError
  pub metadata : AbsPath → Metadata ⊎ IoError
  pub symlink_metadata : AbsPath → Metadata ⊎ IoError
  pub contents : AbsPath → Bytes ⊎ IoError

pub record Workspace : Type 0 where
  pub root : AbsPath
  pub scratch_root : AbsPath

abbrev pub is_missing : IoErrorKind → Bool
is_missing IoErrorKind.missing = true
is_missing _ = false

-- `Path::starts_with`, by components.
unfoldable pub starts_with : AbsPath → AbsPath → Bool
starts_with path [] = true
starts_with [] (b ∷ base) = false
starts_with (c ∷ path) (b ∷ base) = str_eq c b && starts_with path base

-- `components`, without the empty and the `.` ones, which name nothing.
unfoldable pub normal : List String → List String
normal [] = []
normal (c ∷ cs) =
    let rest = normal cs in if str_eq c "" then rest else if str_eq c "." then rest else c ∷ rest

unfoldable pub has_parent_dir : List String → Bool
has_parent_dir [] = false
has_parent_dir (c ∷ cs) = if str_eq c ".." then true else has_parent_dir cs

-- `Path::is_relative`: the text begins with no slash.
abbrev is_relative : String → Bool
is_relative s = elim (strip_prefix "/" s) [ none ↦ true | some rest ↦ false ]

abbrev pub addressed : Workspace → String → Option String → AbsPath × String
addressed ws rel none = (ws.root, rel)
addressed ws rel (some rest) =
    if str_eq rest "" then (ws.scratch_root, ".") else elim (strip_prefix "/" rest) [
      | some tail ↦ (ws.scratch_root, tail)
      | none ↦ (ws.root, rel)
    ]

-- A path that ends in a slash, or in a `.`, names what is there as a directory.
unfoldable pub ends_open : List String → Bool
ends_open [] = false
ends_open (c ∷ []) = str_eq c "" || str_eq c "."
ends_open (c ∷ d ∷ cs) = ends_open (d ∷ cs)

-- `join`: the root that the path addresses, the joined path, and whether it is open at its end.
unfoldable pub join : Workspace → String → Result (AbsPath × AbsPath × Bool)
unfolding normal has_parent_dir ends_open
join ws rel =
    if str_eq rel ""
    then err (new ErrorCode.invalid_request "path must not be empty")
    else let (base, relative) = addressed ws rel (strip_prefix "@scratch" rel) in
      if is_relative relative
      then (if has_parent_dir (split b'/' relative)
          then err (new ErrorCode.path_outside_root "path escapes workspace root")
          else ok (base, base ++ normal (split b'/' relative), ends_open (split b'/' relative)))
      else err (new ErrorCode.path_outside_root "path must be relative to workspace root")

abbrev pub is_link : FileType → Bool
is_link FileType.symlink = true
is_link _ = false

abbrev pub is_file : FileType → Bool
is_file FileType.file = true
is_file _ = false

abbrev pub is_dir : FileType → Bool
is_dir FileType.dir = true
is_dir _ = false

-- What a call answers for a path that is open at its end: links are followed, to a directory.
abbrev as_dir {ℓ} : {A : Type ℓ} → Metadata ⊎ IoError → A ⊎ IoError → A ⊎ IoError
as_dir (inl meta) answer =
    if is_dir meta.file_type
    then answer
    else inr (record { kind = IoErrorKind.other; text = "Not a directory (os error 20)" })
as_dir (inr e) answer = inr e

module _ (fs : FileSystem) where
  abbrev canonicalize_at : (open_end : Bool) → AbsPath → AbsPath ⊎ IoError
  canonicalize_at false path = fs.canonicalize path
  canonicalize_at true path = as_dir (fs.metadata path) (fs.canonicalize path)

  abbrev lstat_at : (open_end : Bool) → AbsPath → Metadata ⊎ IoError
  lstat_at false path = fs.symlink_metadata path
  lstat_at true path = as_dir (fs.metadata path) (fs.metadata path)

  -- The loop of `canonicalize_ancestor`, over the components of the path from the last one up: the
  -- missing ones are put back under the first ancestor that exists.
  unfoldable pub deepest : (reversed tail : List String) → AbsPath ⊎ IoError
  deepest [] tail = elim (fs.canonicalize []) [
    | inl existing ↦ inl (existing ++ tail)
    | inr e ↦
        if is_missing e.kind
        then inr (record { kind = IoErrorKind.missing; text = "no existing ancestor" })
        else inr e
  ]
  deepest (c ∷ up) tail =
      let further = deepest up (c ∷ tail) in
      elim (fs.canonicalize (reverse (c ∷ up))) [
        | inl existing ↦ inl (existing ++ tail)
        | inr e ↦ if is_missing e.kind then further else inr e
      ]

  -- From the parent of a path that is missing.
  abbrev above : (reversed : List String) → AbsPath ⊎ IoError
  above [] = inr (record { kind = IoErrorKind.missing; text = "no existing ancestor" })
  above (c ∷ up) = deepest up (c ∷ [])

  unfoldable pub canonicalize_ancestor : (open_end : Bool) → AbsPath → AbsPath ⊎ IoError
  unfolding deepest
  canonicalize_ancestor open_end path = elim (canonicalize_at open_end path) [
    | inl p ↦ inl p
    | inr e ↦ if is_missing e.kind then above (reverse path) else inr e
  ]

  abbrev pub within : AbsPath → AbsPath → Result AbsPath
  within base safe =
      if starts_with safe base
      then ok safe
      else err (new ErrorCode.path_outside_root "resolved path escapes workspace root")

  -- `resolve`
  unfoldable pub resolve : Workspace → String → Result AbsPath
  unfolding join starts_with canonicalize_ancestor
  resolve ws rel = do
    joined ← join ws rel
    elim (canonicalize_ancestor joined.2 joined.1) [
      | inr e ↦ err (io_failed "failed to resolve path: " e)
      | inl safe ↦ within joined.0 safe
    ]

  -- `is_symlink`
  unfoldable pub is_symlink : Workspace → String → Result Bool
  unfolding join
  is_symlink ws rel = do
    joined ← join ws rel
    elim (lstat_at joined.2 joined.1) [
      | inl meta ↦ ok (is_link meta.file_type)
      | inr e ↦ if is_missing e.kind then ok false else err (io_failed "failed to resolve path: " e)
    ]

-- hash.rs
module _ (sha256_hex : Bytes → String) where
  unfoldable pub hash_bytes : Bytes → String
  hash_bytes bytes = "sha256:" <> sha256_hex bytes

  -- `hash_file`: `none` for what is missing or is no regular file.
  unfoldable pub hash_file : FileSystem → AbsPath → Option String ⊎ IoError
  hash_file fs path = elim (fs.metadata path) [
    | inl meta ↦
        if is_file meta.file_type
        then elim (fs.contents path) [ inl bytes ↦ inl (some (hash_bytes bytes)) | inr e ↦ inr e ]
        else inl none
    | inr e ↦ if is_missing e.kind then inl none else inr e
  ]
