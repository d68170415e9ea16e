-- ===== src/Server/Fs/List.antt =====
-- fs_ops.rs: `list`. `read_dir` is what reading a directory answers: the entries in the order of the
-- system, each with its name and its own metadata, where it can be read.
pub mod Paging
use remote_workspace.Prelude.{
  ℕ, ◌+◌, ◌-◌, min, String, Bool, true, false, ◌&&◌, Option, none, some, List, [], ◌∷◌, ◌⊎◌, inl,
  inr, length, take, drop, codes, ltb, leb, ◌==◌, str_eq, ◌<>◌, if◌then◌else◌,
}
use remote_workspace.Prelude.Decimal.{show, u64_mod}
use remote_workspace.Protocol.Error.{
  ErrorCode, IoError, new, io_failed, Result, ok, err, ◌>>=◌, ◌>>◌,
}
use remote_workspace.Protocol.Messages.{ListEntry, ListResult}
use remote_workspace.Protocol.Record.{ResultBody}
use remote_workspace.Server.Workspace.{
  AbsPath, Metadata, FileSystem, Workspace, is_missing, is_dir, resolve,
}
use remote_workspace.Server.Fs.WriteAhead.{path_eq}
use remote_workspace.Server.Fs.Apply.{invalid}
use remote_workspace.Server.Fs.Read.{unwrap_or, list_kind}

pub record DirEntry : Type 0 where
  pub name : String
  pub meta : Metadata ⊎ IoError

abbrev pub ReadDir : Type 0
ReadDir = AbsPath → List (DirEntry ⊎ IoError) ⊎ IoError

abbrev pub list_default_limit : ℕ
list_default_limit = 1000

abbrev pub list_max_limit : ℕ
list_max_limit = 1000

-- `cmp` on texts, as the test whether the first may stand before the second.
unfoldable codes_le : List ℕ → List ℕ → Bool
codes_le [] t = true
codes_le (a ∷ s) [] = false
codes_le (a ∷ s) (b ∷ t) = let rest = codes_le s t in if ltb a b then true else a == b && rest

unfoldable insert_by_name : ListEntry → List ListEntry → List ListEntry
unfolding codes_le
insert_by_name e [] = e ∷ []
insert_by_name e (d ∷ ds) =
    if codes_le (codes e.name) (codes d.name) then e ∷ d ∷ ds else d ∷ insert_by_name e ds

-- `sort_by` the name; names of one directory differ.
unfoldable pub sort_by_name : List ListEntry → List ListEntry
unfolding insert_by_name
sort_by_name [] = []
sort_by_name (e ∷ es) = insert_by_name e (sort_by_name es)

abbrev pub listed : String → Metadata → ListEntry
listed name meta = record {
  name = name;
  kind = list_kind meta.file_type false;
  size = some meta.len;
}

-- The loop over the directory. `at_root` says that the directory is the root, where the server's own
-- state directory is left out.
unfoldable pub collect : (at_root : Bool) → List (DirEntry ⊎ IoError) → Result (List ListEntry)
unfolding list_kind
collect at_root [] = ok []
collect at_root (inr e ∷ es) = err (io_failed "list failed: " e)
collect at_root (inl d ∷ es) =
    let rest = collect at_root es in
    if at_root && str_eq d.name ".remote-workspace" then rest else elim d.meta [
      | inl meta ↦ rest >>= λ more. ok (listed d.name meta ∷ more)
      | inr e ↦ if is_missing e.kind then rest else err (io_failed "list failed: " e)
    ]

abbrev pub saturating_end : (offset limit count : ℕ) → ℕ
saturating_end offset limit count = min (min (offset + limit) (u64_mod - 1)) count

unfoldable pub list_page : (offset limit : ℕ) → List ListEntry → Result ListResult
list_page offset limit entries =
    if ltb 0 offset && leb (length entries) offset
    then invalid (
        "offset "
        <> show offset
        <> " is past the last entry ("
        <> show (length entries)
        <> " entries)")
    else ok (record {
      entries = take (saturating_end offset limit (length entries) - offset) (drop offset entries);
      next_offset =
          if ltb (saturating_end offset limit (length entries)) (length entries)
          then some (saturating_end offset limit (length entries))
          else none;
    })

abbrev check_limit : ℕ → Result (Unit {0})
check_limit limit =
    if limit == 0
    then invalid "list limit must be between 1 and 1000 entries"
    else if ltb list_max_limit limit
    then invalid "list limit must be between 1 and 1000 entries"
    else ok tt

abbrev directory : (path : String) → AbsPath → FileSystem → Result (Unit {0})
directory path abs fs = elim (fs.symlink_metadata abs) [
  | inl meta ↦
      if is_dir meta.file_type
      then ok tt
      else err (new ErrorCode.not_a_directory ("not a directory: " <> path))
  | inr e ↦
      if is_missing e.kind
      then err (new ErrorCode.not_found ("not found: " <> path))
      else err (io_failed "list failed: " e)
]

abbrev entries_of : ReadDir → AbsPath → Result (List (DirEntry ⊎ IoError))
entries_of read_dir abs = elim (read_dir abs) [
  | inl entries ↦ ok entries
  | inr e ↦ err (io_failed "list failed: " e)
]

unfoldable pub list :
    FileSystem
    → ReadDir
    → Workspace
    → (path : String) → (offset limit : Option ℕ) → Result ResultBody
unfolding resolve collect sort_by_name list_page path_eq
list fs read_dir ws path offset limit = do
  check_limit (unwrap_or limit list_default_limit)
  abs ← resolve fs ws path
  directory path abs fs
  found ← entries_of read_dir abs
  entries ← collect (path_eq abs ws.root) found
  result ←
      list_page (unwrap_or offset 0) (unwrap_or limit list_default_limit) (sort_by_name entries)
  ok (ResultBody.list result)
