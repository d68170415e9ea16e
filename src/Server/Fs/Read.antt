-- ===== src/Server/Fs/Read.antt =====
-- fs_ops.rs: `read` and `stat`. The file that was opened holds what `contents` answers; a read of a
-- window of it gives those bytes of it.
pub mod Paging
use remote_workspace.Prelude.{
  ℕ, zero, suc, ◌+◌, ◌-◌, ◌/◌, ◌%◌, min, String, Bytes, Bool, true, false, not, ◌&&◌, Option, none,
  some, [], ◌∷◌, inl, inr, length, take, drop, ltb, leb, ◌==◌, ◌<>◌, if◌then◌else◌,
}
use remote_workspace.Prelude.Decimal.{show}
use remote_workspace.Prelude.Utf8.{is_utf8}
use remote_workspace.Protocol.Error.{
  ErrorCode, ProtocolError, IoError, IoErrorKind, new, io_failed, Result, ok, err, ◌>>=◌, ◌>>◌,
}
use remote_workspace.Protocol.Messages.{ReadResult, ListKind, FileEntry, FileMode}
use remote_workspace.Protocol.Record.{ResultBody}
use remote_workspace.Server.Workspace.{
  AbsPath, FileType, Metadata, FileSystem, Workspace, is_missing, is_file, is_dir, is_link, resolve,
  is_symlink, hash_bytes, hash_file,
}
use remote_workspace.Server.Fs.Apply.{max_text_bytes, invalid}
use remote_workspace.Server.Fs.Edit.{not_a_regular_file}

abbrev read_default_limit : ℕ
read_default_limit = 65536

abbrev pub read_max_limit : ℕ
read_max_limit = 65536

abbrev pub utf8_tail_slack : ℕ
utf8_tail_slack = 3

-- The two highest bits are 10.
abbrev pub is_continuation : ℕ → Bool
is_continuation byte = byte / 64 == 2

unfoldable pub check_offset : (start file_len : ℕ) → Result (Unit {0})
check_offset start file_len =
    if ltb file_len start
    then invalid ("offset " <> show start <> " is past end of file (" <> show file_len <> " bytes)")
    else ok tt

-- How far the loop that looks for the next character boundary goes.
unfoldable pub boundary : Bytes → ℕ
boundary [] = 0
boundary (b ∷ s) = let n = boundary s in if is_continuation b then suc n else 0

abbrev starts_inside : Bytes → Bool
starts_inside [] = false
starts_inside (b ∷ s) = is_continuation b

unfoldable pub page_end : (limit : ℕ) → (window : Bytes) → ℕ
unfolding boundary
page_end limit window =
    min (length window) limit + boundary (drop (min (length window) limit) window)

abbrev page_of : (start end file_len : ℕ) → Bytes → Option String → ReadResult
page_of start end file_len content hash = record {
  content = content;
  hash = hash;
  truncated = ltb (start + end) file_len;
  next_offset = if ltb (start + end) file_len then some (start + end) else none;
}

-- The page of a window.
unfoldable pub page :
    (start limit file_len : ℕ) → (window : Bytes) → Option String → Result ReadResult
unfolding page_end is_utf8
page start limit file_len window hash =
    if starts_inside window
    then invalid ("offset " <> show start <> " is not on a UTF-8 character boundary")
    else if is_utf8 (take (page_end limit window) window)
    then ok
        (page_of start (page_end limit window) file_len (take (page_end limit window) window) hash)
    else invalid "file is not valid UTF-8; binary reads are not supported"

abbrev pub unwrap_or : Option ℕ → ℕ → ℕ
unwrap_or none d = d
unwrap_or (some n) d = n

abbrev check_limit : ℕ → Result (Unit {0})
check_limit limit =
    if limit == 0
    then invalid "read limit must be between 1 and 65536 bytes"
    else if ltb read_max_limit limit
    then invalid "read limit must be between 1 and 65536 bytes"
    else ok tt

unfoldable pub list_kind : FileType → (symlink : Bool) → ListKind
list_kind file_type symlink =
    if symlink
    then ListKind.symlink
    else if is_link file_type
    then ListKind.symlink
    else if is_dir file_type
    then ListKind.dir
    else ListKind.file

-- `mode & 0o400 != 0`, `mode & 0o200 != 0`, `mode & 0o111 != 0`
abbrev has_bit : (bit mode : ℕ) → Bool
has_bit bit mode = mode / bit % 2 == 1

unfoldable pub file_mode : Metadata → FileMode
file_mode meta = record {
  readable = has_bit 256 meta.mode;
  writable = has_bit 128 meta.mode;
  executable =
      if has_bit 64 meta.mode
      then true
      else if has_bit 8 meta.mode
      then true
      else has_bit 1 meta.mode;
}

module _ (sha256_hex : Bytes → String) where
  -- A file that is read once, whole, and one of which the window alone is read.
  unfoldable pub read_whole : (start limit : ℕ) → (whole : Bytes) → Result ReadResult
  unfolding check_offset page hash_bytes
  read_whole start limit whole =
      check_offset start (length whole)
      >> page start limit (length whole)
          (take (min (length whole) (start + limit + utf8_tail_slack) - start) (drop start whole))
          (some (hash_bytes sha256_hex whole))

  unfoldable pub read_window : (start limit file_len : ℕ) → (bytes : Bytes) → Result ReadResult
  unfolding check_offset page
  read_window start limit file_len bytes =
      check_offset start file_len
      >> page start limit file_len (take (limit + utf8_tail_slack) (drop start bytes)) none

  abbrev meta_of : (what path : String) → AbsPath → FileSystem → Result Metadata
  meta_of what path abs fs = elim (fs.metadata abs) [
    | inl meta ↦ ok meta
    | inr e ↦
        if is_missing e.kind
        then err (new ErrorCode.not_found ("not found: " <> path))
        else err (io_failed what e)
  ]

  abbrev readable : (path : String) → Metadata → Result (Unit {0})
  readable path meta =
      if is_dir meta.file_type
      then err (new ErrorCode.is_a_directory ("is a directory: " <> path))
      else if is_file meta.file_type
      then ok tt
      else err (not_a_regular_file path)

  abbrev open_file : AbsPath → FileSystem → Result Bytes
  open_file abs fs = elim (fs.contents abs) [
    | inl bytes ↦ ok bytes
    | inr e ↦ err (io_failed "read failed: " e)
  ]

  unfoldable pub read :
      FileSystem → Workspace → (path : String) → (offset limit : Option ℕ) → Result ResultBody
  unfolding resolve read_whole read_window
  read fs ws path offset limit = do
    abs ← resolve fs ws path
    meta ← meta_of "read failed: " path abs fs
    readable path meta
    check_limit (unwrap_or limit read_default_limit)
    bytes ← open_file abs fs
    result ←
        if leb meta.len max_text_bytes
        then read_whole (unwrap_or offset 0) (unwrap_or limit read_default_limit) bytes
        else read_window (unwrap_or offset 0) (unwrap_or limit read_default_limit) meta.len bytes
    ok (ResultBody.read result)

  abbrev is_denied : IoErrorKind → Bool
  is_denied IoErrorKind.denied = true
  is_denied _ = false

  abbrev entry_hash : AbsPath → FileSystem → Metadata → Result (Option String)
  entry_hash abs fs meta =
      if is_file meta.file_type && leb meta.len max_text_bytes
      then elim (hash_file sha256_hex fs abs) [
        | inl h ↦ ok h
        | inr e ↦ if is_denied e.kind then ok none else err (io_failed "stat failed: " e)
      ]
      else ok none

  unfoldable pub entry_for :
      FileSystem → (client_path : String) → AbsPath → Metadata → (symlink : Bool) → Result FileEntry
  unfolding list_kind file_mode hash_file
  entry_for fs client_path abs meta symlink = do
    hash ← entry_hash abs fs meta
    ok (record {
      path = client_path;
      kind = list_kind meta.file_type symlink;
      size = meta.len;
      hash = hash;
      mode = some (file_mode meta);
    })

  unfoldable pub stat : FileSystem → Workspace → (path : String) → Result ResultBody
  unfolding resolve is_symlink entry_for
  stat fs ws path = do
    abs ← resolve fs ws path
    meta ← meta_of "stat failed: " path abs fs
    link ← is_symlink fs ws path
    entry ← entry_for fs path abs meta link
    ok (ResultBody.stat entry)
