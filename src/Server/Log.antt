-- ===== src/Server/Log.antt =====
-- crates/remote-workspace-server/src/store.rs, the JSONL logs: appending a line and undoing a write
-- that cannot be completed, reading the lines of a file, parsing them strictly and repairing the
-- tail. A file is its bytes; a missing file reads as an empty one. JSON (serde_json) is a parameter.
pub mod Lines
pub mod Json
pub mod Crash
pub mod Append
use remote_workspace.Prelude.{
  ℕ, ◌+◌, String, Bytes, Bool, true, false, ◌||◌, not, Option, none, some, List, [], ◌∷◌, ◌++◌, ◌⊎◌,
  inl, inr, max, ◌==◌, length, take, if◌then◌else◌, ◌<>◌,
}
use remote_workspace.Prelude.Utf8.{is_utf8, trim, is_empty}
use remote_workspace.Protocol.Error.{
  ProtocolError, IoError, new, io_error, Result, ok, err, ◌>>=◌, map_err, io_failed,
}

-- serde_json on one type: the text of a value or an error, a value or an error.
pub record Codec (A : Type 0) : Type 0 where
  pub to_string : A → Bytes ⊎ String
  pub from_str : Bytes → A ⊎ String

pub data AppendFailure : Type 0 where
  incomplete unsynced : ProtocolError → AppendFailure

abbrev pub failure_error : AppendFailure → ProtocolError
failure_error (incomplete e) = e
failure_error (unsynced e) = e

-- What the system calls of one append answer. A failed write leaves some bytes of the line behind.
pub record PartialWrite : Type 0 where
  pub written : ℕ
  pub error : IoError
  pub undo_error : Option IoError

pub record AppendIo : Type 0 where
  pub open_error : Option IoError
  pub stat_error : Option IoError
  pub write_error : Option PartialWrite
  pub sync_error : Option IoError

abbrev pub calm : AppendIo
calm = record { open_error = none; stat_error = none; write_error = none; sync_error = none }

pub record Appended : Type 0 where
  pub failure : Option AppendFailure
  pub file : Bytes
  pub torn : Bool

-- `f.set_len(n)` of a file that has at least that many bytes
abbrev set_len : ℕ → Bytes → Bytes
set_len = take

write_failed : Bytes → Bytes → String → PartialWrite → Appended
write_failed file line what w = elim w.undo_error [
  | some t ↦ record {
    failure = some (
        incomplete (
          new io_error (
            "write " <> what <> ": " <> w.error.text <> "; the partial line could not be undone ("
            <> t.text <> "), so this server will not append again -- restart to repair")));
    file = file ++ take w.written line;
    torn = true;
  }
  | none ↦ record {
    failure = some (incomplete (io_failed ("write " <> what <> ": ") w.error));
    file = set_len (length file) (file ++ take w.written line);
    torn = false;
  }
]

-- `append_line`
unfoldable pub append_line :
    (torn : Bool) (file serialized : Bytes) (what : String) → AppendIo → Appended
unfolding write_failed
append_line true file serialized what io = record {
  failure = some (
      incomplete (
        new io_error (
          "refusing to append to " <> what <> ": an earlier partial line could not be undone, and "
          <> "appending after it would leave a log the next start cannot read; restart the server to "
          <> "repair it")));
  file = file;
  torn = true;
}
append_line false file serialized what io = elim io.open_error [
  | some e ↦ record {
    failure = some (incomplete (io_failed ("open " <> what <> ": ") e));
    file = file;
    torn = false;
  }
  | none ↦ elim io.stat_error [
    | some e ↦ record {
      failure = some (incomplete (io_failed ("stat " <> what <> ": ") e));
      file = file;
      torn = false;
    }
    | none ↦ elim io.write_error [
      | some w ↦ write_failed file (serialized ++ b'\n' ∷ []) what w
      | none ↦ elim io.sync_error [
        | some e ↦ record {
          failure = some (unsynced (io_failed ("fsync " <> what <> ": ") e));
          file = file ++ (serialized ++ b'\n' ∷ []);
          torn = false;
        }
        | none ↦ record { failure = none; file = file ++ (serialized ++ b'\n' ∷ []); torn = false }
      ]
    ]
  ]
]

pub record LineEntry : Type 0 where
  pub text : Bytes
  pub start_offset : ℕ
  pub has_newline : Bool
  pub utf8_ok : Bool
  pub raw_len : ℕ

-- `bytes_to_text`, as the text and the flag of the line
abbrev pub line_entry : Bytes → ℕ → Bool → LineEntry
line_entry raw start has_newline = record {
  text = if is_utf8 raw then raw else [];
  start_offset = start;
  has_newline = has_newline;
  utf8_ok = is_utf8 raw;
  raw_len = length raw;
}

-- The loop of `read_lines`: `raw` is what was read of the line that begins at `start`.
unfoldable pub read_from : ℕ → Bytes → Bytes → List LineEntry
read_from start [] [] = []
read_from start (r ∷ raw) [] = line_entry (r ∷ raw) start false ∷ []
read_from start raw (b ∷ bytes) =
    let line = line_entry raw start true ∷ read_from (start + length raw + 1) [] bytes in
    let more = read_from start (raw ++ b ∷ []) bytes in if b == b'\n' then line else more

unfoldable pub read_lines : Bytes → List LineEntry
unfolding read_from
read_lines bytes = read_from 0 [] bytes

-- `filter`, `map`, `max`, `unwrap_or(0)`
unfoldable pub valid_content_end_offset : List LineEntry → ℕ
valid_content_end_offset [] = 0
valid_content_end_offset (e ∷ entries) =
    max (if e.has_newline then e.start_offset + e.raw_len + 1 else 0)
      (valid_content_end_offset entries)

pub data ParseResult (A : Type 0) : Type 0 where
  parsed : A → ParseResult A
  skipped_crash_truncated : ParseResult A
  skipped_blank : ParseResult A

module _ {A : Type 0} (json : Codec A) where
  abbrev parse_trimmed : Bool → Bytes → Result (ParseResult A)
  parse_trimmed has_newline trimmed = elim (json.from_str trimmed) [
    | inl v ↦ ok (parsed v)
    | inr e ↦
        if has_newline
        then err (
            new io_error (
              "corrupted log: line is not valid JSON (" <> e
              <> "); refusing to start with a damaged authoritative record"))
        else ok skipped_crash_truncated
  ]

  unfoldable pub parse_log_line_strict : LineEntry → Result (ParseResult A)
  parse_log_line_strict entry =
      if not entry.utf8_ok
      then (if not entry.has_newline
          then ok skipped_crash_truncated
          else err (new io_error "corrupted log: line is not valid UTF-8; refusing to start"))
      else if is_empty (trim entry.text)
      then (if not entry.has_newline
          then ok skipped_blank
          else err (new io_error "corrupted log: line is empty (jsonl records must not be blank)"))
      else parse_trimmed entry.has_newline (trim entry.text)

  -- One of the two loops of `OperationStore::new` over the lines of a log: the values in order, and
  -- whether the file needs truncation.
  abbrev collect_line : ParseResult A → List A × Bool → List A × Bool
  collect_line (parsed v) (vs, t) = (v ∷ vs, t)
  collect_line skipped_crash_truncated (vs, t) = (vs, true)
  collect_line skipped_blank (vs, t) = (vs, t)

  unfoldable pub parse_lines : List LineEntry → Result (List A × Bool)
  unfolding parse_log_line_strict
  parse_lines [] = ok ([], false)
  parse_lines (e ∷ entries) = do
    r ← parse_log_line_strict e
    rest ← parse_lines entries
    ok (collect_line r rest)

-- `truncate_trailing_garbage`
unfoldable pub truncate_trailing_garbage : List LineEntry → Bytes → Bytes
unfolding valid_content_end_offset
truncate_trailing_garbage entries file = set_len (valid_content_end_offset entries) file

-- `append_missing_newline`
abbrev wants_newline : LineEntry → Bool
wants_newline l = not (l.has_newline || (is_empty (trim l.text) || not l.utf8_ok))

unfoldable pub append_missing_newline : List LineEntry → Bytes → Bytes
append_missing_newline [] file = file
append_missing_newline (l ∷ []) file = if wants_newline l then file ++ b'\n' ∷ [] else file
append_missing_newline (l ∷ m ∷ entries) file = append_missing_newline (m ∷ entries) file

-- The repair that `OperationStore::new` makes after the loop.
module _ {A : Type 0} (json : Codec A) where
  abbrev pub repair : Bool → List LineEntry → Bytes → Bytes
  repair true lines file = truncate_trailing_garbage lines file
  repair false lines file = append_missing_newline lines file

  -- Read, parse and repair one log: its values and the file as it is left.
  unfoldable pub load_log : Bytes → Result (List A × Bytes)
  unfolding read_lines parse_lines truncate_trailing_garbage append_missing_newline
  load_log file = do
    let lines = read_lines file
    vs ← parse_lines json lines
    ok (vs.0, repair vs.1 lines file)

  -- `rewrite_jsonl`: the whole new text of a log, or the error of the first value that has none.
  unfoldable pub rewrite_jsonl : List A → Result Bytes
  rewrite_jsonl [] = ok []
  rewrite_jsonl (v ∷ vs) = elim (json.to_string v) [
    | inl line ↦ (do rest ← rewrite_jsonl vs; ok ((line ++ b'\n' ∷ []) ++ rest))
    | inr e ↦ err (new io_error ("serialize: " <> e))
  ]
