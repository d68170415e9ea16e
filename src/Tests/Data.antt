-- ===== src/Tests/Data.antt =====
-- A small store, a disk with one file, and codecs of which the theorems applied to them ask no law.
use remote_workspace.Prelude.{String, Bytes, Bool, none, some, [], ◌∷◌, inl, inr, length}
use remote_workspace.Prelude.Decimal.{show}
use remote_workspace.Protocol.Error.{IoError, IoErrorKind}
use remote_workspace.Protocol.Record.{
  AnyOperationRecord, OperationKind, FsOperationRecord, PreparedRecord,
}
use remote_workspace.Server.Log.{Codec}
use remote_workspace.Server.Workspace.{FileSystem, AbsPath, Workspace}
use remote_workspace.Server.Store.{RequestLogLine, OperationStore}
use remote_workspace.Server.Store.Requests.{claimed, claim_line}
use remote_workspace.Server.Fs.WriteAhead.{put_file, Io}

abbrev pub written : FsOperationRecord
written = record {
  operation_id = "op-7";
  request_id = "r7";
  kind = OperationKind.create;
  path = "a";
  before_hash = none;
  after_hash = "sha256:2";
  timestamp_ms = 5;
}

abbrev pub announced : PreparedRecord
announced = record {
  operation_id = "op-8";
  request_id = "r8";
  kind = OperationKind.edit;
  path = "a";
  before_hash = some "sha256:2";
  expected_after_hash = "sha256:5";
  timestamp_ms = 6;
}

abbrev pub records_codec : Codec AnyOperationRecord
records_codec = record {
  to_string = λ r. inl (b'{' ∷ b'}' ∷ []);
  from_str = λ b. inl (AnyOperationRecord.fs written);
}

abbrev pub requests_codec : Codec RequestLogLine
requests_codec = record {
  to_string = λ l. inl (b'{' ∷ b'}' ∷ []);
  from_str = λ b. inl (claim_line "r1" "exec");
}

abbrev pub store : OperationStore
store = record {
  operations_file = b'{' ∷ b'}' ∷ b'\n' ∷ [];
  requests_file = [];
  counter_file = none;
  next_id = 8;
  records =
      AnyOperationRecord.fs written
      ∷ AnyOperationRecord.fs written
      ∷ AnyOperationRecord.prepared announced
      ∷ [];
  requests = ("r1", claimed "exec") ∷ ("r7", claimed "create") ∷ [];
  log_torn = Bool.false;
  weather = [];
}

-- A store with no markers, whose server went down while a command ran.
abbrev pub interrupted : OperationStore
interrupted = record store { records = AnyOperationRecord.fs written ∷ [] }

abbrev missing : IoError
missing = record { kind = IoErrorKind.missing; text = "No such file or directory" }

abbrev empty_disk : FileSystem
empty_disk = record {
  canonicalize = λ p. inr missing;
  metadata = λ p. inr missing;
  symlink_metadata = λ p. inr missing;
  contents = λ p. inr missing;
}

abbrev pub file_path : AbsPath
file_path = "root" ∷ "a" ∷ []

abbrev pub hi : Bytes
hi = b'h' ∷ b'i' ∷ []

abbrev pub disk : FileSystem
disk = put_file file_path 420 hi empty_disk

abbrev pub workspace : Workspace
workspace = record { root = "root" ∷ []; scratch_root = "scratch" ∷ [] }

abbrev pub size_hash : Bytes → String
size_hash b = show (length b)

-- No call fails, and the other writers do nothing.
abbrev pub quiet : Io
quiet = record {
  mkdir = none;
  reached = none;
  temp = none;
  write = none;
  chmod = none;
  persist = none;
  remove = none;
  sync = none;
  first_mode = 493;
  meanwhile = λ fs. fs;
}
