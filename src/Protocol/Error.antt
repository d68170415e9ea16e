-- ===== src/Protocol/Error.antt =====
-- crates/remote-workspace-protocol/src/error.rs, and `Result<T, ProtocolError>`.
use remote_workspace.Prelude.{String, Option, none, some, ◌<>◌, ◌≡◌, refl}

pub data ErrorCode : Type 0 where
  invalid_request unknown_operation path_outside_root not_found not_a_file : ErrorCode
  not_a_directory is_a_directory invalid_hash stale_file io_error exec_failed : ErrorCode
  operation_not_found request_not_found patch_failed undo_conflict : ErrorCode
  already_exists no_match ambiguous_match : ErrorCode

pub record ProtocolError : Type 0 where
  pub code : ErrorCode
  pub message : String
  pub expected_hash : Option String
  pub actual_hash : Option String

-- The wire spelling of a code.
abbrev pub code_name : ErrorCode → String
code_name ErrorCode.invalid_request = "INVALID_REQUEST"
code_name ErrorCode.unknown_operation = "UNKNOWN_OPERATION"
code_name ErrorCode.path_outside_root = "PATH_OUTSIDE_ROOT"
code_name ErrorCode.not_found = "NOT_FOUND"
code_name ErrorCode.not_a_file = "NOT_A_FILE"
code_name ErrorCode.not_a_directory = "NOT_A_DIRECTORY"
code_name ErrorCode.is_a_directory = "IS_A_DIRECTORY"
code_name ErrorCode.invalid_hash = "INVALID_HASH"
code_name ErrorCode.stale_file = "STALE_FILE"
code_name ErrorCode.io_error = "IO_ERROR"
code_name ErrorCode.exec_failed = "EXEC_FAILED"
code_name ErrorCode.operation_not_found = "OPERATION_NOT_FOUND"
code_name ErrorCode.request_not_found = "REQUEST_NOT_FOUND"
code_name ErrorCode.patch_failed = "PATCH_FAILED"
code_name ErrorCode.undo_conflict = "UNDO_CONFLICT"
code_name ErrorCode.already_exists = "ALREADY_EXISTS"
code_name ErrorCode.no_match = "NO_MATCH"
code_name ErrorCode.ambiguous_match = "AMBIGUOUS_MATCH"

abbrev both_hashes : Option String → Option String → String
both_hashes (some expected) (some actual) =
    " (base_hash " <> expected <> ", current " <> actual <> ")"
both_hashes _ _ = ""

-- `Display for ProtocolError`
abbrev pub display : ProtocolError → String
display e = code_name e.code <> ": " <> e.message <> both_hashes e.expected_hash e.actual_hash

-- `ProtocolError::new`
abbrev pub new : ErrorCode → String → ProtocolError
new code message = record {
  code = code;
  message = message;
  expected_hash = none;
  actual_hash = none;
}

-- `ProtocolError::with_hashes`
abbrev pub with_hashes : ProtocolError → String → String → ProtocolError
with_hashes e expected actual = record e {
  expected_hash = some expected;
  actual_hash = some actual;
}

-- `std::io::Error`: the kinds that the program tells apart, and the text that it prints.
pub data IoErrorKind : Type 0 where
  missing exists denied other : IoErrorKind

pub record IoError : Type 0 where
  pub kind : IoErrorKind
  pub text : String

-- `impl From<std::io::Error> for ProtocolError`
abbrev io_code : IoErrorKind → ErrorCode
io_code IoErrorKind.missing = not_found
io_code IoErrorKind.exists = io_error
io_code IoErrorKind.denied = io_error
io_code IoErrorKind.other = io_error

abbrev pub from_io : IoError → ProtocolError
from_io e = new (io_code e.kind) e.text

pub data Result {ℓ} (A : Type ℓ) : Type ℓ where
  ok : A → Result A
  err : ProtocolError → Result A

-- The `?` operator.
infixl 5 ◌>>=◌ ◌>>◌
abbrev pub ◌>>=◌ {ℓ κ} : {A : Type ℓ} {B : Type κ} → Result A → (A → Result B) → Result B
ok a >>= f = f a
err e >>= f = err e

abbrev pub ◌>>◌ {ℓ κ} : {A : Type ℓ} {B : Type κ} → Result A → Result B → Result B
m >> k = m >>= λ _. k

-- `map_err` on the outcome of a system call: `none` is success.
abbrev pub map_err : (IoError → ProtocolError) → Option IoError → Result (Unit {0})
map_err f none = ok tt
map_err f (some e) = err (f e)

-- `io_error` with a prefix, as in `format!("read failed: {e}")`.
abbrev pub io_failed : String → IoError → ProtocolError
io_failed what e = new io_error (what <> e.text)

-- A chain that succeeds succeeds at its first step.
pub >>=-eq-ok {ℓ κ} :
    {A : Type ℓ} {B : Type κ} (m : Result A) (f : A → Result B) (b : B)
    → (m >>= f) ≡ ok b
    → (a : A) × (m ≡ ok a) × (f a ≡ ok b)
>>=-eq-ok (ok a) f b h = (a, refl, h)
>>=-eq-ok (err e) f b h = cc
