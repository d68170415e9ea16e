-- ===== src/Server/Fs/Apply.antt =====
-- fs_ops.rs, the pure part of `edit`: the checks of its arguments, and the replacements one after the
-- other. `usize` has 64 bits.
pub mod Size
use remote_workspace.Prelude.{
  ℕ, zero, suc, ◌+◌, ◌*◌, ◌-◌, min, String, Bytes, Bool, true, false, not, ◌&&◌, ◌||◌, none, some,
  List, [], ◌∷◌, length, codes, ltb, leb, ◌==◌, ◌<>◌, if◌then◌else◌,
}
use remote_workspace.Prelude.Decimal.{show, strip_prefix, u64_mod}
use remote_workspace.Protocol.Error.{ErrorCode, ProtocolError, new, Result, ok, err, ◌>>=◌, ◌>>◌}
use remote_workspace.Protocol.Messages.{EditSpec}
use remote_workspace.Server.Fs.Text.{matches, replace, replace_first}

abbrev pub max_text_bytes : ℕ
max_text_bytes = 4194304

abbrev pub max_edits : ℕ
max_edits = 100

abbrev pub invalid {ℓ} : {A : Type ℓ} → String → Result A
invalid message = err (new ErrorCode.invalid_request message)

abbrev is_hex : ℕ → Bool
is_hex b = leb 48 b && leb b 57 || leb 97 b && leb b 102 || leb 65 b && leb b 70

unfoldable all_hex : List ℕ → Bool
all_hex [] = true
all_hex (b ∷ s) = is_hex b && all_hex s

unfoldable pub is_well_formed_hash : String → Bool
unfolding all_hex
is_well_formed_hash hash = elim (strip_prefix "sha256:" hash) [
  | some hex ↦ length (codes hex) == 64 && all_hex (codes hex)
  | none ↦ false
]

unfoldable pub edit_prefix : (index total : ℕ) → String
edit_prefix index total =
    if total == 1 then "" else "edit " <> show (index + 1) <> " of " <> show total <> ": "

unfoldable pub bytes_eq : Bytes → Bytes → Bool
bytes_eq [] [] = true
bytes_eq [] (b ∷ t) = false
bytes_eq (a ∷ s) [] = false
bytes_eq (a ∷ s) (b ∷ t) = a == b && bytes_eq s t

abbrev pub is_empty_text : Bytes → Bool
is_empty_text [] = true
is_empty_text (b ∷ s) = false

-- The arguments of one replacement.
unfoldable pub check_edit : (at : String) → EditSpec → Result (Unit {0})
unfolding bytes_eq
check_edit at e =
    if is_empty_text e.old_text
    then invalid (at <> "old_text must not be empty")
    else if bytes_eq e.old_text e.new_text
    then invalid (at <> "old_text and new_text are identical; nothing to change")
    else if ltb max_text_bytes (length e.old_text) || ltb max_text_bytes (length e.new_text)
    then invalid (at <> "old_text/new_text exceed 4194304 bytes")
    else ok tt

unfoldable pub check_edits : (index total : ℕ) → List EditSpec → Result (Unit {0})
unfolding edit_prefix check_edit
check_edits index total [] = ok tt
check_edits index total (e ∷ es) =
    check_edit (edit_prefix index total) e >> check_edits (index + 1) total es

abbrev check_list : List EditSpec → Result (Unit {0})
check_list edits =
    if length edits == 0
    then invalid "edits must not be empty"
    else if ltb max_edits (length edits)
    then invalid "edits must not exceed 100 replacements"
    else ok tt

unfoldable pub check_arguments : List EditSpec → Result (Unit {0})
unfolding check_edits
check_arguments edits = check_list edits >> check_edits 0 (length edits) edits

abbrev pub usize_max : ℕ
usize_max = u64_mod - 1

abbrev saturating_add : ℕ → ℕ → ℕ
saturating_add a b = min (a + b) usize_max

abbrev saturating_mul : ℕ → ℕ → ℕ
saturating_mul a b = min (a * b) usize_max

abbrev pub replaced_count : EditSpec → (found : ℕ) → ℕ
replaced_count e found = if e.replace_all then found else 1

-- The size that the replacement is expected to give, from the number of matches.
unfoldable pub projected : (content : Bytes) → EditSpec → (found : ℕ) → ℕ
projected content e found =
    saturating_add (length content - saturating_mul (replaced_count e found) (length e.old_text))
      (saturating_mul (replaced_count e found) (length e.new_text))

unfoldable pub replaced_text : Bytes → EditSpec → Bytes
unfolding replace replace_first
replaced_text content e =
    if e.replace_all
    then replace content e.old_text e.new_text
    else replace_first content e.old_text e.new_text

-- One replacement, after `found` matches were counted.
unfoldable pub apply_found : (at path : String) → Bytes → EditSpec → (found : ℕ) → Result Bytes
unfolding projected replaced_text
apply_found at path content e found =
    if found == 0
    then err (
        new ErrorCode.no_match (
          at <> "old_text not found in " <> path
          <> "; re-read the file and copy the current text exactly"))
    else if ltb 1 found && not e.replace_all
    then err (
        new ErrorCode.ambiguous_match (
          at
          <> "old_text occurs "
          <> show found
          <> " times in "
          <> path
          <> "; extend it with surrounding context to make it unique, or pass replace_all=true"))
    else if ltb max_text_bytes (projected content e found)
    then invalid (at <> "resulting file would exceed 4194304 bytes")
    else ok (replaced_text content e)

unfoldable pub apply_edit : (at path : String) → Bytes → EditSpec → Result Bytes
unfolding matches apply_found
apply_edit at path content e = apply_found at path content e (matches content e.old_text)

-- The loop: each replacement sees what the ones before it gave.
unfoldable pub apply_edits :
    (path : String) → (index total : ℕ) → Bytes → List EditSpec → Result Bytes
unfolding edit_prefix apply_edit
apply_edits path index total content [] = ok content
apply_edits path index total content (e ∷ es) =
    apply_edit (edit_prefix index total) path content e >>= λ c.
    apply_edits path (index + 1) total c es
