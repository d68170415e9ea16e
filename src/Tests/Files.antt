-- ===== src/Tests/Files.antt =====
-- The theorems on file operations, at the data of Tests/Data.antt.
use mathlib.Core.Path.{◌≡◌, refl}
use mathlib.Core.Logic.{◌≢◌}
use remote_workspace.Prelude.Decimal.{show, strip_prefix, split}
use remote_workspace.Prelude.{◌≤◌, Bytes, true, false, some, [], ◌∷◌, length, arith}
use remote_workspace.Protocol.Error.{ok}
use remote_workspace.Protocol.Messages.{EditSpec, ReadResult}
use remote_workspace.Server.Fs.Text.{matches}
use remote_workspace.Server.Fs.WriteAhead.{World, StagedWrite}
use remote_workspace.Server.Fs.Sequence.{write_ahead_install}
use remote_workspace.Server.Fs.Sequence.Disk.{Rewrites, write_ahead_install-Rewrites}
use remote_workspace.Server.Fs.Apply.{
  check_edits, apply_edits, projected, replaced_text, max_text_bytes,
}
use remote_workspace.Server.Fs.Apply.Size.{projected-eq, apply_edits-le}
use remote_workspace.Prelude.{String, ◌⊎◌, List}
use remote_workspace.Protocol.Messages.{ListEntry, ListKind, ListResult}
use remote_workspace.Server.Workspace.{resolve, starts_with}
use remote_workspace.Server.Workspace.Inside.{resolve-starts_with}
use remote_workspace.Server.Fs.WriteAhead.{parent, put_file}
use remote_workspace.Server.Fs.Sequence.{atomic_create_bytes}
use remote_workspace.Server.Fs.Sequence.Create.{Creates, atomic_create_bytes-Creates}
use remote_workspace.Server.Fs.List.{list_page}
use remote_workspace.Server.Fs.List.Paging.{Continues, list_page-Continues}
use remote_workspace.Server.Fs.Read.{read_whole}
use remote_workspace.Server.Fs.Read.Paging.{Advances, read_whole-Advances}
use remote_workspace.Tests.Data.{
  hi, records_codec, store, disk, file_path, size_hash, quiet, workspace,
}

abbrev world : World
world = record { store = store; disk = disk }

abbrev staged : StagedWrite
staged = record { bytes = b'h' ∷ b'o' ∷ b'!' ∷ []; mode = 420; new_hash = "sha256:3" }

write_ahead_install-Rewrites_example :
    Rewrites size_hash quiet file_path "sha256:2" staged world (
      write_ahead_install records_codec 9 quiet size_hash "r3" "a" file_path "sha256:2" staged
        world)
write_ahead_install-Rewrites_example =
    write_ahead_install-Rewrites records_codec 9 quiet size_hash "r3" "a" file_path "sha256:2"
      staged world

abbrev grow : EditSpec
grow = record { old_text = b'h' ∷ []; new_text = b'o' ∷ b'o' ∷ []; replace_all = true }

abbrev hihi : Bytes
hihi = b'h' ∷ b'i' ∷ b'h' ∷ b'i' ∷ []

has_pattern : grow.old_text ≢ []
has_pattern h = cc

matched : 1 ≤ matches hihi grow.old_text
unfolding matches
matched = omega arith

projected-eq_example :
    projected hihi grow (matches hihi grow.old_text) ≡ length (replaced_text hihi grow)
projected-eq_example = projected-eq hihi grow has_pattern (omega arith) (omega arith) matched

abbrev shrink : EditSpec
shrink = record { old_text = b'i' ∷ b'o' ∷ []; new_text = []; replace_all = false }

accepted : check_edits 0 2 (grow ∷ shrink ∷ []) ≡ ok tt
unfolding check_edits
accepted = refl

abbrev edited : Bytes
edited = b'o' ∷ b'o' ∷ b'o' ∷ b'i' ∷ []

applied : apply_edits "a" 0 2 hihi (grow ∷ shrink ∷ []) ≡ ok edited
unfolding apply_edits
applied = refl

apply_edits-le_example : length edited ≤ max_text_bytes
apply_edits-le_example =
    apply_edits-le "a" 0 2 hihi (grow ∷ shrink ∷ []) edited accepted (omega arith) applied

-- A page that ends in the middle of a character of two bytes.
abbrev accented : Bytes
accented = b'a' ∷ 0xc3 ∷ 0xa9 ∷ b'b' ∷ []

abbrev first_page : ReadResult
first_page = record {
  content = b'a' ∷ 0xc3 ∷ 0xa9 ∷ [];
  hash = some "sha256:4";
  truncated = true;
  next_offset = some 3;
}

is_read : read_whole size_hash 0 2 accented ≡ ok first_page
unfolding read_whole show
is_read = refl

read_whole-Advances_example : Advances 0 accented first_page
read_whole-Advances_example =
    read_whole-Advances size_hash 0 2 accented first_page (omega arith) is_read

is_child : parent file_path ≡ some ("root" ∷ [])
unfolding parent
is_child = refl

atomic_create_bytes-Creates_example :
    Creates quiet
      ("root" ∷ [])
      file_path
      hi
      world
      (atomic_create_bytes quiet file_path hi "a" world)
atomic_create_bytes-Creates_example =
    atomic_create_bytes-Creates quiet ("root" ∷ []) file_path hi "a" world is_child

resolves : resolve disk workspace "./a" ≡ ok file_path
unfolding resolve strip_prefix split put_file
resolves = refl

resolve-starts_with_example :
    (starts_with file_path workspace.root ≡ true)
    ⊎ (starts_with file_path workspace.scratch_root ≡ true)
resolve-starts_with_example = resolve-starts_with disk workspace "./a" file_path resolves

abbrev named : String → ListEntry
named name = record { name = name; kind = ListKind.file; size = some 1 }

abbrev three : List ListEntry
three = named "a" ∷ named "b" ∷ named "c" ∷ []

abbrev second_page : ListResult
second_page = record { entries = named "b" ∷ []; next_offset = some 2 }

is_listed : list_page 1 1 three ≡ ok second_page
unfolding list_page
is_listed = refl

list_page-Continues_example : Continues 1 1 three second_page
list_page-Continues_example =
    list_page-Continues 1 1 three second_page (omega arith) (omega arith) is_listed
