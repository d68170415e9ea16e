-- ===== src/Server/Log/Lines.antt =====
-- How `read_lines` splits a log that was written line by line, whole lines and a rest.
use mathlib.Core.List.{append_assoc, append-nil}
use remote_workspace.Prelude.{
  ℕ, ◌+◌, Bytes, ◌≡◌, ◌≢◌, refl, sym, ap, ◌∙◌, true, false, List, [], ◌∷◌, ◌++◌, arith, max, length,
  length-append, if◌then◌else◌, ne→==,
}
use remote_workspace.Server.Log.{
  LineEntry, line_entry, read_from, valid_content_end_offset, append_missing_newline, wants_newline,
}

-- No newline among the bytes.
abbrev pub OneLine : Bytes → Type 0
OneLine [] = Unit
OneLine (b ∷ bytes) = (b ≢ b'\n') × OneLine bytes

read_from-line :
    (start : ℕ) (acc raw rest : Bytes)
    → OneLine raw
    → read_from start acc (raw ++ b'\n' ∷ rest)
      ≡ line_entry (acc ++ raw) start true ∷ read_from (start + length (acc ++ raw) + 1) [] rest
unfolding read_from
read_from-line start acc [] rest h = rw append-nil refl
read_from-line start acc (b ∷ raw) rest h =
    rw (ne→== b b'\n' h.0)
      (rw (append_assoc acc (b ∷ []) raw) at (read_from-line start (acc ++ b ∷ []) raw rest h.1))

-- The bytes after the last newline.
abbrev pub tail_entries : ℕ → Bytes → List LineEntry
tail_entries start [] = []
tail_entries start (b ∷ raw) = line_entry (b ∷ raw) start false ∷ []

read_from-tail :
    (start : ℕ) (acc raw : Bytes)
    → OneLine raw
    → read_from start acc raw ≡ tail_entries start (acc ++ raw)
unfolding read_from
read_from-tail start [] [] h = refl
read_from-tail start (a ∷ acc) [] h = rw append-nil refl
read_from-tail start acc (b ∷ raw) h =
    rw (ne→== b b'\n' h.0)
      (rw (append_assoc acc (b ∷ []) raw) at (read_from-tail start (acc ++ b ∷ []) raw h.1))

-- A log of whole lines.
abbrev pub encode : List Bytes → Bytes
encode [] = []
encode (line ∷ lines) = line ++ (b'\n' ∷ encode lines)

abbrev pub entries_of : ℕ → List Bytes → List LineEntry
entries_of start [] = []
entries_of start (line ∷ lines) =
    line_entry line start true ∷ entries_of (start + length line + 1) lines

abbrev pub AllOneLine : List Bytes → Type 0
AllOneLine [] = Unit
AllOneLine (line ∷ lines) = OneLine line × AllOneLine lines

pub read_lines-encode :
    (start : ℕ) (lines : List Bytes) (rest : Bytes)
    → AllOneLine lines
    → OneLine rest
    → read_from start [] (encode lines ++ rest)
      ≡ entries_of start lines ++ tail_entries (start + length (encode lines)) rest
read_lines-encode start [] rest h r =
    let z : start + 0 ≡ start = omega arith in rw z (read_from-tail start [] rest r)
read_lines-encode start (line ∷ lines) rest h r =
    ap (read_from start []) (append_assoc line (b'\n' ∷ encode lines) rest)
    ∙ read_from-line start [] line (encode lines ++ rest) h.0
    ∙ ap (λ es. line_entry line start true ∷ es)
        (read_lines-encode (start + length line + 1) lines rest h.1 r
          ∙ ap (λ n. entries_of (start + length line + 1) lines ++ tail_entries n rest)
              (omega (arith, length-append line (b'\n' ∷ encode lines))))

-- The offset past the last newline is where the rest begins.
pub valid_content_end_offset-entries_of :
    (start : ℕ) (lines : List Bytes) (rest : Bytes) (at : ℕ)
    → max start (valid_content_end_offset (entries_of start lines ++ tail_entries at rest))
      ≡ start + length (encode lines)
unfolding valid_content_end_offset
valid_content_end_offset-entries_of start [] [] at = omega arith
valid_content_end_offset-entries_of start [] (b ∷ rest) at = omega arith
valid_content_end_offset-entries_of start (line ∷ lines) rest at = omega (
  arith,
  valid_content_end_offset-entries_of (start + length line + 1) lines rest at,
  length-append line (b'\n' ∷ encode lines),
)

-- The missing newline is looked for at the rest alone.
pub append_missing_newline-entries_of :
    (start : ℕ) (lines : List Bytes) (e : LineEntry) (file : Bytes)
    → append_missing_newline (entries_of start lines ++ e ∷ []) file
      ≡ (if wants_newline e then file ++ b'\n' ∷ [] else file)
unfolding append_missing_newline
append_missing_newline-entries_of start [] e file = refl
append_missing_newline-entries_of start (line ∷ []) e file = refl
append_missing_newline-entries_of start (line ∷ m ∷ lines) e file =
    append_missing_newline-entries_of (start + length line + 1) (m ∷ lines) e file

pub append_missing_newline-whole :
    (start : ℕ) (lines : List Bytes) (file : Bytes)
    → append_missing_newline (entries_of start lines) file ≡ file
unfolding append_missing_newline
append_missing_newline-whole start [] file = refl
append_missing_newline-whole start (line ∷ []) file = refl
append_missing_newline-whole start (line ∷ m ∷ lines) file =
    append_missing_newline-whole (start + length line + 1) (m ∷ lines) file

pub encode-append : (xs ys : List Bytes) → encode (xs ++ ys) ≡ encode xs ++ encode ys
encode-append [] ys = refl
encode-append (x ∷ xs) ys =
    ap (λ t. x ++ b'\n' ∷ t) (encode-append xs ys)
    ∙ sym (append_assoc x (b'\n' ∷ encode xs) (encode ys))
