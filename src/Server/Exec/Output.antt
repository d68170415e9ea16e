-- ===== src/Server/Exec/Output.antt =====
-- exec.rs, `OutputCapture` and `fit`: what is kept of a command's output. Decoding is a parameter,
-- `String::from_utf8_lossy` on Unix; a text is its UTF-8 bytes.
pub mod Stream
pub mod Window
pub mod Preview
use remote_workspace.Prelude.{
  ℕ, zero, suc, ◌+◌, ◌-◌, ◌/◌, min, max, Bytes, Bool, true, false, Option, none, some, List, [],
  ◌∷◌, ◌++◌, length, take, drop, ltb, leb, ◌==◌, if◌then◌else◌,
}
use remote_workspace.Prelude.Decimal.{u64_mod}
use remote_workspace.Protocol.Messages.{ExecOutput}

abbrev pub output_prefix_limit : ℕ
output_prefix_limit = 4096

abbrev pub output_suffix_limit : ℕ
output_suffix_limit = 12288

pub record OutputCapture : Type 0 where
  pub prefix : Bytes
  pub suffix : Bytes
  pub total_bytes : ℕ

-- `OutputCapture::default()`
abbrev pub empty : OutputCapture
empty = record { prefix = []; suffix = []; total_bytes = 0 }

-- The loop over the bytes that go to the ring.
abbrev pub make_room : (limit : ℕ) → Bytes → Bytes
make_room limit suffix = if length suffix == limit then drop 1 suffix else suffix

unfoldable pub push_back : (limit : ℕ) → (suffix bytes : Bytes) → Bytes
push_back limit suffix [] = suffix
push_back limit suffix (byte ∷ bytes) = push_back limit (make_room limit suffix ++ byte ∷ []) bytes

abbrev prefix_len : OutputCapture → Bytes → ℕ
prefix_len c bytes = min (output_prefix_limit - length c.prefix) (length bytes)

-- `saturating_add` on `u64`
abbrev pub saturating_add : ℕ → ℕ → ℕ
saturating_add a b = min (a + b) (u64_mod - 1)

unfoldable pub push : OutputCapture → Bytes → OutputCapture
unfolding push_back
push c bytes = record {
  prefix = c.prefix ++ take (prefix_len c bytes) bytes;
  suffix = push_back output_suffix_limit c.suffix (drop (prefix_len c bytes) bytes);
  total_bytes = saturating_add c.total_bytes (length bytes);
}

pub data Keep : Type 0 where
  start end : Keep

abbrev pub excess_of : (text_len limit : ℕ) → ℕ
excess_of text_len limit = max ((text_len - limit) / 3) 1

-- The bytes without `excess` of them; a slice out of range is `none`.
unfoldable pub trimmed : Keep → (excess : ℕ) → Bytes → Option Bytes
trimmed Keep.start excess bytes =
    if leb excess (length bytes) then some (take (length bytes - excess) bytes) else none
trimmed Keep.end excess bytes = if leb excess (length bytes) then some (drop excess bytes) else none

pub data StreamEvent : Type 0 where
  stdout stderr : Bytes → StreamEvent

-- The two captures of a command: of its stdout and of its stderr.
unfoldable pub capture : StreamEvent → OutputCapture × OutputCapture → OutputCapture × OutputCapture
unfolding push
capture (stdout bytes) (out, err) = (push out bytes, err)
capture (stderr bytes) (out, err) = (out, push err bytes)

-- The events that a loop of `exec` receives, one after the other.
unfoldable pub capture_all :
    List StreamEvent → OutputCapture × OutputCapture → OutputCapture × OutputCapture
unfolding capture
capture_all [] captured = captured
capture_all (event ∷ events) captured = capture_all events (capture event captured)

module _ (decode : Bytes → Bytes) where
  -- The loop, on fuel. `none` is a panic or no fuel left.
  unfoldable pub fit : ℕ → Bytes → (limit : ℕ) → Keep → Option (Bytes × ℕ)
  unfolding trimmed
  fit zero bytes limit keep = none
  fit (suc fuel) bytes limit keep =
      if leb (length (decode bytes)) limit
      then some (decode bytes, length bytes)
      else elim (trimmed keep (excess_of (length (decode bytes)) limit) bytes) [
        | none ↦ none
        | some fewer ↦ fit fuel fewer limit keep
      ]

  -- A round of the loop drops a byte at least, so this is fuel for all of them.
  abbrev pub fit_all : Bytes → (limit : ℕ) → Keep → Option (Bytes × ℕ)
  fit_all bytes limit keep = fit (suc (length bytes)) bytes limit keep

  abbrev pub output_of : OutputCapture → Bytes × ℕ → Bytes × ℕ → ExecOutput
  output_of c (prefix, prefix_bytes) (suffix, suffix_bytes) = record {
    prefix = prefix;
    suffix = suffix;
    total_bytes = c.total_bytes;
    omitted_bytes = c.total_bytes - (prefix_bytes + suffix_bytes);
  }

  abbrev pub joined : OutputCapture → (prefix suffix : Option (Bytes × ℕ)) → Option ExecOutput
  joined c none _ = none
  joined c (some p) none = none
  joined c (some p) (some s) = some (output_of c p s)

  unfoldable pub finish : OutputCapture → Option ExecOutput
  unfolding fit
  finish c =
      joined c (fit_all c.prefix output_prefix_limit Keep.start)
        (fit_all c.suffix output_suffix_limit Keep.end)
