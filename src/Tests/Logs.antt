-- ===== src/Tests/Logs.antt =====
-- A log of Booleans, which stand as the objects {1} and {0}.
use remote_workspace.Prelude.{
  suc, ◌≡◌, ◌≢◌, refl, ap, Bytes, String, Bool, true, false, none, some, List, [], ◌∷◌, ◌++◌,
  length, take, ◌⊎◌, inl, inr, ◌==◌, if◌then◌else◌, leb, arith,
}
use remote_workspace.Protocol.Error.{IoError, IoErrorKind, ok}
use remote_workspace.Server.Log.{Codec, AppendIo, append_line, load_log}
use remote_workspace.Server.Log.Json.{object, IsJson}
use remote_workspace.Prelude.Utf8.{is_utf8}
use remote_workspace.Server.Log.Lines.{OneLine}
use remote_workspace.Server.Log.Crash.{text, log_of, load_log-crash}
use remote_workspace.Server.Log.Append.{NextStart, append_line-NextStart}

abbrev digit : Bool → Bytes
digit true = b'1' ∷ []
digit false = b'0' ∷ []

abbrev read_bit : Bytes → Bool ⊎ String
read_bit (a ∷ b ∷ c ∷ []) = if b == b'1' then inl true else inl false
read_bit _ = inr "EOF while parsing"

abbrev disk_error : IoError
disk_error = record { kind = IoErrorKind.other; text = "No space left on device" }

abbrev bits : Codec Bool
bits = record { to_string = λ v. inl (object (digit v)); from_str = read_bit }

-- What is cut off a text of three bytes leaves at most two.
cut :
    (v : Bool) (q u : Bytes)
    → object (digit v) ≡ q ++ u
    → u ≢ []
    → (e : String) × (read_bit q ≡ inr e)
cut v [] u h ne = ("EOF while parsing", refl)
cut v (a ∷ []) u h ne = ("EOF while parsing", refl)
cut v (a ∷ b ∷ []) u h ne = ("EOF while parsing", refl)
cut v (a ∷ b ∷ c ∷ []) [] h ne = absurd (ne refl)
cut true (a ∷ b ∷ c ∷ []) (d ∷ u) h ne = absurd (too_long (ap length h))
  where
    too_long : 3 ≢ suc (suc (suc (suc (length u))))
    too_long e = omega arith
cut false (a ∷ b ∷ c ∷ []) (d ∷ u) h ne = absurd (too_long (ap length h))
  where
    too_long : 3 ≢ suc (suc (suc (suc (length u))))
    too_long e = omega arith
cut v (a ∷ b ∷ c ∷ d ∷ q) u h ne = ("EOF while parsing", refl)

reads : (v : Bool) → read_bit (object (digit v)) ≡ inl v
reads true = refl
reads false = refl

on_one_line : (v : Bool) → OneLine (object (digit v))
on_one_line true = ground arith
on_one_line false = ground arith

in_utf8 : (v : Bool) → is_utf8 (object (digit v)) ≡ true
unfolding is_utf8
in_utf8 true = refl
in_utf8 false = refl

laws : IsJson bits
laws = record {
  body = digit;
  to_string_object = λ v. refl;
  from_str_object = reads;
  one_line = on_one_line;
  utf8 = in_utf8;
  from_str_cut = cut;
}

abbrev two : List Bool
two = true ∷ false ∷ []

abbrev full_disk : AppendIo
full_disk = record {
  open_error = none;
  stat_error = none;
  write_error = some (record { written = 2; error = disk_error; undo_error = some disk_error });
  sync_error = none;
}

append_line-NextStart_example :
    NextStart bits laws two true
      (append_line false (log_of bits laws two) (text bits laws true) "op log" full_disk)
append_line-NextStart_example = append_line-NextStart bits laws two true "op log" full_disk

load_log-crash_example :
    load_log bits (log_of bits laws two ++ take 2 (text bits laws true ++ b'\n' ∷ [])) ≡ (
      if leb (length (text bits laws true)) 2
      then ok (two ++ true ∷ [], log_of bits laws (two ++ true ∷ []))
      else ok (two, log_of bits laws two))
load_log-crash_example = load_log-crash bits laws two true 2
