-- ===== src/Server/Log/Append.antt =====
-- One append, whatever the system calls answer, and the next start.
use remote_workspace.Prelude.{
  ℕ, Bytes, String, ◌≡◌, refl, sym, ◌∙◌, ◌⊎◌, inl, inr, Bool, true, false, Option, none, some, List,
  [], ◌∷◌, ◌++◌, arith, length, take, leb, take-append_self, Bool-cases,
}
use remote_workspace.Protocol.Error.{ok, IoError}
use remote_workspace.Server.Log.{
  Codec, AppendIo, AppendFailure, incomplete, unsynced, Appended, PartialWrite, write_failed,
  append_line, load_log,
}
use remote_workspace.Server.Log.Json.{IsJson}
use remote_workspace.Server.Log.Crash.{text, log_of, log_of-append, load_log-log_of, load_log-crash}

-- The whole line is in the file, durable or not.
abbrev pub landed : Option AppendFailure → Bool
landed none = true
landed (some (unsynced e)) = true
landed (some (incomplete e)) = false

-- What an append did to the file: wrote the line, left it alone, or tore it.
pub data Effect (file line : Bytes) (a : Appended) : Type 0 where
  wrote : landed a.failure ≡ true → a.torn ≡ false → a.file ≡ file ++ line → Effect file line a
  kept : landed a.failure ≡ false → a.torn ≡ false → a.file ≡ file → Effect file line a
  tore :
      (k : ℕ)
      → landed a.failure ≡ false
      → a.torn ≡ true
      → a.file ≡ file ++ take k line
      → Effect file line a

write_failed-Effect :
    (file line : Bytes) (what : String) (w : PartialWrite) (u : Option IoError)
    → w.undo_error ≡ u
    → Effect file line (write_failed file line what w)
unfolding write_failed
write_failed-Effect file line what w none e =
    rw e (kept refl refl (take-append_self file (take w.written line)))
write_failed-Effect file line what w (some t) e = rw e (tore w.written refl refl refl)

pub append_line-Effect :
    (file serialized : Bytes) (what : String) (io : AppendIo)
    → Effect file (serialized ++ b'\n' ∷ []) (append_line false file serialized what io)
unfolding append_line
append_line-Effect file serialized what io =
    go io.open_error io.stat_error io.write_error io.sync_error refl refl refl refl
  where
    go :
        (o s : Option IoError) (w : Option PartialWrite) (y : Option IoError)
        → io.open_error ≡ o
        → io.stat_error ≡ s
        → io.write_error ≡ w
        → io.sync_error ≡ y
        → Effect file (serialized ++ b'\n' ∷ []) (append_line false file serialized what io)
    go (some e) s w y eo es ew ey = rw eo (kept refl refl refl)
    go none (some e) w y eo es ew ey = rw (eo, es) (kept refl refl refl)
    go none none (some p) y eo es ew ey =
        rw (eo, es, ew)
          (write_failed-Effect file (serialized ++ b'\n' ∷ []) what p p.undo_error refl)
    go none none none (some e) eo es ew ey = rw (eo, es, ew, ey) (wrote refl refl refl)
    go none none none none eo es ew ey = rw (eo, es, ew, ey) (wrote refl refl refl)

-- A reported success is the whole line at the end.
pub append_line-success :
    (torn : Bool) (file serialized : Bytes) (what : String) (io : AppendIo)
    → (append_line torn file serialized what io).failure ≡ none
    → (append_line torn file serialized what io).file ≡ file ++ (serialized ++ b'\n' ∷ [])
unfolding append_line
append_line-success true file serialized what io h = cc
append_line-success false file serialized what io h = ground arith

module _ {A : Type 0} (json : Codec A) (laws : IsJson json) where
  -- What the next start reads of a log after an append.
  pub data NextStart (vs : List A) (v : A) (a : Appended) : Type 0 where
    without :
        landed a.failure ≡ false
        → load_log json a.file ≡ ok (vs, log_of json laws vs)
        → NextStart vs v a
    with_it :
        (landed a.failure ≡ true) ⊎ (a.torn ≡ true)
        → load_log json a.file ≡ ok (vs ++ v ∷ [], log_of json laws (vs ++ v ∷ []))
        → NextStart vs v a

  -- However an append to a log ends (open, stat, write, undo or sync failing), the next start reads
  -- the log as it was or with the value at its end; it has the value after a success and after a
  -- failed sync, and it has not after any other failure whose partial line was undone.
  pub append_line-NextStart :
      (vs : List A) (v : A) (what : String) (io : AppendIo)
      → NextStart vs v (append_line false (log_of json laws vs) (text json laws v) what io)
  append_line-NextStart vs v what io =
      go (append_line false (log_of json laws vs) (text json laws v) what io)
        (append_line-Effect (log_of json laws vs) (text json laws v) what io)
    where
      go :
          (a : Appended)
          → Effect (log_of json laws vs) (text json laws v ++ b'\n' ∷ []) a
          → NextStart vs v a
      go a (wrote l t e) =
          with_it (inl l)
            (rw (e ∙ sym (log_of-append json laws vs v)) (load_log-log_of json laws (vs ++ v ∷ [])))
      go a (kept l t e) = without l (rw e (load_log-log_of json laws vs))
      go a (tore k l t e) = elim (Bool-cases (leb (length (text json laws v)) k)) [
        | inl all ↦ with_it (inr t) (rw e (rw all at (load_log-crash json laws vs v k)))
        | inr part ↦ without l (rw e (rw part at (load_log-crash json laws vs v k)))
      ]
