-- ===== src/Server/Scratch.antt =====
-- crates/remote-workspace-server/src/scratch.rs: what the scratch space holds, and the removal of what
-- nobody used for long. A directory is what the system calls answer while it is walked; a Duration and
-- a time are nanoseconds.
pub mod Idle
use remote_workspace.Prelude.{
  ℕ, ◌+◌, ◌-◌, ◌/◌, ◌%◌, ◌^◌, min, max, String, Bool, true, false, Option, none, some, List, [],
  ◌∷◌, ◌++◌, ◌⊎◌, inl, inr, length, ltb, leb, ◌<>◌, if◌then◌else◌,
}
use remote_workspace.Prelude.Decimal.{show, u64_mod}
use remote_workspace.Protocol.Error.{IoError, IoErrorKind}
use remote_workspace.Protocol.Messages.{ScratchUsage}
use remote_workspace.Server.Workspace.{AbsPath, FileSystem, is_missing}
use remote_workspace.Server.Fs.WriteAhead.{drop_file}

pub record Entry : Type 0 where
  pub path : AbsPath
  pub bytes : ℕ
  pub idle : ℕ

pub record FileTimes : Type 0 where
  pub len : ℕ
  pub modified : ℕ ⊎ IoError
  pub accessed : ℕ ⊎ IoError

-- The entries of a directory: one that cannot be read, one whose type cannot be read, a directory, a
-- file, and anything else.
mutual
  pub data Dir : Type 0 where
    unreadable : (path : AbsPath) → IoError → Dir
    readable : (path : AbsPath) → Entries → Dir

  pub data Entries : Type 0 where
    end : Entries
    broken : IoError → Entries → Entries
    untyped : (path : AbsPath) → IoError → Entries → Entries
    dir : Dir → Entries → Entries
    file : (path : AbsPath) → FileTimes ⊎ IoError → Entries → Entries
    other : Entries → Entries

abbrev pub Failed : Type 0
Failed = List (AbsPath × IoError)

-- `out` and `failed`
abbrev pub Found : Type 0
Found = List Entry × Failed

abbrev push_failed : AbsPath → IoError → Found → Found
push_failed path e (out, failed) = (out, failed ++ (path, e) ∷ [])

-- A time ahead of the clock is as fresh as it gets.
abbrev since : (now time : ℕ) → ℕ
since now time = now - time

-- `visit`, at a file.
abbrev visit_times : (now : ℕ) → AbsPath → ℕ → ℕ ⊎ IoError → ℕ ⊎ IoError → Found → Found
visit_times now path len (inr e) _ found = push_failed path e found
visit_times now path len (inl modified) (inr e) found = push_failed path e found
visit_times now path len (inl modified) (inl accessed) (out, failed) = (
  out
      ++ record { path = path; bytes = len; idle = min (since now modified) (since now accessed) }
        ∷ [],
  failed,
)

abbrev visit_file : (now : ℕ) → AbsPath → FileTimes ⊎ IoError → Found → Found
visit_file now path (inl meta) found =
    visit_times now path meta.len meta.modified meta.accessed found
visit_file now path (inr e) found = if is_missing e.kind then found else push_failed path e found

abbrev not_listed : AbsPath → IoError → Found → Found
not_listed path e found = if is_missing e.kind then found else push_failed path e found

unfoldable mutual
  pub collect : (now : ℕ) → Dir → Found → Found
  collect now (unreadable path e) found = not_listed path e found
  collect now (readable path entries) found = collect_entries now path entries found

  pub collect_entries : (now : ℕ) → (path : AbsPath) → Entries → Found → Found
  collect_entries now path end found = found
  collect_entries now path (broken e rest) found =
      collect_entries now path rest (push_failed path e found)
  collect_entries now path (untyped at e rest) found =
      collect_entries now path rest (push_failed at e found)
  collect_entries now path (dir d rest) found = collect_entries now path rest (collect now d found)
  collect_entries now path (file at meta rest) found =
      collect_entries now path rest (visit_file now at meta found)
  collect_entries now path (other rest) found = collect_entries now path rest found

abbrev pub no_usage : ScratchUsage
no_usage = record { files = 0; bytes = 0; oldest_days = none; removed_files = 0; removed_bytes = 0 }

abbrev pub is_over : (max_age : Option ℕ) → Entry → Bool
is_over none e = false
is_over (some limit) e = ltb limit e.idle

-- In a u32.
abbrev days_of : ℕ → ℕ
days_of idle = idle / 1000000000 / 86400 % 2 ^ 32

abbrev or_zero : Option ℕ → ℕ
or_zero none = 0
or_zero (some n) = n

-- The counts are usize and u64, and wrap.
abbrev pub counted : Entry → ScratchUsage → ScratchUsage
counted e u = record u {
  files = (u.files + 1) % u64_mod;
  bytes = (u.bytes + e.bytes) % u64_mod;
  oldest_days = some (max (or_zero u.oldest_days) (days_of e.idle));
}

-- What the loop carries.
pub record Tally : Type 0 where
  pub usage : ScratchUsage
  pub failed : Failed
  pub disk : FileSystem

abbrev pub evicted : Entry → Option IoError → Tally → Tally
evicted e none t = record t {
  usage = record t.usage {
    removed_files = (t.usage.removed_files + 1) % u64_mod;
    removed_bytes = (t.usage.removed_bytes + e.bytes) % u64_mod;
  };
  disk = drop_file e.path t.disk;
}
evicted e (some x) t =
    if is_missing x.kind then t else record t { failed = t.failed ++ (e.path, x) ∷ [] }

module _ (max_age : Option ℕ) (remove_file : AbsPath → Option IoError) where
  abbrev pub turn : Entry → Tally → Tally
  turn e t =
      if is_over max_age e
      then evicted e (remove_file e.path) t
      else record t { usage = counted e t.usage }

  unfoldable pub evict : List Entry → Tally → Tally
  unfolding drop_file
  evict [] t = t
  evict (e ∷ entries) t = evict entries (turn e t)

  abbrev pub report : (display : AbsPath → String) → Failed → ScratchUsage → ScratchUsage ⊎ IoError
  report display [] usage = inl usage
  report display ((path, e) ∷ failed) usage = inr (record {
    kind = IoErrorKind.other;
    text =
        show (length ((path, e) ∷ failed))
        <> " scratch entries could not be swept (first: "
        <> display path
        <> ": "
        <> e.text
        <> ")";
  })

  -- `enforce`: the usage or the error, and the disk.
  unfoldable pub enforce :
      (display : AbsPath → String)
      → (now : ℕ) → Dir
      → FileSystem
      → (ScratchUsage ⊎ IoError) × FileSystem
  unfolding collect evict
  enforce display now root fs =
      let (entries, failed) = collect now root ([], []) in
      let t = evict entries (record { usage = no_usage; failed = failed; disk = fs }) in
      (report display t.failed t.usage, t.disk)

-- A day.
abbrev sweep_interval : ℕ
sweep_interval = 86400000000000

-- The marker's modification time; `none` where there is no marker.
abbrev is_due : (now : ℕ) → Option ℕ → Bool
is_due now none = true
is_due now (some modified) = if ltb now modified then true else leb sweep_interval (now - modified)

abbrev marker_time : ℕ ⊎ IoError → Option ℕ ⊎ IoError
marker_time (inl modified) = inl (some modified)
marker_time (inr e) = if is_missing e.kind then inl none else inr e

abbrev swept : (ScratchUsage ⊎ IoError) × FileSystem → (Option ScratchUsage ⊎ IoError) × FileSystem
swept (inl usage, fs) = (inl (some usage), fs)
swept (inr e, fs) = (inr e, fs)

abbrev sweep_due :
    Bool
    → (stamped : Option IoError) → (ScratchUsage ⊎ IoError) × FileSystem
    → FileSystem
    → (Option ScratchUsage ⊎ IoError) × FileSystem
sweep_due false stamped done fs = (inl none, fs)
sweep_due true (some e) done fs = (inr e, fs)
sweep_due true none done fs = swept done

-- `sweep_if_due`. `stamped` is the outcome of writing the marker, which comes first.
unfoldable pub sweep_if_due :
    (remove_file : AbsPath → Option IoError)
    → (display : AbsPath → String) → (now : ℕ) → (marker : ℕ ⊎ IoError) → (stamped : Option IoError)
    → (max_age : ℕ) → Dir
    → FileSystem
    → (Option ScratchUsage ⊎ IoError) × FileSystem
unfolding enforce
sweep_if_due remove_file display now marker stamped max_age root fs = elim (marker_time marker) [
  | inr e ↦ (inr e, fs)
  | inl modified ↦
      sweep_due (is_due now modified) stamped
        (enforce (some max_age) remove_file display now root fs) fs
]
