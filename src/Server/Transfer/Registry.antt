-- ===== src/Server/Transfer/Registry.antt =====
-- transfer.rs, `UploadRegistry`: the uploads that are prepared and not yet committed. `persisted` is
-- the outcome of writing the registry to its file, with the text of its error; what the file holds
-- is read by a start alone.
pub mod Entries
use remote_workspace.Prelude.{
  ℕ, String, Bytes, Bool, true, false, not, ◌&&◌, Option, none, some, List, [], ◌∷◌, ◌⊎◌, inl, inr,
  str_eq, leb, ◌<>◌, if◌then◌else◌,
}
use remote_workspace.Protocol.Error.{IoError, ProtocolError, new, io_error, Result, ok, err}
use remote_workspace.Server.Workspace.{AbsPath, is_missing}

pub record PendingUpload : Type 0 where
  pub staging : AbsPath
  pub target : AbsPath
  pub logical_path : String
  pub overwrite : Bool

-- `HashMap<String, PendingUpload>`
abbrev pub Uploads : Type 0
Uploads = List (String × PendingUpload)

unfoldable pub pending_get : String → Uploads → Option PendingUpload
pending_get k [] = none
pending_get k ((j, p) ∷ m) = if str_eq j k then some p else pending_get k m

unfoldable pub pending_insert : String → PendingUpload → Uploads → Uploads
pending_insert k p [] = (k, p) ∷ []
pending_insert k p ((j, q) ∷ m) = if str_eq j k then (k, p) ∷ m else (j, q) ∷ pending_insert k p m

unfoldable pub pending_remove : String → Uploads → Uploads
pending_remove k [] = []
pending_remove k ((j, q) ∷ m) =
    let rest = pending_remove k m in if str_eq j k then rest else (j, q) ∷ rest

unfoldable pub insert :
    (persisted : Option String)
    → (id : String) → PendingUpload
    → Uploads
    → Result (Unit {0}) × Uploads
unfolding pending_insert pending_remove
insert none id pending entries = (ok tt, pending_insert id pending entries)
insert (some error) id pending entries = (
  err (new io_error ("persist pending upload: " <> error)),
  pending_remove id (pending_insert id pending entries),
)

-- The entry goes, also where the file could not be written.
unfoldable pub remove :
    (persisted : Option String) → (id : String) → Uploads → Result (Option PendingUpload) × Uploads
unfolding pending_get pending_remove
remove none id entries = (ok (pending_get id entries), pending_remove id entries)
remove (some error) id entries =
    (err (new io_error ("persist pending upload removal: " <> error)), pending_remove id entries)

-- What `metadata` and the clock say of a staging file: whether it is a regular file, and how long ago
-- it was written, where that is known.
pub record StagedMeta : Type 0 where
  pub regular : Bool
  pub age : Option ℕ

unfoldable pub is_stale : StagedMeta → (max_age : ℕ) → Bool
is_stale meta max_age = elim meta.age [ none ↦ false | some age ↦ leb max_age age ]

-- In seconds.
abbrev pub stale_staging_max_age : ℕ
stale_staging_max_age = 86400

abbrev is_live : Option StagedMeta → Bool
is_live none = false
is_live (some meta) = meta.regular && not (is_stale meta stale_staging_max_age)

unfoldable pub retain_live : (AbsPath → Option StagedMeta) → Uploads → Uploads
unfolding is_stale
retain_live metadata [] = []
retain_live metadata ((id, p) ∷ entries) =
    let rest = retain_live metadata entries in
    if is_live (metadata p.staging) then (id, p) ∷ rest else rest

abbrev read_registry : (from_slice : Bytes → Uploads ⊎ String) → Bytes ⊎ IoError → Uploads ⊎ String
read_registry from_slice (inl bytes) = elim (from_slice bytes) [
  | inl entries ↦ inl entries
  | inr e ↦ inr ("parse pending upload registry: " <> e)
]
read_registry from_slice (inr e) =
    if is_missing e.kind then inl [] else inr ("read pending upload registry: " <> e.text)

abbrev persisted_as : Option String → Uploads → Uploads ⊎ String
persisted_as none entries = inl entries
persisted_as (some error) entries = inr error

-- `UploadRegistry::new`; an error is the text of an `anyhow::Error`.
unfoldable pub open_registry :
    (from_slice : Bytes → Uploads ⊎ String)
    → (file : Bytes ⊎ IoError) → (metadata : AbsPath → Option StagedMeta)
    → (persisted : Option String) → Uploads ⊎ String
unfolding retain_live
open_registry from_slice file metadata persisted = elim (read_registry from_slice file) [
  | inr e ↦ inr e
  | inl entries ↦ persisted_as persisted (retain_live metadata entries)
]

unfoldable pub in_flight_staging : Uploads → List AbsPath
in_flight_staging [] = []
in_flight_staging ((id, p) ∷ entries) = p.staging ∷ in_flight_staging entries
