-- ===== src/Server/Transfer/Registry/Entries.antt =====
-- transfer.rs: what registering an upload does to the registry.
use remote_workspace.Prelude.{String, ◌≡◌, ◌≢◌, refl, none, some, [], ◌∷◌, arith, eq_iff}
use remote_workspace.Server.Transfer.Registry.{
  PendingUpload, Uploads, pending_get, pending_insert, pending_remove,
}

pub pending_get-insert_self :
    (k : String) (p : PendingUpload) (m : Uploads) → pending_get k (pending_insert k p m) ≡ some p
unfolding pending_get pending_insert
pending_get-insert_self k p [] = ground (arith, eq_iff k k)
pending_get-insert_self k p ((j, q) ∷ m) = ground (arith, eq_iff k k, pending_get-insert_self k p m)

pub pending_get-insert_ne :
    (i k : String) (p : PendingUpload) (m : Uploads)
    → i ≢ k
    → pending_get i (pending_insert k p m) ≡ pending_get i m
unfolding pending_get pending_insert
pending_get-insert_ne i k p [] h = ground (arith, eq_iff k i)
pending_get-insert_ne i k p ((j, q) ∷ m) h =
    ground (arith, eq_iff k i, eq_iff j k, eq_iff j i, pending_get-insert_ne i k p m)

pending_remove-absent : (k : String) (m : Uploads) → pending_get k m ≡ none → pending_remove k m ≡ m
unfolding pending_get pending_remove
pending_remove-absent k [] h = refl
pending_remove-absent k ((j, q) ∷ m) h = ground (arith, pending_remove-absent k m)

pending_remove-insert :
    (k : String) (p : PendingUpload) (m : Uploads)
    → pending_get k m ≡ none
    → pending_remove k (pending_insert k p m) ≡ m
unfolding pending_get pending_insert pending_remove
pending_remove-insert k p [] h = ground (arith, eq_iff k k)
pending_remove-insert k p ((j, q) ∷ m) h = ground (arith, pending_remove-insert k p m)

pub pending_get-remove_self : (k : String) (m : Uploads) → pending_get k (pending_remove k m) ≡ none
unfolding pending_get pending_remove
pending_get-remove_self k [] = refl
pending_get-remove_self k ((j, q) ∷ m) = ground (arith, pending_get-remove_self k m)

pub pending_get-remove_ne :
    (i k : String) (m : Uploads) → i ≢ k → pending_get i (pending_remove k m) ≡ pending_get i m
unfolding pending_get pending_remove
pending_get-remove_ne i k [] h = refl
pending_get-remove_ne i k ((j, q) ∷ m) h =
    ground (arith, eq_iff j k, eq_iff j i, pending_get-remove_ne i k m)
