-- ===== src/Server/Store/Table.antt =====
-- The laws of the request table as a map.
use remote_workspace.Prelude.{
  String, ◌≡◌, refl, none, some, [], ◌∷◌, arith, str_eq, eq_iff, if◌then◌else◌,
}
use remote_workspace.Server.Store.{RequestEntry, Requests, get, insert, remove}

pub get-insert :
    (k j : String) (e : RequestEntry) (m : Requests)
    → get j (insert k e m) ≡ (if str_eq k j then some e else get j m)
unfolding get insert
get-insert k j e [] = refl
get-insert k j e ((i, d) ∷ m) =
    ground (arith, eq_iff k j, eq_iff i k, eq_iff i j, get-insert k j e m)

pub get-remove :
    (k j : String) (m : Requests) → get j (remove k m) ≡ (if str_eq k j then none else get j m)
unfolding get remove
get-remove k j [] = ground arith
get-remove k j ((i, d) ∷ m) = ground (arith, eq_iff k j, eq_iff i k, eq_iff i j, get-remove k j m)
