-- ===== src/Server/Workspace/Inside.antt =====
-- Resolved paths and the two roots (Server/Workspace.antt).
use remote_workspace.Prelude.{
  String, ◌≡◌, ◌⊎◌, inl, inr, Bool, true, false, arith, refl, subst, if◌then◌else◌,
}
use remote_workspace.Protocol.Error.{ErrorCode, IoError, io_failed, new, ok, err, >>=-eq-ok}
use remote_workspace.Server.Workspace.{
  AbsPath, FileSystem, Workspace, starts_with, join, resolve, within, canonicalize_ancestor,
}

-- The base of a join is one of the two roots.
join-base :
    (ws : Workspace) (rel : String) (base path : AbsPath) (open_end : Bool)
    → join ws rel ≡ ok (base, path, open_end)
    → (base ≡ ws.root) ⊎ (base ≡ ws.scratch_root)
unfolding join
join-base ws rel base path open_end h = ground arith

within-ok :
    (fs : FileSystem) (base safe p : AbsPath)
    → within fs base safe ≡ ok p
    → (p ≡ safe) × (starts_with p base ≡ true)
within-ok fs base safe p h = go (starts_with safe base) refl h
  where
    go :
        (b : Bool)
        → starts_with safe base ≡ b
        → (if b
            then ok safe
            else err (new ErrorCode.path_outside_root "resolved path escapes workspace root"))
          ≡ ok p
        → (p ≡ safe) × (starts_with p base ≡ true)
    go true e h = let same : p ≡ safe = cc in (same, rw same e)
    go false e h = cc

resolved-within :
    (fs : FileSystem) (base safe : AbsPath) (o : AbsPath ⊎ IoError)
    → elim o [ inr e ↦ err (io_failed "failed to resolve path: " e) | inl p ↦ within fs base p ]
      ≡ ok safe
    → starts_with safe base ≡ true
resolved-within fs base safe (inl p) h = (within-ok fs base p safe h).1
resolved-within fs base safe (inr e) h = cc

-- A path that is resolved lies under the workspace root or under the scratch root, whatever links
-- there are.
pub resolve-starts_with :
    (fs : FileSystem) (ws : Workspace) (rel : String) (safe : AbsPath)
    → resolve fs ws rel ≡ ok safe
    → (starts_with safe ws.root ≡ true) ⊎ (starts_with safe ws.scratch_root ≡ true)
unfolding resolve
resolve-starts_with fs ws rel safe h =
    let (joined, is_joined, rest) = >>=-eq-ok (join ws rel) _ safe h in
    let inside : starts_with safe joined.0 ≡ true =
      resolved-within fs joined.0 safe (canonicalize_ancestor fs joined.2 joined.1) rest in
    elim (join-base ws rel joined.0 joined.1 joined.2 is_joined) [
      | inl root ↦ inl (subst (λ b. starts_with safe b ≡ true) root inside)
      | inr scratch ↦ inr (subst (λ b. starts_with safe b ≡ true) scratch inside)
    ]
