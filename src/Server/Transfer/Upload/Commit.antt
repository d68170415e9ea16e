-- ===== src/Server/Transfer/Upload/Commit.antt =====
-- transfer.rs, `upload_commit` without `overwrite`: what stands at the target afterwards.
use text.Mathlib.TextEquality.{eq_iff}
use remote_workspace.Prelude.{
  ℕ, String, ◌≡◌, ◌⊎◌, ◌∙◌, sym, refl, ap, subst, true, false, Option, none, some, [], ◌∷◌, inl,
  inr, arith, if◌then◌else◌,
}
use remote_workspace.Protocol.Error.{ProtocolError, IoError, Result, ok, err, io_failed}
use remote_workspace.Protocol.Messages.{TransferDirection}
use remote_workspace.Protocol.Record.{AnyOperationRecord, TransferOperationRecord, ResultBody}
use remote_workspace.Server.Log.{Codec}
use remote_workspace.Server.Store.Records.{append_transfer_record}
use remote_workspace.Server.Workspace.{AbsPath, Metadata, FileSystem}
use remote_workspace.Server.Fs.WriteAhead.{path_eq, drop_file}
use remote_workspace.Server.Transfer.Registry.{PendingUpload, pending_get, remove}
use remote_workspace.Server.Transfer.Sweep.Abandoned.{Same, Same-refl}
use remote_workspace.Server.Transfer.Site.{
  Site, Task, ◌>>=◌, ◌>>◌, pure, ask, change, check, in_registry, in_store, taken,
}
use remote_workspace.Server.Transfer.Upload.{
  result_of, CommitIo, link_file, link_into, vacant, set_mode, rename_into, set_installed_mode,
  check_staged, installed_mode, new_operation_id, transferred, recorded, concluded, placed,
  upload_commit,
}
use remote_workspace.Server.Transfer.Site.Disk.{
  bind-elim, KeepsDisk, >>=-KeepsDisk, check-KeepsDisk, in_registry-KeepsDisk, pure-KeepsDisk,
  in_store-KeepsDisk,
}

abbrev pub IsErr : {A : Type 0} → Result A → Type 0
IsErr (ok a) = ⊥
IsErr (err e) = Unit {0}

-- The disk at the moment of the link: others have worked since the staging file got its mode.
abbrev pub at_link : CommitIo → PendingUpload → (mode : ℕ) → FileSystem → FileSystem
at_link io entry mode fs = io.meanwhile (set_mode entry.staging mode fs)

-- The target was free on the disk, and has the bytes that the staging file had there.
abbrev pub PlacedOn : PendingUpload → (fs fs' : FileSystem) → Type 0
PlacedOn entry fs fs' =
    (e : IoError) × (fs.symlink_metadata entry.target ≡ inr e)
    × (fs'.contents entry.target ≡ fs.contents entry.staging)

-- From a disk where the staging file had the declared size, it was put in place at that moment.
abbrev pub Placed : CommitIo → PendingUpload → (size : ℕ) → (fs fs' : FileSystem) → Type 0
Placed io entry size fs fs' =
    (check_staged size (fs.metadata entry.staging) ≡ ok tt)
    × ((mode : ℕ) × (installed_mode (fs.metadata entry.target) ≡ ok mode)
        × PlacedOn entry (at_link io entry mode fs) fs')

-- The target is as it was, or as the others left it once the staging file had its mode.
abbrev pub LeftAlone : CommitIo → PendingUpload → (fs fs' : FileSystem) → Type 0
LeftAlone io entry fs fs' =
    Same entry.target fs fs'
    ⊎ ((mode : ℕ) × (installed_mode (fs.metadata entry.target) ≡ ok mode)
        × Same entry.target (at_link io entry mode fs) fs')

-- An error with the target as it was at the start, or as the others left it, or the file in place where
-- nothing was.
abbrev pub Ends :
    CommitIo → PendingUpload → (size : ℕ) → FileSystem → Result ResultBody × Site → Type 0
Ends io entry size fs q =
    (IsErr q.0 × LeftAlone io entry fs q.1.disk) ⊎ Placed io entry size fs q.1.disk

path_eq_refl : (p : AbsPath) → path_eq p p ≡ true
unfolding path_eq
path_eq_refl [] = refl
path_eq_refl (a ∷ p) = ground (arith, eq_iff a a, path_eq_refl p)

module _ (entry : PendingUpload) (apart : path_eq entry.target entry.staging ≡ false) where
  linked :
      (fs : FileSystem)
      → (link_file entry.staging entry.target fs).contents entry.target ≡ fs.contents entry.staging
  unfolding link_file
  linked fs = rw (path_eq_refl entry.target)

  dropped :
      (fs : FileSystem)
      → (drop_file entry.staging (link_file entry.staging entry.target fs)).contents entry.target
        ≡ fs.contents entry.staging
  unfolding drop_file
  dropped fs = rw apart (linked fs)

  -- An error with the target as it was, or the file in place where nothing was.
  abbrev Links : {A : Type 0} → FileSystem → Result A × Site → Type 0
  Links fs (r, w') = (IsErr r × Same entry.target fs w'.disk) ⊎ PlacedOn entry fs w'.disk

  link_into-Links : (io : CommitIo) (w : Site) → Links w.disk (link_into io entry w)
  link_into-Links io w = go (w.disk.symlink_metadata entry.target) refl io.link io.unlink
    where
      go :
          (m : Metadata ⊎ IoError)
          → w.disk.symlink_metadata entry.target ≡ m
          → (link unlink : Option IoError)
          → Links w.disk (
              (do
                ask (λ w. vacant entry m)
                check (io_failed "link into place failed: ") link
                change (link_file entry.staging entry.target)
                check (io_failed "remove staging failed: ") unlink
                change (drop_file entry.staging))
                w)
      go (inl meta) e link unlink = inl (tt, Same-refl entry.target w.disk)
      go (inr x) e (some l) unlink = inl (tt, Same-refl entry.target w.disk)
      go (inr x) e none (some u) = inr (x, e, linked w.disk)
      go (inr x) e none none = inr (x, e, dropped w.disk)

new_operation_id-KeepsDisk : KeepsDisk new_operation_id
unfolding KeepsDisk
new_operation_id-KeepsDisk w = refl

module _ (json : Codec AnyOperationRecord) (now : ℕ) (io : CommitIo)
    (request_id transfer_id : String) (size : ℕ) (sha256 : String) (duration_ms : ℕ)
    (entry : PendingUpload) where
  record_for : String → TransferOperationRecord
  record_for operation_id =
      transferred operation_id request_id TransferDirection.upload entry.logical_path size sha256
        duration_ms now

  recorded-KeepsDisk : (r : TransferOperationRecord) → KeepsDisk (recorded json now r)
  recorded-KeepsDisk r =
      >>=-KeepsDisk (in_store (append_transfer_record json r)) (λ _. pure (result_of r))
        (in_store-KeepsDisk (append_transfer_record json r)) (λ _. pure-KeepsDisk (result_of r))

  unregister : ResultBody → Task ResultBody
  unregister body = in_registry (remove io.persisted transfer_id) >> pure body

  unregister-KeepsDisk : (body : ResultBody) → KeepsDisk (unregister body)
  unfolding unregister
  unregister-KeepsDisk body =
      >>=-KeepsDisk (in_registry (remove io.persisted transfer_id)) (λ _. pure body)
        (in_registry-KeepsDisk (remove io.persisted transfer_id)) (λ _. pure-KeepsDisk body)

  concluded-KeepsDisk :
      KeepsDisk (concluded json now io request_id transfer_id size sha256 duration_ms entry)
  unfolding unregister record_for
  concluded-KeepsDisk =
      let conclude : String → Task ResultBody =
        λ operation_id. recorded json now (record_for operation_id) >>= unregister in
      >>=-KeepsDisk (check (io_failed "fsync target: ") io.sync)
        (λ _. new_operation_id >>= conclude) (check-KeepsDisk (io_failed "fsync target: ") io.sync)
        (λ _. >>=-KeepsDisk new_operation_id conclude new_operation_id-KeepsDisk (λ operation_id.
          >>=-KeepsDisk (recorded json now (record_for operation_id)) unregister
            (recorded-KeepsDisk (record_for operation_id)) unregister-KeepsDisk))

  module _ (apart : path_eq entry.target entry.staging ≡ false)
      (kept : entry.overwrite ≡ false) where
    finished : Task ResultBody
    finished = concluded json now io request_id transfer_id size sha256 duration_ms entry

    -- Once in place the file stays, whatever fails afterwards.
    finished-Placed :
        (fs : FileSystem) (w : Site)
        → PlacedOn entry fs w.disk
        → PlacedOn entry fs (finished w).1.disk
    unfolding finished KeepsDisk
    finished-Placed fs w (e, free, bytes) =
        (e, free, ap (λ (d : FileSystem). d.contents entry.target) (concluded-KeepsDisk w) ∙ bytes)

    linked_or_not :
        (r : Result (Unit {0})) (w w' : Site)
        → Links entry apart w.disk (r, w')
        → r ≡ ok tt
        → PlacedOn entry w.disk w'.disk
    linked_or_not (ok _) w w' (inl (bad, same)) e = absurd bad
    linked_or_not (ok _) w w' (inr p) e = p
    linked_or_not (err x) w w' l e = cc

    still_same :
        (r : Result (Unit {0})) (w w' : Site) (x : ProtocolError)
        → Links entry apart w.disk (r, w')
        → r ≡ err x
        → Links entry apart {A = ResultBody} w.disk (err x, w')
    still_same (ok _) w w' x l e = cc
    still_same (err y) w w' x (inl (bad, same)) e = inl (tt, same)
    still_same (err y) w w' x (inr p) e = inr p

    placed-Links : (w : Site) → Links entry apart w.disk ((placed io entry >> finished) w)
    placed-Links w =
        let links =
          subst
            (λ b.
              Links entry apart w.disk ((if b then rename_into io entry else link_into io entry) w))
            (sym kept) (link_into-Links entry apart io w) in
        bind-elim (Links entry apart w.disk) (placed io entry) (λ _. finished) w
          (λ x e. still_same (placed io entry w).0 w (placed io entry w).1 x links e)
          (λ _ e. inr (
            finished-Placed w.disk (placed io entry w).1
              (linked_or_not (placed io entry w).0 w (placed io entry w).1 links e)))

    placing : Task ResultBody
    placing = change io.meanwhile >> (placed io entry >> finished)

    -- The staging file had the declared size, and its mode has been set.
    placing-Ends :
        (w : Site) (fs : FileSystem) (mode : ℕ)
        → check_staged size (fs.metadata entry.staging) ≡ ok tt
        → installed_mode (fs.metadata entry.target) ≡ ok mode
        → w.disk ≡ set_mode entry.staging mode fs
        → Ends io entry size fs (placing w)
    unfolding placing
    placing-Ends w fs mode staged is_mode set =
        let w' : Site = record w { disk = io.meanwhile w.disk } in
        go ((placed io entry >> finished) w') (
          subst (λ d. Links entry apart (io.meanwhile d) ((placed io entry >> finished) w')) set
            (placed-Links w'))
      where
        go :
            (q : Result ResultBody × Site)
            → Links entry apart (at_link io entry mode fs) q
            → Ends io entry size fs q
        go q (inl (bad, same)) = inl (bad, inr (mode, is_mode, same))
        go q (inr p) = inr (staged, (mode, is_mode, p))

    setting : Task ResultBody
    setting = set_installed_mode io entry >> placing

    setting-Ends :
        (w : Site)
        → check_staged size (w.disk.metadata entry.staging) ≡ ok tt
        → Ends io entry size w.disk (setting w)
    unfolding setting
    setting-Ends w staged = go (installed_mode (w.disk.metadata entry.target)) io.chmod refl
      where
        go :
            (m : Result ℕ) (chmod : Option IoError)
            → installed_mode (w.disk.metadata entry.target) ≡ m
            → Ends io entry size w.disk (
                ((do
                  mode ← ask (λ w. m)
                  check (io_failed "chmod staging file: ") chmod
                  change (set_mode entry.staging mode))
                    >> placing)
                  w)
        go (err e) chmod is_mode = inl (tt, inl (Same-refl entry.target w.disk))
        go (ok mode) (some e) is_mode = inl (tt, inl (Same-refl entry.target w.disk))
        go (ok mode) none is_mode =
            placing-Ends (record w { disk = set_mode entry.staging mode w.disk }) w.disk mode staged
              is_mode refl

    -- A commit without overwrite of an upload whose staging file is not its target either fails and
    -- leaves at the target what was there at the start, or what others had put there by the moment of
    -- the link, or at that moment nothing was there, the file that was staged had the declared size at
    -- the start, and the target has got the bytes that the staging file had at that moment.
    pub upload_commit-Ends :
        (w : Site)
        → pending_get transfer_id w.uploads ≡ some entry
        → Ends io entry size w.disk
            (upload_commit json now io request_id transfer_id size sha256 duration_ms w)
    unfolding upload_commit setting placing finished
    upload_commit-Ends w found =
        subst (λ o. Ends io entry size w.disk (commit_of o w)) (sym found)
          (go (check_staged size (w.disk.metadata entry.staging)) refl)
      where
        commit_of : Option PendingUpload → Task ResultBody
        commit_of o = do
          e ← ask (λ w. taken transfer_id o)
          ask (λ w. check_staged size (w.disk.metadata e.staging))
          set_installed_mode io e
          change io.meanwhile
          placed io e
          concluded json now io request_id transfer_id size sha256 duration_ms e

        go :
            (c : Result (Unit {0}))
            → check_staged size (w.disk.metadata entry.staging) ≡ c
            → Ends io entry size w.disk ((ask (λ w. c) >> setting) w)
        go (err x) staged = inl (tt, inl (Same-refl entry.target w.disk))
        go (ok _) staged = setting-Ends w staged
