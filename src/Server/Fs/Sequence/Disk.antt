-- ===== src/Server/Fs/Sequence/Disk.antt =====
-- What the write-ahead sequence of an edit does to the disk (Server/Fs/Sequence.antt).
use remote_workspace.Prelude.{
  ℕ, String, Bytes, ◌≡◌, ◌⊎◌, ◌∙◌, sym, refl, Bool, true, false, Option, none, some, arith, inl,
  inr, eq_iff, opt_eq, subst, ◌≢◌, ap, if◌then◌else◌,
}
use remote_workspace.Protocol.Error.{ProtocolError, Result, ok, err, IoError, io_failed}
use remote_workspace.Protocol.Record.{AnyOperationRecord, OperationKind}
use remote_workspace.Server.Log.{Codec}
use remote_workspace.Server.Store.Records.{prepare_fs_record, abort_prepared, commit_fs_record}
use remote_workspace.Server.Workspace.{AbsPath, FileSystem, hash_file}
use remote_workspace.Server.Fs.WriteAhead.{
  World, Step, ◌>>=◌, ◌>>◌, pure, fail, on_store, change, Io, put_file, StagedWrite, InstallFailure,
  verify_unchanged,
}
use remote_workspace.Server.Fs.Sequence.{
  install, withdraw, conclude, commit_as, last_look, write_ahead_install, failed_install,
}

abbrev pub is_ok : {A : Type 0} → Result A → Bool
is_ok (ok a) = true
is_ok (err e) = false

bind-elim :
    {A B : Type 0} (P : Result B × World → Type 0) (m : Step A) (f : A → Step B) (w : World)
    → ((e : ProtocolError) → (m w).0 ≡ err e → P (err e, (m w).1))
    → ((a : A) → (m w).0 ≡ ok a → P (f a (m w).1))
    → P ((m >>= f) w)
bind-elim {A = A} P m f w on_err on_ok = go (m w).0 refl
  where
    go : (r : Result A) → (m w).0 ≡ r → P ((m >>= f) w)
    go (ok a) e = rw (e, ◌>>=◌) (on_ok a e)
    go (err x) e = rw (e, ◌>>=◌) (on_err x e)

true_ne_false : true ≢ false
true_ne_false h = cc

err_ne_ok : (x : ProtocolError) → err x ≢ ok (tt {0})
err_ne_ok x h = cc

check_ok : (b : Bool) (x : ProtocolError) → (if b then ok (tt {0}) else err x) ≡ ok tt → b ≡ true
check_ok true x h = refl
check_ok false x h = absurd (err_ne_ok x h)

opt_eq-eq : (o : Option String) (s : String) → opt_eq o (some s) ≡ true → o ≡ some s
opt_eq-eq none s h = ground arith
opt_eq-eq (some t) s h = ground (arith, eq_iff t s)

verify_unchanged-ok :
    (sha256_hex : Bytes → String) (fs : FileSystem) (abs : AbsPath) (expected path : String)
    → verify_unchanged sha256_hex fs abs expected path ≡ ok tt
    → hash_file sha256_hex fs abs ≡ inl (some expected)
unfolding verify_unchanged
verify_unchanged-ok sha256_hex fs abs expected path h = go (hash_file sha256_hex fs abs) refl
  where
    go :
        (o : Option String ⊎ IoError)
        → hash_file sha256_hex fs abs ≡ o
        → hash_file sha256_hex fs abs ≡ inl (some expected)
    go (inr e) same = absurd (err_ne_ok _ (rw (same, verify_unchanged) at h))
    go (inl now) same =
        same ∙ ap inl (opt_eq-eq now expected (check_ok _ _ (rw (same, verify_unchanged) at h)))

-- What an edit leaves: an error and the disk of the others alone, or the new file over the one whose
-- hash was expected.
abbrev pub Rewrites :
    {A : Type 0}
    → (Bytes → String)
    → Io
    → AbsPath
    → String
    → StagedWrite
    → World
    → Result A × World
    → Type 0
Rewrites sha256_hex io abs before staged w r =
    ((is_ok r.0 ≡ false) × ((r.1.disk ≡ w.disk) ⊎ (r.1.disk ≡ io.meanwhile w.disk)))
    ⊎ ((r.1.disk ≡ put_file abs staged.mode staged.bytes (io.meanwhile w.disk))
        × (hash_file sha256_hex (io.meanwhile w.disk) abs ≡ inl (some before)))

-- A failure after the rename.
abbrev pub late : Option ProtocolError → Option InstallFailure
late none = none
late (some e) = failed_install true e

module _ (json : Codec AnyOperationRecord) (now : ℕ) (io : Io) where
  -- An error, and the disk as it was.
  abbrev Refuses : {A : Type 0} → World → Result A × World → Type 0
  Refuses w r = (is_ok r.0 ≡ false) × (r.1.disk ≡ w.disk)

  withdraw-Refuses :
      (A : Type 0) (op_id : String) (e : ProtocolError) (w : World)
      → Refuses {A = A} w (withdraw json now io op_id e w)
  unfolding withdraw
  withdraw-Refuses A op_id e w =
      bind-elim (Refuses {A = A} w) (on_store (abort_prepared json now op_id)) (λ _. fail e) w
        (λ _ _. (refl, refl)) (λ _ _. (refl, refl))

  commit_as-disk :
      (op_id request_id : String) (kind : OperationKind) (path : String) (before : Option String)
      (after : String) (w : World)
      → (commit_as json now io op_id request_id kind path before after w).1.disk ≡ w.disk
  commit_as-disk op_id request_id kind path before after w =
      bind-elim (λ r. r.1.disk ≡ w.disk)
        (on_store (commit_fs_record json now op_id request_id kind path before after))
        (λ _. pure (op_id, after)) w (λ _ _. refl) (λ _ _. refl)

  abbrev Looked : (Bytes → String) → AbsPath → String → World → Result (Unit {0}) × World → Type 0
  Looked sha256_hex abs before w r =
      Refuses w r ⊎ ((r ≡ (ok tt, w)) × (hash_file sha256_hex w.disk abs ≡ inl (some before)))

  last_look-Looked :
      (sha256_hex : Bytes → String) (op_id : String) (abs : AbsPath) (before path : String)
      (w : World)
      → Looked sha256_hex abs before w (last_look json now io sha256_hex op_id abs before path w)
  last_look-Looked sha256_hex op_id abs before path w =
      go (verify_unchanged sha256_hex w.disk abs before path) refl
    where
      go :
          (r : Result (Unit {0}))
          → verify_unchanged sha256_hex w.disk abs before path ≡ r
          → Looked sha256_hex abs before w
              (last_look json now io sha256_hex op_id abs before path w)
      go (ok u) e =
          rw (e, last_look) (inr (refl, verify_unchanged-ok sha256_hex w.disk abs before path e))
      go (err x) e = rw (e, last_look) (inl (withdraw-Refuses (Unit {0}) op_id x w))

  -- What `install` can do.
  abbrev Installed : AbsPath → StagedWrite → World → Result (Option InstallFailure) × World → Type 0
  Installed abs staged w r =
      ((e : ProtocolError) × (r ≡ (ok (failed_install false e), w)))
      ⊎ ((o : Option ProtocolError) × (r
            ≡ (ok (late o), record w { disk = put_file abs staged.mode staged.bytes w.disk })))

  install-Installed :
      (abs : AbsPath) (staged : StagedWrite) (w : World)
      → Installed abs staged w (install io staged abs w)
  unfolding install
  install-Installed abs staged w = go io.persist io.sync refl refl
    where
      go :
          (p y : Option IoError)
          → io.persist ≡ p
          → io.sync ≡ y
          → Installed abs staged w (install io staged abs w)
      go (some x) y ep ey = rw (ep, install) (inl (io_failed "atomic persist failed: " x, refl))
      go none (some x) ep ey =
          rw (ep, ey, install) (inr (some (io_failed "fsync after write failed: " x), refl))
      go none none ep ey = rw (ep, ey, install) (inr (none, refl))

  abbrev after : {A B : Type 0} → (A → Step B) → Result A × World → Result B × World
  after f r = elim r.0 [ ok a ↦ f a r.1 | err e ↦ (err e, r.1) ]

  conclude-disk :
      (op_id : String) (commit : Step (String × String)) (o : Option ProtocolError) (w : World)
      → (commit w).1.disk ≡ w.disk
      → (conclude json now io op_id commit (late o) w).1.disk ≡ w.disk
  unfolding conclude
  conclude-disk op_id commit none w h = h
  conclude-disk op_id commit (some e) w h = refl

  conclude-Refuses :
      (op_id : String) (commit : Step (String × String)) (e : ProtocolError) (w : World)
      → Refuses w (conclude json now io op_id commit (failed_install false e) w)
  unfolding conclude
  conclude-Refuses op_id commit e w = withdraw-Refuses (String × String) op_id e w

  -- The write-ahead sequence of an edit either fails and leaves the disk as it was or as the other
  -- writers made it, or puts the staged file in the place of a file that had the expected hash at
  -- the last look.
  pub write_ahead_install-Rewrites :
      (sha256_hex : Bytes → String) (request_id path : String) (abs : AbsPath) (before : String)
      (staged : StagedWrite) (w : World)
      → Rewrites sha256_hex io abs before staged w
          (write_ahead_install json now io sha256_hex request_id path abs before staged w)
  unfolding write_ahead_install
  write_ahead_install-Rewrites sha256_hex request_id path abs before staged w =
      bind-elim P
        (on_store (
          prepare_fs_record json now request_id OperationKind.edit path (some before)
            staged.new_hash))
        (λ op_id.
          change io.meanwhile
          >> (last_look json now io sha256_hex op_id abs before path >> installing op_id))
        w (λ _ _. inl (refl, inl refl))
        (λ op_id _.
          looking op_id
            (record w {
              store =
                  (prepare_fs_record json now request_id OperationKind.edit path (some before)
                    staged.new_hash w.store).1;
              disk = io.meanwhile w.disk;
            })
            refl)
    where
      P : Result (String × String) × World → Type 0
      P = Rewrites sha256_hex io abs before staged w

      commit : String → Step (String × String)
      commit op_id =
          commit_as json now io op_id request_id OperationKind.edit path (some before)
            staged.new_hash

      installing : String → Step (String × String)
      installing op_id = install io staged abs >>= conclude json now io op_id (commit op_id)

      refused :
          (op_id : String) (e : ProtocolError) (v : World)
          → v.disk ≡ io.meanwhile w.disk
          → P (conclude json now io op_id (commit op_id) (failed_install false e) v)
      refused op_id e v d =
          let (failed, same) = conclude-Refuses op_id (commit op_id) e v in
          inl (failed, inr (same ∙ d))

      put :
          (op_id : String) (o : Option ProtocolError) (v : World)
          → v.disk ≡ io.meanwhile w.disk
          → hash_file sha256_hex v.disk abs ≡ inl (some before)
          → P (
              conclude json now io op_id
                (commit op_id)
                (late o)
                (record v { disk = put_file abs staged.mode staged.bytes v.disk }))
      put op_id o v d h =
          let v' : World = record v { disk = put_file abs staged.mode staged.bytes v.disk } in
          inr (
            conclude-disk op_id (commit op_id) o v' (
                  commit_as-disk op_id request_id OperationKind.edit path (some before)
                    staged.new_hash v')
                ∙ ap (put_file abs staged.mode staged.bytes) d,
            subst (λ t. hash_file sha256_hex t abs ≡ inl (some before)) d h,
          )

      installed :
          (op_id : String) (v : World)
          → v.disk ≡ io.meanwhile w.disk
          → hash_file sha256_hex v.disk abs ≡ inl (some before)
          → P (installing op_id v)
      installed op_id v d h = elim (install-Installed abs staged v) [
        | inl (e, same) ↦
            subst (λ r. P (after (conclude json now io op_id (commit op_id)) r)) (sym same)
              (refused op_id e v d)
        | inr (o, same) ↦
            subst (λ r. P (after (conclude json now io op_id (commit op_id)) r)) (sym same)
              (put op_id o v d h)
      ]

      looking :
          (op_id : String) (v : World)
          → v.disk ≡ io.meanwhile w.disk
          → P ((last_look json now io sha256_hex op_id abs before path >> installing op_id) v)
      looking op_id v d = elim (last_look-Looked sha256_hex op_id abs before path v) [
        | inl (failed, same) ↦
            bind-elim P (last_look json now io sha256_hex op_id abs before path)
              (λ _. installing op_id) v (λ e _. inl (refl, inr (same ∙ d)))
              (λ u done. absurd (true_ne_false (sym (ap is_ok done) ∙ failed)))
        | inr (same, h) ↦
            subst (λ r. P (after (λ _. installing op_id) r)) (sym same) (installed op_id v d h)
      ]
