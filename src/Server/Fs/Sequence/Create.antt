-- ===== src/Server/Fs/Sequence/Create.antt =====
-- What `atomic_create_bytes` does to the disk (Server/Fs/Sequence.antt).
use remote_workspace.Prelude.{
  String, Bytes, ◌≡◌, ◌≢◌, ◌⊎◌, refl, false, Option, none, some, inl, inr, subst, sym,
}
use remote_workspace.Protocol.Error.{
  ProtocolError, ErrorCode, new, Result, ok, err, IoError, io_failed,
}
use remote_workspace.Server.Workspace.{AbsPath, FileSystem, Metadata}
use remote_workspace.Server.Fs.WriteAhead.{
  World, Step, ◌>>=◌, ◌>>◌, check, change, pure, fail, Io, put_file, make_dirs, parent,
  InstallFailure, new_file_mode,
}
use remote_workspace.Server.Fs.Sequence.{
  atomic_create_bytes, persist_new, temp_file, failed_install, made_to, on_the_way, make_way,
}
use remote_workspace.Server.Fs.Sequence.Disk.{late}

-- The disk once the directories are made, and when the link is tried.
abbrev made : Io → AbsPath → FileSystem → FileSystem
made io dir fs = make_dirs io.first_mode dir fs

-- The disk when the directories could not all be made.
abbrev part_made : Io → AbsPath → FileSystem → FileSystem
part_made io dir fs = made_to io.first_mode (on_the_way dir io.reached) fs

-- Before the link: nothing, or directories, all of them unless a call to make them failed.
abbrev pub Unlinked : Io → AbsPath → (fs fs' : FileSystem) → Type 0
Unlinked io dir fs fs' =
    (fs' ≡ fs) ⊎ ((fs' ≡ made io dir fs) ⊎ ((io.mkdir ≢ none) × (fs' ≡ part_made io dir fs)))

-- What a create leaves: a failure that changed no file, or the new file where nothing was.
abbrev pub Creates :
    Io → AbsPath → AbsPath → Bytes → World → Result (Option InstallFailure) × World → Type 0
Creates io dir abs bytes w r =
    ((e : ProtocolError) × (r.0 ≡ ok (failed_install false e))
      × (Unlinked io dir w.disk r.1.disk ⊎ (r.1.disk ≡ io.meanwhile (made io dir w.disk))))
    ⊎ ((o : Option ProtocolError) × (e : IoError) × (r.0 ≡ ok (late o))
        × (r.1.disk ≡ put_file abs new_file_mode bytes (io.meanwhile (made io dir w.disk)))
        × ((io.meanwhile (made io dir w.disk)).symlink_metadata abs ≡ inr e))

-- The link, on the disk of that moment.
persist_new-Creates :
    (io : Io) (dir abs : AbsPath) (bytes : Bytes) (path : String) (w : World)
    → let v : World = record w { disk = io.meanwhile (made io dir w.disk) } in
      Creates io dir abs bytes w (persist_new io abs bytes path v)
persist_new-Creates io dir abs bytes path w =
    go ((io.meanwhile (made io dir w.disk)).symlink_metadata abs) io.persist io.sync refl refl refl
  where
    v : World
    v = record w { disk = io.meanwhile (made io dir w.disk) }

    go :
        (m : Metadata ⊎ IoError) (p y : Option IoError)
        → (io.meanwhile (made io dir w.disk)).symlink_metadata abs ≡ m
        → io.persist ≡ p
        → io.sync ≡ y
        → Creates io dir abs bytes w (persist_new io abs bytes path v)
    go (inl x) p y em ep ey = rw em (inl (_, refl, inr refl))
    go (inr e) (some x) y em ep ey = rw (em, ep) (inl (_, refl, inr refl))
    go (inr e) none (some x) em ep ey =
        rw (em, ep, ey)
          (inr (some (io_failed "fsync after create failed: " x), e, refl, refl, refl))
    go (inr e) none none em ep ey = rw (em, ep, ey) (inr (none, e, refl, refl, refl))

-- The steps before the link.
abbrev prepare : Io → AbsPath → Step (Unit {0})
prepare io abs =
    temp_file io abs >> check (io_failed "chmod temp failed: ") io.chmod >> change io.meanwhile

abbrev Prepares : Io → AbsPath → World → Result (Unit {0}) × World → Type 0
Prepares io dir w r =
    ((e : ProtocolError) × (r.0 ≡ err e) × Unlinked io dir w.disk r.1.disk)
    ⊎ (r ≡ (ok tt, record w { disk = io.meanwhile (made io dir w.disk) }))

-- The same, as a function of the parent and of the answers.
abbrev steps : Io → Option AbsPath → (mkdir temp write chmod : Option IoError) → Step (Unit {0})
steps io up m t x c =
    (do
      dir ← elim up [
        | none ↦ fail (new ErrorCode.invalid_request "path has no parent")
        | some dir ↦ pure dir
      ]
      make_way m io dir
      check (io_failed "temp file create failed: ") t
      check (io_failed "temp write failed: ") x)
    >> check (io_failed "chmod temp failed: ") c
    >> change io.meanwhile

steps-Prepares :
    (io : Io) (dir : AbsPath) (w : World) (m t x c : Option IoError)
    → io.mkdir ≡ m
    → Prepares io dir w (steps io (some dir) m t x c w)
steps-Prepares io dir w (some e) t x c h = inl (_, refl, inr (inr ((λ n. cc), refl)))
steps-Prepares io dir w none (some e) x c h = inl (_, refl, inr (inl refl))
steps-Prepares io dir w none none (some e) c h = inl (_, refl, inr (inl refl))
steps-Prepares io dir w none none none (some e) h = inl (_, refl, inr (inl refl))
steps-Prepares io dir w none none none none h = inr refl

prepare-Prepares :
    (io : Io) (dir abs : AbsPath) (w : World)
    → parent abs ≡ some dir
    → Prepares io dir w (prepare io abs w)
prepare-Prepares io dir abs w h =
    subst (λ up. Prepares io dir w (steps io up io.mkdir io.temp io.write io.chmod w)) (sym h)
      (steps-Prepares io dir w io.mkdir io.temp io.write io.chmod refl)

-- `not_yet`, on what the steps before the link give.
abbrev link_after :
    (Step (Option InstallFailure))
    → Result (Unit {0}) × World
    → Result (Option InstallFailure) × World
link_after link r = elim r.0 [ err e ↦ (ok (failed_install false e), r.1) | ok _ ↦ link r.1 ]

refused :
    (io : Io) (dir abs : AbsPath) (bytes : Bytes) (path : String) (w : World)
    (r : Result (Unit {0}) × World) (e : ProtocolError)
    → r.0 ≡ err e
    → Unlinked io dir w.disk r.1.disk
    → Creates io dir abs bytes w (link_after (persist_new io abs bytes path) r)
refused io dir abs bytes path w (ok u, v) e h d = cc
refused io dir abs bytes path w (err x, v) e h d = inl (x, refl, inl d)

-- For a path that has a parent, the installation of a new file either fails, says that nothing has
-- changed, and has at most made directories on the way to it, or it puts the file where, at that moment, nothing was,
-- and reports success or a failed sync that came after the change.
pub atomic_create_bytes-Creates :
    (io : Io) (dir abs : AbsPath) (bytes : Bytes) (path : String) (w : World)
    → parent abs ≡ some dir
    → Creates io dir abs bytes w (atomic_create_bytes io abs bytes path w)
unfolding atomic_create_bytes
atomic_create_bytes-Creates io dir abs bytes path w h = elim (prepare-Prepares io dir abs w h) [
  | inl (e, failed, same) ↦ refused io dir abs bytes path w (prepare io abs w) e failed same
  | inr done ↦
      subst (λ r. Creates io dir abs bytes w (link_after (persist_new io abs bytes path) r))
        (sym done) (persist_new-Creates io dir abs bytes path w)
]
