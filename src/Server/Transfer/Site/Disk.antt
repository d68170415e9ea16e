-- ===== src/Server/Transfer/Site/Disk.antt =====
-- transfer.rs: steps that leave the disk alone, and the rule for one step after another.
use remote_workspace.Prelude.{◌≡◌, ◌∙◌, refl, Option, none, some}
use remote_workspace.Protocol.Error.{ProtocolError, IoError, Result, ok, err}
use remote_workspace.Server.Store.{Store}
use remote_workspace.Server.Transfer.Registry.{Uploads}
use remote_workspace.Server.Transfer.Site.{Site, Task, ◌>>=◌, pure, check, in_registry, in_store}

pub bind-elim :
    {A B : Type 0} (P : Result B × Site → Type 0) (m : Task A) (f : A → Task B) (w : Site)
    → ((e : ProtocolError) → (m w).0 ≡ err e → P (err e, (m w).1))
    → ((a : A) → (m w).0 ≡ ok a → P (f a (m w).1))
    → P ((m >>= f) w)
bind-elim {A = A} P m f w on_err on_ok = go (m w).0 refl
  where
    go : (r : Result A) → (m w).0 ≡ r → P ((m >>= f) w)
    go (ok a) e = rw (e, ◌>>=◌) (on_ok a e)
    go (err x) e = rw (e, ◌>>=◌) (on_err x e)

-- The step leaves the disk alone.
unfoldable pub KeepsDisk : {A : Type 0} → Task A → Type 0
KeepsDisk m = (w : Site) → (m w).1.disk ≡ w.disk

pub >>=-KeepsDisk :
    {A B : Type 0} (m : Task A) (f : A → Task B)
    → KeepsDisk m
    → ((a : A) → KeepsDisk (f a))
    → KeepsDisk (m >>= f)
unfolding KeepsDisk
>>=-KeepsDisk m f h k w =
    bind-elim (λ r. r.1.disk ≡ w.disk) m f w (λ e _. h w) (λ a _. k a (m w).1 ∙ h w)

pub check-KeepsDisk : (f : IoError → ProtocolError) (o : Option IoError) → KeepsDisk (check f o)
unfolding KeepsDisk
check-KeepsDisk f none w = refl
check-KeepsDisk f (some e) w = refl

pub in_registry-KeepsDisk :
    {A : Type 0} (f : Uploads → Result A × Uploads) → KeepsDisk (in_registry f)
unfolding KeepsDisk
in_registry-KeepsDisk f w = refl

pub pure-KeepsDisk : {A : Type 0} (a : A) → KeepsDisk (pure a)
unfolding KeepsDisk
pure-KeepsDisk a w = refl

pub in_store-KeepsDisk : {A : Type 0} (m : Store A) → KeepsDisk (in_store m)
unfolding KeepsDisk
in_store-KeepsDisk m w = refl
