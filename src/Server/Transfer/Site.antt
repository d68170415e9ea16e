-- ===== src/Server/Transfer/Site.antt =====
-- transfer.rs: the state that uploads work on, the store, the disk and the registry, and the steps of
-- an operation on it. What a system call answers is an argument, and `none` is success.
pub mod Disk
use remote_workspace.Prelude.{String, Option, none, some, ◌<>◌}
use remote_workspace.Protocol.Error.{ErrorCode, ProtocolError, IoError, new, Result, ok, err}
use remote_workspace.Server.Store.{OperationStore, Store}
use remote_workspace.Server.Workspace.{FileSystem}
use remote_workspace.Server.Transfer.Registry.{PendingUpload, Uploads}

pub record Site : Type 0 where
  pub store : OperationStore
  pub disk : FileSystem
  pub uploads : Uploads

abbrev pub Task : Type 0 → Type 0
Task A = Site → Result A × Site

infixl 5 ◌>>=◌ ◌>>◌
abbrev pub ◌>>=◌ : {A B : Type 0} → Task A → (A → Task B) → Task B
◌>>=◌ m f w = elim (m w).0 [ ok a ↦ f a (m w).1 | err e ↦ (err e, (m w).1) ]

abbrev pub ◌>>◌ : {A B : Type 0} → Task A → Task B → Task B
m >> k = m >>= λ _. k

abbrev pub pure : {A : Type 0} → A → Task A
pure a w = (ok a, w)

abbrev pub ask : {A : Type 0} → (Site → Result A) → Task A
ask f w = (f w, w)

abbrev pub in_store : {A : Type 0} → Store A → Task A
in_store m w = ((m w.store).0, record w { store = (m w.store).1 })

abbrev pub change : (FileSystem → FileSystem) → Task (Unit {0})
change f w = (ok tt, record w { disk = f w.disk })

abbrev pub check : (IoError → ProtocolError) → Option IoError → Task (Unit {0})
check f none = pure tt
check f (some e) = λ w. (err (f e), w)

abbrev pub refuse : {A : Type 0} → ErrorCode → String → Result A
refuse code message = err (new code message)

abbrev pub in_registry : {A : Type 0} → (Uploads → Result A × Uploads) → Task A
in_registry f w = ((f w.uploads).0, record w { uploads = (f w.uploads).1 })

-- The entry of a transfer, or the error that there is none.
abbrev pub taken : (transfer_id : String) → Option PendingUpload → Result PendingUpload
taken transfer_id none =
    refuse ErrorCode.operation_not_found ("unknown transfer id: " <> transfer_id)
taken transfer_id (some entry) = ok entry
