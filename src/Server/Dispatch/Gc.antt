-- ===== src/Server/Dispatch/Gc.antt =====
-- server.rs, the `gc` request: prune, sweep the staging files of both roots, sweep the scratch space.
use remote_workspace.Prelude.{ℕ, ◌+◌, String, Option, none, some, ◌⊎◌, inl, inr}
use remote_workspace.Protocol.Error.{ErrorCode, IoError, new, io_failed, Result, ok, err}
use remote_workspace.Protocol.Messages.{ScratchUsage}
use remote_workspace.Protocol.Record.{AnyOperationRecord, ResultBody}
use remote_workspace.Server.Log.{Codec}
use remote_workspace.Server.Store.{RequestLogLine}
use remote_workspace.Server.Store.Prune.{PruneIo, PruneStats, prune}
use remote_workspace.Server.Workspace.{AbsPath}
use remote_workspace.Server.Scratch.{Dir, enforce}
use remote_workspace.Server.Transfer.Registry.{in_flight_staging, stale_staging_max_age}
use remote_workspace.Server.Transfer.Sweep.{Tree, sweep_stale_staging_tree}
use remote_workspace.Server.Transfer.Site.{Task, ◌>>=◌, pure, in_store}

-- What is found outside the store.
pub record GcIo : Type 0 where
  pub prune : PruneIo
  pub root : Tree
  pub scratch : Tree
  pub scratch_dir : Dir
  pub scratch_now : ℕ
  pub remove_file : AbsPath → Option IoError

abbrev sweep : Tree → Task ℕ
sweep tree w =
    let (removed, disk) =
      sweep_stale_staging_tree (in_flight_staging w.uploads) stale_staging_max_age tree w.disk in
    (ok removed, record w { disk = disk })

abbrev usage_or : ScratchUsage ⊎ IoError → Result ScratchUsage
usage_or (inl usage) = ok usage
usage_or (inr e) = err (io_failed "scratch sweep failed: " e)

abbrev sweep_scratch :
    (display : AbsPath → String) → (max_age : Option ℕ) → GcIo → Task ScratchUsage
sweep_scratch display max_age io w =
    let (usage, disk) =
      enforce max_age io.remove_file display io.scratch_now io.scratch_dir w.disk in
    (usage_or usage, record w { disk = disk })

abbrev or_limit : Option ℕ → Option ℕ → Option ℕ
or_limit none limit = limit
or_limit (some keep) limit = some keep

abbrev gc_result : PruneStats → (swept : ℕ) → ScratchUsage → ResultBody
gc_result s swept scratch = ResultBody.gc (record {
  removed_operations = s.removed_operations;
  removed_requests = s.removed_requests;
  retained_operations = s.retained_operations;
  removed_stale_staging = swept;
  scratch = scratch;
})

module _ (ops : Codec AnyOperationRecord) (reqs : Codec RequestLogLine) (display : AbsPath → String)
    (history_limit scratch_max_age : Option ℕ) where
  abbrev collected : GcIo → Option ℕ → Task ResultBody
  collected io none = λ w. (
    err (
        new ErrorCode.invalid_request
          "server has no history limit configured; pass keep explicitly"),
    w,
  )
  collected io (some k) = do
    stats ← in_store (prune ops reqs k io.prune)
    in_root ← sweep io.root
    in_scratch ← sweep io.scratch
    scratch ← sweep_scratch display scratch_max_age io
    pure (gc_result stats (in_root + in_scratch) scratch)

  unfoldable pub gc : GcIo → (keep : Option ℕ) → Task ResultBody
  unfolding prune sweep_stale_staging_tree in_flight_staging enforce
  gc io keep = collected io (or_limit keep history_limit)
