-- ===== src/Tests/Transfers.antt =====
-- The theorems on staging files, uploads and the scratch space, at a small disk.
use remote_workspace.Prelude.{
  ℕ, ◌<◌, ◌≡◌, refl, String, true, false, Option, none, some, [], ◌∷◌, ◌⊎◌, inl, arith, sym, subst,
}
use remote_workspace.Prelude.Decimal.{u64_mod}
use remote_workspace.Protocol.Error.{IoError}
use remote_workspace.Protocol.Messages.{ScratchUsage}
use remote_workspace.Server.Workspace.{AbsPath, FileSystem}
use remote_workspace.Server.Fs.WriteAhead.{path_eq, put_file}
use remote_workspace.Server.Transfer.Registry.{PendingUpload, pending_get}
use remote_workspace.Server.Transfer.Sweep.{
  StagingEntry, Tree, dir, no_more, contains, sweep_stale_staging_tree,
}
use remote_workspace.Server.Transfer.Sweep.Abandoned.{Same, NoneIn, sweep_stale_staging_tree-Same}
use remote_workspace.Server.Transfer.Site.{Site}
use remote_workspace.Server.Transfer.Upload.{CommitIo, upload_commit}
use remote_workspace.Server.Transfer.Upload.Commit.{Ends, upload_commit-Ends}
use remote_workspace.Server.Scratch.{Dir, FileTimes, enforce, readable, file, end, collect}
use remote_workspace.Server.Scratch.Idle.{
  FreshAt, fresh_files, fresh_bytes, enforce-Same, enforce-counts,
}
use remote_workspace.Tests.Data.{disk, hi, records_codec, store}

abbrev staging : AbsPath
staging = "root" ∷ ".remote-workspace-upload.b.x.part" ∷ []

abbrev left : AbsPath
left = "root" ∷ ".remote-workspace-write.y.part" ∷ []

abbrev both : FileSystem
both = put_file staging 384 hi disk

abbrev staged : AbsPath → String → StagingEntry
staged p name = record {
  name = some name;
  path = p;
  meta = some (record { regular = true; age = some 604800 });
  removed = true;
}

-- A file that an upload uses, and one that is old.
abbrev tree : Tree
tree =
    dir
      (staged staging ".remote-workspace-upload.b.x.part"
        ∷ staged left ".remote-workspace-write.y.part"
        ∷ [])
      no_more

in_flight : contains (staging ∷ []) staging ≡ true
unfolding contains path_eq
in_flight = refl

elsewhere : (path_eq left staging ≡ false) × (path_eq left left ≡ true)
unfolding path_eq
elsewhere = (refl, refl)

unlike : left ≡ staging → ⊥
unlike e = let (a, b) = elsewhere in cc (e, a, b)

spared : NoneIn (staging ∷ []) 604800 staging tree
spared = (((λ e a. cc (in_flight, a.free)), ((λ e a. unlike e), tt)), tt)

sweep_stale_staging_tree-Same_example :
    Same staging both (sweep_stale_staging_tree (staging ∷ []) 604800 tree both).1
sweep_stale_staging_tree-Same_example =
    sweep_stale_staging_tree-Same (staging ∷ []) 604800 staging tree both spared

abbrev target : AbsPath
target = "root" ∷ "b" ∷ []

abbrev pub upload : PendingUpload
upload = record { staging = staging; target = target; logical_path = "b"; overwrite = false }

abbrev site : Site
site = record { store = store; disk = both; uploads = ("t1", upload) ∷ [] }

abbrev commit : CommitIo
commit = record {
  chmod = none;
  rename = none;
  link = none;
  unlink = none;
  sync = none;
  persisted = none;
  meanwhile = λ fs. fs;
}

apart : path_eq target staging ≡ false
unfolding path_eq
apart = refl

registered : pending_get "t1" site.uploads ≡ some upload
unfolding pending_get
registered = refl

upload_commit-Ends_example :
    Ends commit upload 2 both (upload_commit records_codec 9 commit "r9" "t1" 2 "sha256:2" 30 site)
upload_commit-Ends_example =
    upload_commit-Ends records_codec 9 commit "r9" "t1" 2 "sha256:2" 30 upload apart refl site
      registered

abbrev times : ℕ → FileTimes ⊎ IoError
times t = inl (record { len = 2; modified = inl t; accessed = inl t })

abbrev old_path : AbsPath
old_path = "scratch" ∷ "c" ∷ []

abbrev scratch : Dir
scratch =
    readable ("scratch" ∷ [])
      (file ("scratch" ∷ "d" ∷ []) (times 90) (file old_path (times 10) end))

abbrev all_gone : AbsPath → Option IoError
all_gone p = none

abbrev called : AbsPath → String
called p = "scratch"

found :
    (collect 100 scratch ([], [])).0
    ≡ record { path = "scratch" ∷ "d" ∷ []; bytes = 2; idle = 10 }
      ∷ record { path = old_path; bytes = 2; idle = 90 }
      ∷ []
unfolding collect
found = refl

abbrev recent : AbsPath
recent = "scratch" ∷ "d" ∷ []

unused : path_eq old_path recent ≡ false
unfolding path_eq
unused = refl

same_there : path_eq old_path old_path ≡ true
unfolding path_eq
same_there = refl

not_recent : old_path ≡ recent → ⊥
not_recent e = cc (e, unused, same_there)

fresh : FreshAt (some 50) recent (collect 100 scratch ([], [])).0
fresh =
    subst (FreshAt (some 50) recent) (sym found)
      ((λ e. omega arith), ((λ e. absurd (not_recent e)), tt))

enforce-Same_example : Same recent disk (enforce (some 50) all_gone called 100 scratch disk).1
enforce-Same_example = enforce-Same (some 50) all_gone called 100 scratch disk recent fresh

abbrev pub usage : ScratchUsage
usage = record { files = 1; bytes = 2; oldest_days = some 0; removed_files = 1; removed_bytes = 2 }

enforced : (enforce (some 50) all_gone called 100 scratch disk).0 ≡ inl usage
unfolding enforce collect
enforced = refl

few : fresh_files (some 50) (collect 100 scratch ([], [])).0 < u64_mod
few = subst (λ entries. fresh_files (some 50) entries < u64_mod) (sym found) (omega arith)

small : fresh_bytes (some 50) (collect 100 scratch ([], [])).0 < u64_mod
small = subst (λ entries. fresh_bytes (some 50) entries < u64_mod) (sym found) (omega arith)

enforce-counts_example :
    (usage.files ≡ fresh_files (some 50) (collect 100 scratch ([], [])).0)
    × (usage.bytes ≡ fresh_bytes (some 50) (collect 100 scratch ([], [])).0)
enforce-counts_example =
    enforce-counts (some 50) all_gone called 100 scratch disk usage few small enforced
