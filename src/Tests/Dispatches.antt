-- ===== src/Tests/Dispatches.antt =====
-- The theorem on requests that are sent again, at a recorded download.
use remote_workspace.Prelude.{ℕ, true, Option, ◌≡◌, refl, String, none, some, [], inl}
use remote_workspace.Protocol.Messages.{RequestBody, Request, TransferDirection}
use remote_workspace.Protocol.Record.{ResultBody, ServerMessage}
use remote_workspace.Server.Workspace.{AbsPath, resolve}
use remote_workspace.Server.Config.{no_config}
use remote_workspace.Server.Store.{get}
use remote_workspace.Server.Log.{append_line}
use remote_workspace.Prelude.Decimal.{split, show}
use remote_workspace.Server.Store.Prune.{replaced}
use remote_workspace.Server.Exec.Run.{Process}
use remote_workspace.Server.Scratch.{readable, end}
use remote_workspace.Server.Transfer.Sweep.{Tree}
use remote_workspace.Server.Transfer.Site.{Site}
use remote_workspace.Server.Dispatch.Handle.{Server, Answers, handle}
use remote_workspace.Server.Dispatch.Handle.Replay.{handle-again}
use remote_workspace.Tests.Data.{
  disk, workspace, records_codec, requests_codec, store, size_hash, quiet,
}

abbrev server : Server
server = record {
  workspace = workspace;
  config = no_config;
  history_limit = none;
  scratch_max_age = none;
}

abbrev called : AbsPath → String
called p = "scratch"

abbrev process : Process
process = record {
  spawn = none;
  attach = none;
  events = [];
  reaped = true;
  drained = [];
  elapsed_ms = 0;
}

abbrev answers : ℕ → Answers
answers now = record {
  now = now;
  io = quiet;
  read_dir = λ p. inl [];
  system = λ c. process;
  attempts = [];
  prepare = record {
    entries = [];
    random = "x";
    create = none;
    keep = none;
    transfer_id = "t1";
    persisted = none;
    discard = none;
  };
  commit = record {
    chmod = none;
    rename = none;
    link = none;
    unlink = none;
    sync = none;
    persisted = none;
    meanwhile = λ fs. fs;
  };
  abort_persisted = none;
  abort_removed = none;
  gc = record {
    prune = record { counter = replaced; operations = replaced; requests = replaced };
    root = Tree.unreadable;
    scratch = Tree.unreadable;
    scratch_dir = readable [] end;
    scratch_now = 0;
    remove_file = λ p. none;
  };
  meanwhile = λ w. w;
}

abbrev site : Site
site = record { store = store; disk = disk; uploads = [] }

abbrev downloading : Request
downloading = record { request_id = "r9"; body = RequestBody.download_record "a" 2 "sha256:2" 30 }

abbrev message : ServerMessage
message = ServerMessage.result "r9" (
    ResultBody.transfer (record {
      operation_id = "op-9";
      direction = TransferDirection.download;
      path = "a";
      size = 2;
      sha256 = "sha256:2";
      duration_ms = 30;
    }))

abbrev handled : Option ServerMessage × Site
handled =
    handle records_codec requests_codec (λ b. b) size_hash called server (answers 9) downloading
      site

answered : handled ≡ (some message, handled.1)
unfolding handle resolve get append_line split show
answered = refl

-- Another download of the same id.
abbrev other : Request
other = record { request_id = "r9"; body = RequestBody.download_record "b" 3 "sha256:3" 40 }

handle-again_example :
    handle records_codec requests_codec
      (λ b. b)
      size_hash
      called
      server
      (answers 10)
      other
      handled.1
    ≡ (some message, handled.1)
handle-again_example =
    handle-again records_codec requests_codec (λ b. b) size_hash called server (answers 9)
      (answers 10) downloading other site handled.1 message tt tt refl tt answered
