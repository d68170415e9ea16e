-- ===== src/Server/Dispatch/Handle.antt =====
-- server.rs, `handle`: what becomes of a request. What is outside answers as `Answers`; `meanwhile` is
-- what other requests and other programs do while the handler waits, for the write lock or for a
-- command. A reply that is `none` is not sent: a command or a wait that has not returned.
pub mod Table
pub mod Replay
use remote_workspace.Prelude.{ℕ, String, Bytes, Bool, Option, none, some, List, [], ◌⊎◌, inl, inr}
use remote_workspace.Protocol.Error.{ProtocolError, IoError, Result, ok, err}
use remote_workspace.Protocol.Messages.{RequestId, RequestBody, Request, WaitResult}
use remote_workspace.Protocol.Record.{AnyOperationRecord, ResultBody, ServerMessage}
use remote_workspace.Server.Log.{Codec}
use remote_workspace.Server.Store.{RequestEntry, RequestLogLine, OperationStore}
use remote_workspace.Server.Store.Requests.{claim_request, status_for_request}
use remote_workspace.Server.Workspace.{AbsPath, Workspace}
use remote_workspace.Server.Config.{ServerConfig}
use remote_workspace.Server.Exec.Shell.{Command}
use remote_workspace.Server.Exec.Run.{ExecOutcome, Process, exec}
use remote_workspace.Server.Exec.Wait.{Attempt, wait}
use remote_workspace.Server.Fs.WriteAhead.{World, Step, Io}
use remote_workspace.Server.Fs.Edit.{create, edit, delete}
use remote_workspace.Server.Fs.Read.{read, stat}
use remote_workspace.Server.Fs.List.{ReadDir, list}
use remote_workspace.Server.Transfer.Site.{Site, Task}
use remote_workspace.Server.Transfer.Prepare.{PrepareIo, upload_prepare}
use remote_workspace.Server.Transfer.Upload.{CommitIo, upload_commit, upload_abort, download_record}
use remote_workspace.Server.Dispatch.Reply.{
  op_kind_str, history, operation_get, message_of, replayed, finish,
}
use remote_workspace.Server.Dispatch.Command.{Asked, handle_exec}
use remote_workspace.Server.Dispatch.Gc.{GcIo, gc}

-- `Server`, with what does not change while it serves.
pub record Server : Type 0 where
  pub workspace : Workspace
  pub config : ServerConfig
  pub history_limit : Option ℕ
  pub scratch_max_age : Option ℕ

pub record Answers : Type 0 where
  pub now : ℕ
  pub io : Io
  pub read_dir : ReadDir
  pub system : Command → Process
  pub attempts : List Attempt
  pub prepare : PrepareIo
  pub commit : CommitIo
  pub abort_persisted : Option String
  pub abort_removed : Option IoError
  pub gc : GcIo
  pub meanwhile : Site → Site

abbrev pub Handler : Type 0
Handler = Site → Option ServerMessage × Site

-- What a handler answers at once, and what it does after claiming the request: a task under the write
-- lock, or a command.
pub data Route : Type 0 where
  waits : Option (Result WaitResult) → Route
  unpersisted : Task ResultBody → Route
  mutates : Task ResultBody → Route
  execs : Asked → (Site → Option (Result ExecOutcome)) → Route

abbrev in_world : {A : Type 0} → Step A → Task A
in_world m w =
    let (r, w') = m (record { store = w.store; disk = w.disk }) in
    (r, record w { store = w'.store; disk = w'.disk })

abbrev look : (Site → Result ResultBody) → Route
look f = unpersisted (λ w. (f w, w))

abbrev wait_reply : RequestId → Option (Result WaitResult) → Option ServerMessage
wait_reply request_id none = none
wait_reply request_id (some (ok r)) = some (ServerMessage.result request_id (ResultBody.wait r))
wait_reply request_id (some (err e)) = some (ServerMessage.error request_id e)

module _ (ops : Codec AnyOperationRecord) (reqs : Codec RequestLogLine) (decode : Bytes → Bytes)
    (sha256_hex : Bytes → String) (display : AbsPath → String) (server : Server) where
  -- A task under the write lock, and its result remembered.
  abbrev pub locked : (meanwhile : Site → Site) → RequestId → Task ResultBody → Handler
  locked meanwhile request_id task w =
      let (r, w') = task (meanwhile w) in
      let (reply, store) = finish reqs request_id r w'.store in
      (some reply, record w' { store = store })

  unfoldable pub route : Answers → RequestId → RequestBody → Route
  unfolding wait list stat read history operation_get status_for_request upload_prepare upload_abort
      create edit delete upload_commit download_record gc exec
  route a id (RequestBody.wait argv cwd profile timeout_ms) =
      waits
        (wait decode display server.workspace server.config cwd profile argv timeout_ms a.attempts)
  route a id (RequestBody.list path offset limit) =
      look (λ w. list w.disk a.read_dir server.workspace path offset limit)
  route a id (RequestBody.stat path) = look (λ w. stat sha256_hex w.disk server.workspace path)
  route a id (RequestBody.read path offset limit) =
      look (λ w. read sha256_hex w.disk server.workspace path offset limit)
  route a id (RequestBody.history limit) = look (λ w. history w.store limit)
  route a id (RequestBody.operation_get operation_id) =
      look (λ w. operation_get w.store operation_id)
  route a id (RequestBody.request_status target) =
      look (λ w. ok (ResultBody.request_status (status_for_request w.store target)))
  route a id (RequestBody.upload_prepare path overwrite) =
      unpersisted (upload_prepare server.workspace display a.prepare path overwrite)
  route a id (RequestBody.upload_abort transfer_id) =
      unpersisted (upload_abort a.abort_persisted a.abort_removed transfer_id)
  route a id (RequestBody.create path content) =
      mutates (in_world (create ops a.now a.io sha256_hex server.workspace id path content))
  route a id (RequestBody.edit path base_hash edits) =
      mutates (in_world (edit ops a.now a.io sha256_hex server.workspace id path base_hash edits))
  route a id (RequestBody.delete path) =
      mutates (in_world (delete ops a.now a.io sha256_hex server.workspace id path))
  route a id (RequestBody.exec argv cwd profile timeout_ms) =
      execs (record { argv = argv; cwd = cwd; profile = profile; timeout_ms = timeout_ms })
        (λ w.
          exec decode display w.disk server.workspace server.config a.system cwd profile argv
            timeout_ms)
  route a id (RequestBody.upload_commit transfer_id size sha256 duration_ms) =
      mutates (upload_commit ops a.now a.commit id transfer_id size sha256 duration_ms)
  route a id (RequestBody.download_record path size sha256 duration_ms) =
      mutates (download_record ops a.now server.workspace id path size sha256 duration_ms)
  route a id (RequestBody.gc keep) =
      mutates (gc ops reqs display server.history_limit server.scratch_max_age a.gc keep)

  -- What the claim of a request says: it is this handler's, or another's, or could not be recorded.
  abbrev pub after_claim : RequestId → Handler → Result (Option RequestEntry) → Handler
  after_claim id run (ok none) w = run w
  after_claim id run (ok (some entry)) w = (some (replayed id entry.result), w)
  after_claim id run (err e) w = (some (ServerMessage.error id e), w)

  abbrev pub after_claiming : Request → Handler → Handler
  after_claiming req run w =
      let (claim, store) = claim_request reqs req.request_id (op_kind_str req.body) w.store in
      after_claim req.request_id run claim (record w { store = store })

  abbrev pub follow_route : Answers → Request → Route → Handler
  follow_route a req (waits r) w = (wait_reply req.request_id r, w)
  follow_route a req (unpersisted task) w =
      (some (message_of req.request_id (task w).0), (task w).1)
  follow_route a req (mutates task) w =
      after_claiming req (locked a.meanwhile req.request_id task) w
  follow_route a req (execs asked outcome) w =
      after_claiming req
        (λ w. handle_exec ops reqs a.now req.request_id asked a.meanwhile (outcome w) w) w

  unfoldable pub handle : Answers → Request → Handler
  unfolding route claim_request op_kind_str finish handle_exec
  handle a req = follow_route a req (route a req.request_id req.body)
