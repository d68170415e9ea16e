-- ===== src/Lib.antt =====
-- remote-workspace, as functions on explicit state: the server that runs on a remote host
-- (crates/remote-workspace-server) and the types that it shares with its client
-- (crates/remote-workspace-protocol). A request is claimed in the server's store, carried out, and
-- its result is remembered, so that a request that is sent again can be answered from the store.
-- What the server does to files it announces in a log first, and a start reads its logs, repairs them
-- after a crash and settles what was announced and not concluded.
--
-- Prelude: Boolean tests, lists and texts; Prelude/Decimal.antt and Prelude/Utf8.antt are what the
--   source uses of Rust's str and u64 (parse, to_string, split, trim, from_utf8).
-- Protocol/Version.antt (version.rs): preflight, should_replace; Protocol/Error.antt (error.rs),
--   Protocol/Messages.antt (messages.rs) and Protocol/Record.antt (record.rs): the types, with their
--   constructors under the source's names. Result is Result<T, ProtocolError>.
-- Server/Install.antt (install.rs): run_install_to and probe_installed; the host answers as `Host`.
-- Server/Log.antt (store.rs): append_line with the outcome of each system call (`AppendIo`), the
--   reading of a log and its repair. Log/Json.antt says what is asked of serde_json, a parameter.
-- Server/Store.antt (store.rs, OperationStore): the store as a record and its tracked appends.
--   Store/Requests.antt has claim_request, remember_result and remember_error, Store/Records.antt the
--   markers, commits and other records, Store/Prune.antt prune, Store/Load.antt what `new` does with
--   the files (`start`), Store/Recovery.antt recover.
-- Server/Workspace.antt (workspace.rs, hash.rs): join, resolve, is_symlink, hash_file, on Unix. A
--   `FileSystem` is what the system calls answer at one moment. SHA-256 is a parameter.
-- Server/Fs (fs_ops.rs): Text.antt the replacements on bytes, Apply.antt the pure part of edit,
--   WriteAhead.antt the disk and its changes, Sequence.antt stage_write, install,
--   atomic_create_bytes and the write-ahead sequences, Edit.antt create, edit and delete, Read.antt
--   read and stat, List.antt list.
-- Server/Config.antt (config.rs): load_from_str after the TOML parser, and profile_for.
-- Server/Exec (exec.rs, on Unix): Output.antt the capture of output, Shell.antt the profile script and
--   the command, Run.antt exec from its checks to its outcome, Wait.antt wait. What the system reports
--   of a process is a list of events (`Process`); the decoder of output is a parameter.
-- Server/Transfer (transfer.rs): Registry.antt the pending uploads, Sweep.antt the sweeps of staging
--   files, Prepare.antt upload_prepare, Upload.antt upload_commit, upload_abort and download_record on
--   the store, the disk and the registry (Site.antt), Stream.antt run_transfer_receive and Send.antt
--   run_transfer_send; Base64 and the JSON of the header and the trailer are parameters.
-- Server/Scratch.antt (scratch.rs): enforce and sweep_if_due on a walk of the directories.
-- Server/Dispatch (server.rs): Reply.antt finish, history and operation_get, Command.antt handle_exec,
--   Gc.antt the gc request, Handle.antt handle: the route of each request, with the claim before it and
--   the remembered result after it. `Answers` holds what is outside.
--
-- Errors are values: an operation of the store returns its result and the store, which it may have
-- changed although it failed. The locks make each operation of the store one step. A HashMap is an
-- association list, and its order of iteration is that list's. The clock is read once in an
-- operation. u64 and usize have 64 bits: the operation counter wraps, projected sizes saturate. The
-- recursion is on the data, but for `fit` (exec.rs), which has one unit of fuel per byte and one more;
-- it drops a byte a turn, so that is enough. A list of events or of checks that ends before the loop
-- does means that the loop has not returned, which is `none`. A message is in its fixed words with the
-- texts put in; debug-quoted paths and the numbers of a parser's messages are left out.
--
-- Not modelled: the lock on the state directory, the removal of legacy blobs, failures of the writes
-- that repair a log, the Windows branches, process groups and the tasks that read pipes; the loop that
-- reads requests, its idle timeout and shutdown (server.rs, run); the session log; the client and the
-- MCP front end, which drive ssh and translate messages.
pub mod Prelude
pub mod Protocol
pub mod Server
pub mod Tests
