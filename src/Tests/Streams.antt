-- ===== src/Tests/Streams.antt =====
-- The theorems on the streams of a transfer, at a few bytes.
use remote_workspace.Prelude.{
  ℕ, ◌≡◌, refl, String, Bytes, true, false, none, some, List, [], ◌∷◌, ◌⊎◌, inl, take, arith,
}
use remote_workspace.Prelude.Decimal.{show, strip_prefix, split}
use remote_workspace.Prelude.Utf8.{is_utf8}
use remote_workspace.Protocol.Error.{ok}
use remote_workspace.Server.Workspace.{Metadata, FileType, resolve}
use remote_workspace.Server.Fs.WriteAhead.{put_file}
use remote_workspace.Server.Transfer.Stream.{ReceiveMetadata, Pass, run_transfer_receive}
use remote_workspace.Server.Transfer.Stream.Received.{
  Reported, run_transfer_receive-Reported, run_transfer_receive-take,
}
use remote_workspace.Server.Transfer.Stream.Enough.{run_transfer_receive-returns}
use remote_workspace.Server.Transfer.Send.{run_transfer_send}
use remote_workspace.Server.Transfer.Send.Sent.{Puts, run_transfer_send-Puts}
use remote_workspace.Tests.Data.{disk, workspace, file_path, hi, size_hash}

-- A coding that leaves a line as it is.
abbrev plain : Bytes → Bytes ⊎ String
plain line = inl line

abbrev pass : Pass
pass = record { ready = 0; read_error = none; write_error = none; partial = 0 }

abbrev passes : List Pass
passes = pass ∷ pass ∷ []

abbrev lines : Bytes
lines = b'h' ∷ b'\n' ∷ b'i' ∷ b'\n' ∷ b'x' ∷ []

abbrev report : ReceiveMetadata
report = record { size = 2; sha256 = "sha256:2" }

received :
    run_transfer_receive plain size_hash none none [] true 2 passes lines ≡ some (inl report, hi)
unfolding run_transfer_receive show is_utf8
received = refl

run_transfer_receive-Reported_example : Reported plain size_hash 2 report hi
run_transfer_receive-Reported_example =
    run_transfer_receive-Reported plain size_hash none none [] true 2 passes lines report hi
      received

abbrev longer : Bytes
longer = b'h' ∷ b'i' ∷ b'x' ∷ []

taken :
    run_transfer_receive plain size_hash none none [] false 2 passes longer ≡ some (inl report, hi)
unfolding run_transfer_receive show
taken = refl

run_transfer_receive-take_example : hi ≡ take 2 longer
run_transfer_receive-take_example =
    run_transfer_receive-take plain size_hash none none [] 2 passes longer report hi taken

run_transfer_receive-returns_example :
    (meta : ReceiveMetadata) × (run_transfer_receive plain size_hash none none [] false 2 passes
        longer
      ≡ some (inl meta, take 2 longer))
run_transfer_receive-returns_example =
    run_transfer_receive-returns plain 2 size_hash [] passes longer (refl, refl, (refl, refl, tt))
      (omega arith) (omega arith)

abbrev header : ℕ → Bytes
header size = b'{' ∷ size ∷ b'}' ∷ []

abbrev trailer : String → Bytes
trailer hash = b'{' ∷ b'}' ∷ []

abbrev meta : Metadata
meta = record { file_type = FileType.file; len = 2; mode = 420 }

resolves : resolve disk workspace "a" ≡ ok file_path
unfolding resolve split put_file strip_prefix
resolves = refl

stated : disk.symlink_metadata file_path ≡ inl meta
unfolding put_file
stated = refl

opened : disk.contents file_path ≡ inl hi
unfolding put_file
opened = refl

abbrev output : Bytes
output = b'{' ∷ 2 ∷ b'}' ∷ b'\n' ∷ b'h' ∷ b'\n' ∷ b'i' ∷ b'\n' ∷ b'{' ∷ b'}' ∷ b'\n' ∷ []

sent :
    run_transfer_send (λ b. b) header trailer size_hash disk workspace none true "a" passes
    ≡ some (inl output)
unfolding run_transfer_send split put_file strip_prefix
sent = refl

run_transfer_send-Puts_example : Puts (λ b. b) true header trailer size_hash 2 hi output
run_transfer_send-Puts_example =
    run_transfer_send-Puts (λ b. b) true header trailer size_hash disk workspace none "a" passes
      file_path meta hi output resolves stated opened sent
