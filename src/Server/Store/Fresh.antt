-- ===== src/Server/Store/Fresh.antt =====
-- The operation counter after a start (Server/Store/Load.antt).
use remote_workspace.Server.Log.{load_log}
use remote_workspace.Prelude.{
  ℕ, ◌+◌, ◌≤◌, ◌<◌, ◌%◌, String, Bytes, ◌≡◌, refl, Option, List, [], ◌∷◌, arith, max, ◌<>◌,
}
use remote_workspace.Prelude.Decimal.{u64_mod, show, parse_u64-show, strip_prefix-append}
use remote_workspace.Protocol.Error.{ok}
use remote_workspace.Protocol.Record.{AnyOperationRecord, operation_id}
use remote_workspace.Server.Log.{Codec, AppendIo}
use remote_workspace.Server.Store.{RequestLogLine, OperationStore, next_operation_id}
use remote_workspace.Server.Store.Load.{id_number, max_id, start, start-eq-ok}

-- Every id of the list has a number below `n`.
abbrev pub AllBelow : ℕ → List AnyOperationRecord → Type 0
AllBelow n [] = Unit
AllBelow n (r ∷ rs) = (id_number (operation_id r) < n) × AllBelow n rs

AllBelow-mono : (m n : ℕ) (rs : List AnyOperationRecord) → m ≤ n → AllBelow m rs → AllBelow n rs
AllBelow-mono m n [] h b = tt
AllBelow-mono m n (r ∷ rs) h b = (omega arith, AllBelow-mono m n rs h b.1)

max_id-le : (m n : ℕ) (rs : List AnyOperationRecord) → max_id n rs ≤ m → n ≤ m
unfolding max_id
max_id-le m n [] h = h
max_id-le m n (r ∷ rs) h = omega (arith, max_id-le m (max n (id_number (operation_id r))) rs h)

AllBelow-max_id : (m n : ℕ) (rs : List AnyOperationRecord) → max_id n rs < m → AllBelow m rs
unfolding max_id
AllBelow-max_id m n [] h = tt
AllBelow-max_id m n (r ∷ rs) h = (
  omega (
    arith,
    max_id-le (max_id (max n (id_number (operation_id r))) rs) (max n (id_number (operation_id r)))
        rs (omega arith),
  ),
  AllBelow-max_id m (max n (id_number (operation_id r))) rs h,
)

-- The id of a number reads back as that number.
id_number-show : (n : ℕ) → n < u64_mod → id_number ("op-" <> show n) ≡ n
unfolding id_number
id_number-show n h = rw strip_prefix-append (rw (parse_u64-show n h) refl)

id_number-next_operation_id :
    (u : OperationStore)
    → u.next_id + 1 < u64_mod
    → id_number (next_operation_id u).0 ≡ u.next_id + 1
unfolding next_operation_id
id_number-next_operation_id u h =
    let small : (u.next_id + 1) % u64_mod ≡ u.next_id + 1 = omega arith in
    rw small (id_number-show (u.next_id + 1) h)

module _ (ops : Codec AnyOperationRecord) (reqs : Codec RequestLogLine) where
  -- The first operation id given out after a start has a number above those of all records that
  -- were read from the log, if the counter has not reached the end of its type.
  pub next_operation_id-fresh :
      (counter : Option String) (operations fixed requests : Bytes) (log : List AnyOperationRecord)
      (weather : List AppendIo) (u : OperationStore)
      → load_log ops operations ≡ ok (log, fixed)
      → start ops reqs counter operations requests weather ≡ ok u
      → u.next_id + 1 < u64_mod
      → AllBelow (id_number (next_operation_id u).0) log
  next_operation_id-fresh counter operations fixed requests log weather u loaded h fits =
      let (n, o, r, _, ho, _, next, _, _) =
        start-eq-ok ops reqs counter operations requests weather u h in
      let same : o ≡ (log, fixed) = cc in
      let number : id_number (next_operation_id u).0 ≡ u.next_id + 1 =
        id_number-next_operation_id u fits in
      AllBelow-max_id _ n log (rw number (rw next (rw same (omega arith))))
