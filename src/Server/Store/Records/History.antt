-- ===== src/Server/Store/Records/History.antt =====
-- What `history` lists (Server/Store/Records.antt).
use mathlib.Core.List.{map}
use remote_workspace.Prelude.{
  ℕ, ◌-◌, ◌≡◌, some, List, [], ◌∷◌, ◌++◌, arith, length, length-map, length-drop, drop, take,
  take-append-drop, drop-at, drop-none, sym, subst, zero, suc, min, refl, ap, ltb, ◌∙◌, Bool-cases,
  inl, inr,
}
use remote_workspace.Protocol.Messages.{ExecOutput}
use remote_workspace.Protocol.Record.{AnyOperationRecord}
use remote_workspace.Server.Store.{OperationStore}
use remote_workspace.Server.Store.Records.{committed, clear_outputs, newest, history}

-- Of an output, only its size.
abbrev pub size_only : ExecOutput → ExecOutput
size_only o = record {
  prefix = [];
  suffix = [];
  total_bytes = o.total_bytes;
  omitted_bytes = o.total_bytes;
}

-- What is shown of the records: mutations, commands with the size of their output, and transfers.
abbrev pub shown : List AnyOperationRecord → List AnyOperationRecord
shown [] = []
shown (AnyOperationRecord.fs r ∷ rs) = AnyOperationRecord.fs r ∷ shown rs
shown (AnyOperationRecord.exec r ∷ rs) =
    AnyOperationRecord.exec (record r { stdout = size_only r.stdout; stderr = size_only r.stderr })
    ∷ shown rs
shown (AnyOperationRecord.transfer r ∷ rs) = AnyOperationRecord.transfer r ∷ shown rs
shown (AnyOperationRecord.prepared p ∷ rs) = shown rs
shown (AnyOperationRecord.aborted a ∷ rs) = shown rs

committed-shown : (rs : List AnyOperationRecord) → map clear_outputs (committed rs) ≡ shown rs
unfolding committed
committed-shown [] = refl
committed-shown (AnyOperationRecord.fs r ∷ rs) =
    ap (λ t. AnyOperationRecord.fs r ∷ t) (committed-shown rs)
committed-shown (AnyOperationRecord.exec r ∷ rs) =
    ap (λ t. clear_outputs (AnyOperationRecord.exec r) ∷ t) (committed-shown rs)
committed-shown (AnyOperationRecord.transfer r ∷ rs) =
    ap (λ t. AnyOperationRecord.transfer r ∷ t) (committed-shown rs)
committed-shown (AnyOperationRecord.prepared p ∷ rs) = committed-shown rs
committed-shown (AnyOperationRecord.aborted a ∷ rs) = committed-shown rs

map-drop :
    (n : ℕ) (rs : List AnyOperationRecord)
    → map clear_outputs (drop n rs) ≡ drop n (map clear_outputs rs)
map-drop zero rs = refl
map-drop (suc n) [] = refl
map-drop (suc n) (r ∷ rs) = map-drop n rs

newest-drop : (n : ℕ) (rs : List AnyOperationRecord) → newest (some n) rs ≡ drop (length rs - n) rs
newest-drop n rs = elim (Bool-cases (ltb n (length rs))) [
  | inl more ↦ rw more refl
  | inr fits ↦ rw fits (sym (drop-none (length rs - n) rs (ground arith)))
]

-- The list is at the end of the other, and as long as it is or as the number says if that is less.
abbrev pub IsEnd : ℕ → (rs all : List AnyOperationRecord) → Type 0
IsEnd n rs all =
    ((older : List AnyOperationRecord) × (older ++ rs ≡ all)) × (length rs ≡ min n (length all))

drop-IsEnd : (n : ℕ) (rs : List AnyOperationRecord) → IsEnd n (drop (length rs - n) rs) rs
drop-IsEnd n rs = (
  (take (length rs - n) rs, take-append-drop (length rs - n) rs),
  omega (arith, length-drop (length rs - n) rs),
)

-- A history with a limit is the newest of the mutations, the commands, with the size of their output,
-- and the transfers that are recorded, in their order: as many as there are, or as the limit says if
-- that is less.
pub history-IsEnd : (s : OperationStore) (n : ℕ) → IsEnd n (history s (some n)) (shown s.records)
unfolding history
history-IsEnd s n =
    let all = committed s.records in
    let k : ℕ = length all - n in
    let same : length (shown s.records) ≡ length all =
      ap length (sym (committed-shown s.records)) ∙ length-map all clear_outputs in
    let end : drop (length (shown s.records) - n) (shown s.records) ≡ history s (some n) =
      drop-at (length (shown s.records) - n) k (shown s.records) (omega (arith, same))
      ∙ ap (drop k) (sym (committed-shown s.records))
      ∙ sym (map-drop k all)
      ∙ ap (map clear_outputs) (sym (newest-drop n all)) in
    subst (λ rs. IsEnd n rs (shown s.records)) end (drop-IsEnd n (shown s.records))
