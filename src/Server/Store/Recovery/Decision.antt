-- ===== src/Server/Store/Recovery/Decision.antt =====
-- What `judge` (store.rs, recover_prepared) makes of a marker and the state of its path.
use remote_workspace.Prelude.{
  String, ◌≡◌, ◌≢◌, ◌⊎◌, ◌↔◌, refl, Bool, true, false, Option, none, some, inl, inr, arith, eq_iff,
}
use remote_workspace.Protocol.Record.{PreparedRecord}
use remote_workspace.Server.Store.Recovery.{
  RecoveryOutcome, no_op, committed, judge, file_deleted_sentinel,
}

-- A state of the path as the hash that a marker would expect of it.
abbrev pub hash_of_state : Option String → String
hash_of_state none = file_deleted_sentinel
hash_of_state (some h) = h

-- The decision, by the state of the path.
abbrev pub Judged : Bool → PreparedRecord → Option String → RecoveryOutcome → Type 0
Judged continued p current no_op = (continued ≡ false) × (p.before_hash ≡ current)
Judged continued p current committed =
    (continued ≡ true)
    ⊎ ((p.before_hash ≢ current) × (hash_of_state current ≡ p.expected_after_hash))
Judged continued p current (RecoveryOutcome.conflict reason) =
    (continued ≡ false)
    × (p.before_hash ≢ current)
    × (hash_of_state current ≢ p.expected_after_hash)

no_op_iff :
    (p : PreparedRecord) (b current : Option String)
    → p.before_hash ≡ b
    → (judge false p current ≡ no_op) ↔ (p.before_hash ≡ current)
unfolding judge
no_op_iff p none none h = ground arith
no_op_iff p none (some c) h = ground (arith, eq_iff c p.expected_after_hash)
no_op_iff p (some b) none h = ground (arith, eq_iff p.expected_after_hash file_deleted_sentinel)
no_op_iff p (some b) (some c) h = ground (arith, eq_iff b c, eq_iff c p.expected_after_hash)

committed_iff :
    (p : PreparedRecord) (b current : Option String)
    → p.before_hash ≡ b
    → p.before_hash ≢ current
    → (judge false p current ≡ committed) ↔ (hash_of_state current ≡ p.expected_after_hash)
unfolding judge
committed_iff p none none h ne = ground arith
committed_iff p none (some c) h ne = ground (arith, eq_iff c p.expected_after_hash)
committed_iff p (some b) none h ne =
    ground (arith, eq_iff p.expected_after_hash file_deleted_sentinel)
committed_iff p (some b) (some c) h ne = ground (arith, eq_iff b c, eq_iff c p.expected_after_hash)

pub judge-Judged :
    (continued : Bool) (p : PreparedRecord) (current : Option String) (o : RecoveryOutcome)
    → judge continued p current ≡ o
    → Judged continued p current o
unfolding judge
judge-Judged true p current no_op h = cc
judge-Judged true p current committed h = inl refl
judge-Judged true p current (RecoveryOutcome.conflict reason) h = cc
judge-Judged false p current no_op h = (refl, (no_op_iff p p.before_hash current refl).0 h)
judge-Judged false p current committed h =
    let ne : p.before_hash ≢ current =
      λ q. let n = (no_op_iff p p.before_hash current refl).1 q in cc (h, n) in
    inr (ne, (committed_iff p p.before_hash current refl ne).0 h)
judge-Judged false p current (RecoveryOutcome.conflict reason) h =
    let ne : p.before_hash ≢ current =
      λ q. let n = (no_op_iff p p.before_hash current refl).1 q in cc (h, n) in
    (refl, ne, λ q. let n = (committed_iff p p.before_hash current refl ne).1 q in cc (h, n))
