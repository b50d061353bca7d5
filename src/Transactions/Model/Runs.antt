-- ===== src/Transactions/Model/Runs.antt =====
-- Sequences of status changes of one transaction (transaction.model.ts). A change that throws leaves
-- the transaction as it is.
use mux_backend.Prelude.{
  ℕ, suc, ◌+◌, ◌≤◌, ◌≡◌, ◌⊎◌, true, false, String, Option, List, [], ◌∷◌, arith, if◌then◌else◌,
}
use mux_backend.Prelude.Http.{Result, ok, throw}
use mux_backend.Transactions.Model.{
  TransactionStatus, pending, submitted, confirmed, failed, Transaction, PartialReferences,
  same_status, transition_transaction_status,
}
use mux_backend.Transactions.Model.Lifecycle.{IsConsistent}

pub record Change : Type 0 where
  pub to : TransactionStatus
  pub reason : Option String
  pub refs : Option PartialReferences
  pub at : ℕ

abbrev after : Transaction → Result Transaction → Transaction
after t (ok u) = u
after t (throw e) = t

pub apply : Transaction → Change → Transaction
apply t c = after t (transition_transaction_status t c.to c.reason c.refs c.at)

pub run : Transaction → List Change → Transaction
run t [] = t
run t (c ∷ cs) = run (apply t c) cs

-- How many of the changes altered the status.
pub changes : Transaction → List Change → ℕ
changes t [] = 0
changes t (c ∷ cs) =
    let rest = changes (apply t c) cs in
    if same_status t.status (apply t c).status then rest else suc rest

-- The dates of the changes do not go back.
abbrev pub Ordered : ℕ → List Change → Type 0
Ordered last [] = Unit {0}
Ordered last (c ∷ cs) = (last ≤ c.at) × Ordered c.at cs

abbrev pub rank : TransactionStatus → ℕ
rank pending = 0
rank submitted = 1
rank confirmed = 2
rank failed = 2

rank-apply :
    (t : Transaction) (c : Change)
    → ((same_status t.status (apply t c).status ≡ true) × (rank (apply t c).status ≡ rank t.status))
      ⊎ ((same_status t.status (apply t c).status ≡ false)
          × (suc (rank t.status) ≤ rank (apply t c).status))
unfolding apply transition_transaction_status
rank-apply t c = ground arith

-- However many changes are asked for, the status of a transaction changes at most twice, and not at
-- all once it is confirmed or failed.
pub changes-le : (t : Transaction) (cs : List Change) → rank t.status + changes t cs ≤ 2
unfolding changes
changes-le t [] = bounded t.status
  where
    bounded : (s : TransactionStatus) → rank s + 0 ≤ 2
    bounded s = ground arith
changes-le t (c ∷ cs) = ground (arith, rank-apply t c, changes-le (apply t c) cs)

IsConsistent-later :
    (t : Transaction) (c : Change)
    → IsConsistent t
    → t.status_changed_at ≤ c.at
    → IsConsistent (apply t c) × ((apply t c).status_changed_at ≤ c.at)
unfolding apply transition_transaction_status
IsConsistent-later t c v h = ground arith

-- A transaction that is consistent stays so over any sequence of changes whose times do not go back:
-- exactly the stamps that its status calls for are set.
pub run-IsConsistent :
    (t : Transaction) (last : ℕ) (cs : List Change)
    → IsConsistent t
    → t.status_changed_at ≤ last
    → Ordered last cs
    → IsConsistent (run t cs)
unfolding run
run-IsConsistent t last [] v h o = v
run-IsConsistent t last (c ∷ cs) v h o =
    let (w, l) = IsConsistent-later t c v (omega arith) in
    run-IsConsistent (apply t c) c.at cs w l o.1
