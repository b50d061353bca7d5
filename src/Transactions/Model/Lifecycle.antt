-- ===== src/Transactions/Model/Lifecycle.antt =====
-- What one status change does to a transaction (transaction.model.ts).
use mux_backend.Prelude.{ℕ, String, ◌≤◌, ◌≡◌, refl, ◌≢◌, ◌↔◌, ◌⊎◌, true, Option, none, some, arith}
use mux_backend.Prelude.Http.{ok, is_ok}
use mux_backend.Transactions.Model.{
  TransactionStatus, pending, submitted, confirmed, failed, Transaction, TransactionAsset,
  PartialReferences, can_transition_transaction_status, transition_transaction_status,
  create_transaction,
}

-- The timestamps that a transaction of this status carries.
abbrev pub Stamps : TransactionStatus → Transaction → Type 0
Stamps pending t = (t.submitted_at ≡ none) × (t.confirmed_at ≡ none) × (t.failed_at ≡ none)
Stamps submitted t =
    (t.submitted_at ≡ some t.status_changed_at) × (t.confirmed_at ≡ none) × (t.failed_at ≡ none)
Stamps confirmed t =
    (t.submitted_at ≢ none) × (t.confirmed_at ≡ some t.status_changed_at) × (t.failed_at ≡ none)
Stamps failed t = (t.confirmed_at ≡ none) × (t.failed_at ≡ some t.status_changed_at)

pub record IsConsistent (t : Transaction) : Type 0 where
  pub stamps : Stamps t.status t
  pub order : t.created_at ≤ t.status_changed_at

pub create_transaction-IsConsistent :
    (id amount : String) (asset : TransactionAsset) (sender : String)
    (receiver metadata : Option String) (at : ℕ)
    → IsConsistent (create_transaction id amount asset sender receiver metadata at)
unfolding create_transaction
create_transaction-IsConsistent id amount asset sender receiver metadata at = ground arith

-- A successful status change, at a time not before the last one, keeps the status and the
-- timestamps consistent: exactly the stamps that the new status calls for are set.
pub transition-IsConsistent :
    (t u : Transaction) (to : TransactionStatus) (reason : Option String)
    (refs : Option PartialReferences) (at : ℕ)
    → IsConsistent t
    → t.status_changed_at ≤ at
    → transition_transaction_status t to reason refs at ≡ ok u
    → IsConsistent u
unfolding transition_transaction_status
transition-IsConsistent t u to reason refs at c later e = ground arith

-- The diagram of the statuses.
infix 40 ◌⟶◌
pub data ◌⟶◌ : TransactionStatus → TransactionStatus → Type 0 where
  submit : pending ⟶ submitted
  abandon : pending ⟶ failed
  confirm : submitted ⟶ confirmed
  reject : submitted ⟶ failed

pub can_transition-⟶ :
    (from to : TransactionStatus) → (can_transition_transaction_status from to ≡ true) ↔ (from ⟶ to)
unfolding can_transition_transaction_status
can_transition-⟶ from to = (λ e. allowed from to e, edge)
  where
    allowed : (a b : TransactionStatus) → can_transition_transaction_status a b ≡ true → a ⟶ b
    allowed a b e = grind (arith, submit, abandon, confirm, reject)

    edge : {a b : TransactionStatus} → a ⟶ b → can_transition_transaction_status a b ≡ true
    edge submit = refl
    edge abandon = refl
    edge confirm = refl
    edge reject = refl

-- A status change succeeds exactly when the status is already the wanted one or the diagram has an
-- edge to it; otherwise it throws.
pub transition-ok_iff :
    (t : Transaction) (to : TransactionStatus) (reason : Option String)
    (refs : Option PartialReferences) (at : ℕ)
    → (is_ok (transition_transaction_status t to reason refs at) ≡ true)
      ↔ ((t.status ≡ to) ⊎ (t.status ⟶ to))
unfolding transition_transaction_status
transition-ok_iff t to reason refs at = (
  λ e. ground (arith, (can_transition-⟶ t.status to).0),
  λ e. ground (arith, (can_transition-⟶ t.status to).1),
)

-- A successful status change ends in the wanted status, and keeps the identifier, the amount, the
-- asset, the wallets, the metadata and the date of creation.
pub transition_keeps :
    (t u : Transaction) (to : TransactionStatus) (reason : Option String)
    (refs : Option PartialReferences) (at : ℕ)
    → transition_transaction_status t to reason refs at ≡ ok u
    → (u.status ≡ to)
      × (u.id ≡ t.id)
      × (u.amount ≡ t.amount)
      × (u.asset ≡ t.asset)
      × (u.sender_wallet_id ≡ t.sender_wallet_id)
      × (u.receiver_wallet_id ≡ t.receiver_wallet_id)
      × (u.metadata ≡ t.metadata)
      × (u.created_at ≡ t.created_at)
unfolding transition_transaction_status
transition_keeps t u to reason refs at e = ground arith
