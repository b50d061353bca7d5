-- ===== src/Transactions/Model.antt =====
-- src/transactions/domain/transaction.model.ts. Dates are milliseconds; `metadata` is its JSON text;
-- `null` and `undefined` are `none`.
pub mod Lifecycle
pub mod Runs
use mux_backend.Prelude.{ℕ, String, Bool, true, false, Option, none, some, if◌then◌else◌}
use mux_backend.Prelude.Http.{Result, ok, throw, internal_error}

pub data TransactionStatus : Type 0 where
  pending submitted confirmed failed : TransactionStatus

pub record TransactionAsset : Type 0 where
  pub asset_type : String
  pub code : Option String
  pub issuer : Option String

pub record StellarNetworkReferences : Type 0 where
  pub hash : Option String
  pub ledger : Option ℕ
  pub fee : Option String

-- `Partial<StellarNetworkReferences>`: a key that is absent is `none`.
pub record PartialReferences : Type 0 where
  pub hash : Option (Option String)
  pub ledger : Option (Option ℕ)
  pub fee : Option (Option String)

pub record Transaction : Type 0 where
  pub id : String
  pub amount : String
  pub asset : TransactionAsset
  pub sender_wallet_id : String
  pub receiver_wallet_id : Option String
  pub status : TransactionStatus
  pub stellar_refs : StellarNetworkReferences
  pub status_changed_at : ℕ
  pub status_reason : Option String
  pub submitted_at : Option ℕ
  pub confirmed_at : Option ℕ
  pub failed_at : Option ℕ
  pub metadata : Option String
  pub created_at : ℕ
  pub updated_at : ℕ

-- ALLOWED_TRANSITIONS, row by row.
unfoldable pub can_transition_transaction_status : TransactionStatus → TransactionStatus → Bool
can_transition_transaction_status pending submitted = true
can_transition_transaction_status pending failed = true
can_transition_transaction_status submitted confirmed = true
can_transition_transaction_status submitted failed = true
can_transition_transaction_status _ _ = false

-- `===` on two members of the enum.
abbrev pub same_status : TransactionStatus → TransactionStatus → Bool
same_status pending pending = true
same_status submitted submitted = true
same_status confirmed confirmed = true
same_status failed failed = true
same_status _ _ = false

-- One key of `{ ...old, ...patch }`.
abbrev pub spread {ℓ} : {A : Type ℓ} → A → Option A → A
spread old none = old
spread old (some new) = new

abbrev merge_refs : StellarNetworkReferences → Option PartialReferences → StellarNetworkReferences
merge_refs refs none = refs
merge_refs refs (some p) = record {
  hash = spread refs.hash p.hash;
  ledger = spread refs.ledger p.ledger;
  fee = spread refs.fee p.fee;
}

-- The updates that do not depend on the new status.
abbrev moved_to :
    Transaction → TransactionStatus → Option String → Option PartialReferences → ℕ → Transaction
moved_to t to reason refs at = record t {
  status = to;
  status_changed_at = at;
  updated_at = at;
  status_reason = spread t.status_reason (elim reason [ none ↦ none | some r ↦ some (some r) ]);
  stellar_refs = merge_refs t.stellar_refs refs;
}

-- The timestamp of the status that is entered.
abbrev stamp : TransactionStatus → ℕ → Transaction → Transaction
stamp pending at t = t
stamp submitted at t = record t { submitted_at = some at }
stamp confirmed at t = record t { confirmed_at = some at }
stamp failed at t = record t { failed_at = some at }

unfoldable pub transition_transaction_status :
    Transaction
    → TransactionStatus
    → Option String
    → Option PartialReferences
    → ℕ
    → Result Transaction
unfolding can_transition_transaction_status
transition_transaction_status t to reason refs at =
    if same_status t.status to
    then ok t
    else (if can_transition_transaction_status t.status to
        then ok (stamp to at (moved_to t to reason refs at))
        else throw internal_error)

-- `id || crypto.randomUUID()`: the identifier that the caller or the generator gives.
unfoldable pub create_transaction :
    String → String → TransactionAsset → String → Option String → Option String → ℕ → Transaction
create_transaction id amount asset sender receiver metadata at = record {
  id = id;
  amount = amount;
  asset = asset;
  sender_wallet_id = sender;
  receiver_wallet_id = receiver;
  status = pending;
  stellar_refs = record { hash = none; ledger = none; fee = none };
  status_changed_at = at;
  status_reason = none;
  submitted_at = none;
  confirmed_at = none;
  failed_at = none;
  metadata = metadata;
  created_at = at;
  updated_at = at;
}
