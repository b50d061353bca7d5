-- ===== src/Transactions/Service/Updates.antt =====
-- The status update of a stored transaction (transactions.service.ts, updateStatus).
use mux_backend.Prelude.{
  ℕ, String, ◌≡◌, refl, ◌≢◌, inl, inr, true, false, Option, none, some, arith, Bool-cases,
  Option-cases,
}
use mux_backend.Prelude.Http.{bad_request, not_found, ok, throw}
use mux_backend.Prelude.Table.{IndexedTable}
use mux_backend.Common.Cache.{map_get}
use mux_backend.Common.Cache.Laws.{map_get-delete_self}
use mux_backend.Transactions.Model.{
  Transaction, PartialReferences, can_transition_transaction_status, transition_transaction_status,
}
use mux_backend.Transactions.Service.{
  TransactionRow, key_of, UpdateTransactionStatusDto, updated_row, status_event, State,
  update_status,
}

-- The transaction of the domain model that a row stands for.
abbrev pub to_model : TransactionRow → Transaction
to_model r = record {
  id = r.id;
  amount = r.amount;
  asset = r.asset;
  sender_wallet_id = r.sender_wallet_id;
  receiver_wallet_id = r.receiver_wallet_id;
  status = r.status;
  stellar_refs = record { hash = r.stellar_hash; ledger = r.stellar_ledger; fee = r.stellar_fee };
  status_changed_at = r.status_changed_at;
  status_reason = r.status_reason;
  submitted_at = r.submitted_at;
  confirmed_at = r.confirmed_at;
  failed_at = r.failed_at;
  metadata = r.metadata;
  created_at = r.created_at;
  updated_at = r.updated_at;
}

abbrev present {ℓ} : {A : Type ℓ} → Option A → Option (Option A)
present none = none
present (some a) = some (some a)

abbrev pub references : UpdateTransactionStatusDto → PartialReferences
references dto = record {
  hash = present dto.stellar_hash;
  ledger = present dto.stellar_ledger;
  fee = present dto.stellar_fee;
}

-- Where the status change is allowed, the row that the service writes is the one that the domain
-- model's own function prescribes.
pub updated_row-transition :
    (r : TransactionRow) (dto : UpdateTransactionStatusDto) (now : ℕ)
    → can_transition_transaction_status r.status dto.status ≡ true
    → transition_transaction_status
        (to_model r)
        dto.status
        dto.status_reason
        (some (references dto))
        now
      ≡ ok (to_model (updated_row r dto now))
unfolding transition_transaction_status updated_row
updated_row-transition r dto now h = ground arith

updated_row-status :
    (r : TransactionRow) (dto : UpdateTransactionStatusDto) (now : ℕ)
    → (updated_row r dto now).status ≡ dto.status
unfolding updated_row
updated_row-status r dto now = ground arith

module _ (T : IndexedTable String TransactionRow key_of) (same : Discrete String) where
  -- A stored transaction whose status may change to the wanted one is rewritten: the new row has
  -- that status, the cache entry is gone, an event is emitted, and every other row is as before.
  pub update_status_applied :
      (s : State T same) (id : String) (dto : UpdateTransactionStatusDto) (now : ℕ)
      (r : TransactionRow)
      → T.find s.rows id ≡ some r
      → can_transition_transaction_status r.status dto.status ≡ true
      → let (s', result) = update_status T same id dto now s in
        let u = updated_row r dto now in
        (result ≡ ok u)
        × (T.find s'.rows id ≡ some u)
        × (u.status ≡ dto.status)
        × (map_get same id s'.cache ≡ none)
        × (s'.outbox ≡ status_event u s.outbox)
        × ((j : String) → j ≢ id → T.find s'.rows j ≡ T.find s.rows j)
  unfolding update_status
  update_status_applied s id dto now r e h =
      rw (e, update_status)
        (rw h (
          refl,
          T.find-put s.rows id (updated_row r dto now),
          updated_row-status r dto now,
          map_get-delete_self same id s.cache,
          refl,
          λ j other. T.find-put_ne s.rows id j (updated_row r dto now) other,
        ))

  -- An update of a transaction that is not stored, or whose status may not change to the wanted
  -- one, throws and leaves rows, cache and events as they are.
  update_status_refused :
      (s : State T same) (id : String) (dto : UpdateTransactionStatusDto) (now : ℕ)
      → (T.find s.rows id ≡ none → update_status T same id dto now s ≡ (s, throw not_found))
        × ((r : TransactionRow)
            → T.find s.rows id ≡ some r
            → can_transition_transaction_status r.status dto.status ≡ false
            → update_status T same id dto now s ≡ (s, throw bad_request))
  unfolding update_status
  update_status_refused s id dto now = (λ e. ground arith, λ r e h. ground arith)

  pub update_status-rows_ne :
      (s : State T same) (id : String) (dto : UpdateTransactionStatusDto) (now : ℕ) (j : String)
      → j ≢ id
      → T.find (update_status T same id dto now s).0.rows j ≡ T.find s.rows j
  unfolding update_status
  update_status-rows_ne s id dto now j other = elim (Option-cases (T.find s.rows id)) [
    | inl gone ↦ rw (gone, update_status)
    | inr (r, stored) ↦ elim (Bool-cases (can_transition_transaction_status r.status dto.status)) [
      | inl allowed ↦ (update_status_applied s id dto now r stored allowed).5 j other
      | inr refused ↦ rw (stored, refused, update_status)
    ]
  ]
