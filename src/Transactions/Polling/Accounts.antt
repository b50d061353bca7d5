-- ===== src/Transactions/Polling/Accounts.antt =====
-- What a poll reports, and what it leaves alone (transaction-polling.service.ts).
use mux_backend.Prelude.{
  ℕ, ◌+◌, ◌≤◌, String, ◌≡◌, refl, ◌∙◌, ◌≢◌, ◌⊎◌, inl, inr, List, [], ◌∷◌, arith, Bool-cases,
  Option-cases, length,
}
use mux_backend.Prelude.Http.{Result, ok, throw, Result-cases}
use mux_backend.Transactions.Model.{TransactionStatus, submitted, same_status}
use mux_backend.Transactions.Horizon.{map_horizon_result_to_status}
use mux_backend.Prelude.Table.{IndexedTable}
use mux_backend.Transactions.Service.{
  TransactionRow, key_of, UpdateTransactionStatusDto, truthy, State, update_status,
}
use mux_backend.Transactions.Service.Updates.{update_status-rows_ne}
use mux_backend.Transactions.Polling.{
  Reply, PollingResult, no_transactions, poll_one, poll_all, poll_pending_transactions,
  after_update, update_dto, query_horizon_transaction,
}

-- No transaction of the list has the identifier j.
abbrev pub IsUnpolled : String → List TransactionRow → Type 0
IsUnpolled j [] = Unit {0}
IsUnpolled j (tx ∷ txs) = (j ≢ tx.id) × IsUnpolled j txs

module _ (T : IndexedTable String TransactionRow key_of) (same : Discrete String) where
  abbrev pub outcomes : PollingResult → ℕ
  outcomes n = n.confirmed_count + n.failed_count + n.errors

  poll_one-accounts :
      (horizon : String → Reply) (now : ℕ) (tx : TransactionRow) (s : State T same)
      (n : PollingResult)
      → let m = (poll_one T same horizon now tx s n).1 in
        (m.processed ≡ n.processed + 1) × (outcomes m ≤ outcomes n + 1)
  unfolding poll_one
  poll_one-accounts horizon now tx s n = ground arith

  poll_all-accounts :
      (horizon : String → Reply) (now : ℕ) (txs : List TransactionRow) (s : State T same)
      (n : PollingResult)
      → let m = (poll_all T same horizon now txs s n).1 in
        (m.processed ≡ n.processed + length txs) × (outcomes m ≤ outcomes n + length txs)
  unfolding poll_all
  poll_all-accounts horizon now [] s n = (omega arith, omega arith)
  poll_all-accounts horizon now (tx ∷ txs) s n =
      let (s', n') = poll_one T same horizon now tx s n in
      let one = poll_one-accounts horizon now tx s n in
      let rest = poll_all-accounts horizon now txs s' n' in (omega arith, omega arith)

  after_update-state :
      (status : TransactionStatus) (u : State T same × Result TransactionRow) (n : PollingResult)
      → (after_update T same status u n).0 ≡ u.0
  after_update-state status (s, ok r) n = refl
  after_update-state status (s, throw e) n = refl

  poll_one-state :
      (horizon : String → Reply) (now : ℕ) (tx : TransactionRow) (s : State T same)
      (n : PollingResult)
      → ((poll_one T same horizon now tx s n).0 ≡ s)
        ⊎ ((d : UpdateTransactionStatusDto) × ((poll_one T same horizon now tx s n).0
              ≡ (update_status T same tx.id d now s).0))
  unfolding poll_one
  poll_one-state horizon now tx s n = elim (Option-cases (truthy tx.stellar_hash)) [
    | inl unhashed ↦ inl (rw (unhashed, poll_one))
    | inr (hash, h) ↦ elim (Result-cases (query_horizon_transaction (horizon hash))) [
      | inr (e, bad) ↦ inl (rw (h, bad, poll_one))
      | inl (r, good) ↦ elim (Bool-cases (same_status (map_horizon_result_to_status r) submitted)) [
        | inl waiting ↦ inl (rw (h, good, waiting, poll_one))
        | inr settled ↦ inr (
          update_dto (map_horizon_result_to_status r) r,
          rw (h, good, settled, poll_one) (after_update-state _ _ _),
        )
      ]
    ]
  ]

  poll_one-rows_ne :
      (horizon : String → Reply) (now : ℕ) (tx : TransactionRow) (s : State T same)
      (n : PollingResult) (j : String)
      → j ≢ tx.id
      → T.find (poll_one T same horizon now tx s n).0.rows j ≡ T.find s.rows j
  poll_one-rows_ne horizon now tx s n j other = elim (poll_one-state horizon now tx s n) [
    | inl kept ↦ rw kept
    | inr (d, moved) ↦ rw moved (update_status-rows_ne T same s tx.id d now j other)
  ]

  poll_all-rows_ne :
      (horizon : String → Reply) (now : ℕ) (txs : List TransactionRow) (s : State T same)
      (n : PollingResult) (j : String)
      → IsUnpolled j txs
      → T.find (poll_all T same horizon now txs s n).0.rows j ≡ T.find s.rows j
  unfolding poll_all
  poll_all-rows_ne horizon now [] s n j u = refl
  poll_all-rows_ne horizon now (tx ∷ txs) s n j u =
      let (s', n') = poll_one T same horizon now tx s n in
      poll_all-rows_ne horizon now txs s' n' j u.1 ∙ poll_one-rows_ne horizon now tx s n j u.0

  -- A poll counts every transaction that it was given exactly once as processed, reports at most one
  -- outcome for each, and leaves the rows of all other transactions as they are.
  poll-accounts :
      (horizon : String → Reply) (now : ℕ) (txs : List TransactionRow) (s : State T same)
      → let (s', m) = poll_pending_transactions T same horizon now txs s in
        (m.processed ≡ length txs)
        × (m.confirmed_count + m.failed_count + m.errors ≤ m.processed)
        × ((j : String) → IsUnpolled j txs → T.find s'.rows j ≡ T.find s.rows j)
  unfolding poll_pending_transactions
  poll-accounts horizon now txs s =
      let h = poll_all-accounts horizon now txs s no_transactions in
      (omega arith, omega arith, poll_all-rows_ne horizon now txs s no_transactions)
