-- ===== src/Transactions/Polling/NotFound.antt =====
-- A poll of a transaction that Horizon does not know yet (transaction-polling.service.ts).
use mux_backend.Prelude.{ℕ, ◌+◌, String, ◌≡◌, refl, some}
use mux_backend.Prelude.Http.{Result, ok, throw}
use mux_backend.Prelude.Table.{IndexedTable}
use mux_backend.Transactions.Model.{submitted, failed, can_transition_transaction_status}
use mux_backend.Transactions.Horizon.{
  HorizonTransactionResult, no_result, status_of_code, map_horizon_result_to_status,
}
use mux_backend.Transactions.Service.{
  TransactionRow, key_of, truthy, updated_row, State, update_status,
}
use mux_backend.Transactions.Service.Updates.{update_status_applied}
use mux_backend.Transactions.Polling.{
  Reply, error_status, PollingResult, poll_one, update_dto, after_update,
}

-- What queryHorizonTransaction returns for a 404, "a result that indicates SUBMITTED status".
abbrev not_found_answer : HorizonTransactionResult
not_found_answer = record no_result { result_code = some "tx_submitted" }

not_found_status : map_horizon_result_to_status not_found_answer ≡ failed
unfolding map_horizon_result_to_status status_of_code
not_found_status = refl

module _ (T : IndexedTable String TransactionRow key_of) (same : Discrete String) where
  after_update-ok :
      (u : State T same × Result TransactionRow) (n : PollingResult) (r : TransactionRow)
      → u.1 ≡ ok r
      → after_update T same failed u n ≡ (u.0, record n { failed_count = n.failed_count + 1 })
  after_update-ok (s, ok r') n r e = refl
  after_update-ok (s, throw x) n r e = cc

  -- When Horizon answers 404 for a submitted transaction, which it has not seen yet or is still
  -- processing, the poll marks the transaction failed and counts it as failed.
  pub poll_not_found :
      (horizon : String → Reply) (now : ℕ) (tx : TransactionRow) (hash : String) (s : State T same)
      (n : PollingResult)
      → truthy tx.stellar_hash ≡ some hash
      → horizon hash ≡ error_status 404
      → T.find s.rows tx.id ≡ some tx
      → tx.status ≡ submitted
      → let (s', m) = poll_one T same horizon now tx s n in
        ((row : TransactionRow) × (T.find s'.rows tx.id ≡ some row) × (row.status ≡ failed))
        × (m.failed_count ≡ n.failed_count + 1)
  unfolding poll_one can_transition_transaction_status
  poll_not_found horizon now tx hash s n h e stored status =
      let d = update_dto failed not_found_answer in
      let applied = update_status_applied T same s tx.id d now tx stored (rw status refl) in
      rw (h, e, poll_one, not_found_status)
        (rw (after_update-ok (update_status T same tx.id d now s) _ _ applied.0)
          ((updated_row tx d now, applied.1, applied.2), refl))
