-- ===== src/Transactions/Polling.antt =====
-- src/transactions/transaction-polling.service.ts: Horizon is asked for every submitted transaction,
-- and the answers are written back. What the HTTP client returns is an argument. The list of
-- transactions is what the database query returned; log lines and the texts of errors are left out,
-- and the timer, which runs one poll at a time, is not modelled.
pub mod Accounts
pub mod NotFound
use mux_backend.Prelude.{ℕ, ◌+◌, String, none, some, List, [], ◌∷◌, leb, ◌==◌, if◌then◌else◌}
use mux_backend.Prelude.Http.{bad_request, service_unavailable, Result, ok, throw}
use mux_backend.Prelude.Table.{IndexedTable}
use mux_backend.Transactions.Model.{TransactionStatus, submitted, confirmed, failed, same_status}
use mux_backend.Transactions.Horizon.{
  HorizonTransactionResult, no_result, map_horizon_result_to_status,
}
use mux_backend.Transactions.Service.{
  TransactionRow, key_of, UpdateTransactionStatusDto, truthy, State, update_status,
}

-- The outcome of a request of the HTTP client: a body, an error status, or no response at all.
pub data Reply : Type 0 where
  body : HorizonTransactionResult → Reply
  error_status : ℕ → Reply
  no_response : Reply

pub record PollingResult : Type 0 where
  pub processed : ℕ
  pub confirmed_count : ℕ
  pub failed_count : ℕ
  -- result.errors.length
  pub errors : ℕ

abbrev pub no_transactions : PollingResult
no_transactions = record { processed = 0; confirmed_count = 0; failed_count = 0; errors = 0 }

-- queryHorizonTransaction, from the reply to its request.
unfoldable pub query_horizon_transaction : Reply → Result HorizonTransactionResult
query_horizon_transaction (body r) = ok r
query_horizon_transaction no_response = throw service_unavailable
query_horizon_transaction (error_status n) =
    if n == 404
    then ok (record no_result { result_code = some "tx_submitted" })
    else (if leb 500 n then throw service_unavailable else throw bad_request)

abbrev pub update_dto : TransactionStatus → HorizonTransactionResult → UpdateTransactionStatusDto
update_dto status r = record {
  status = status;
  status_reason = none;
  stellar_hash = none;
  stellar_ledger = r.ledger;
  stellar_fee = r.fee_charged;
}

abbrev add_error : PollingResult → PollingResult
add_error n = record n { errors = n.errors + 1 }

abbrev add_status : TransactionStatus → PollingResult → PollingResult
add_status confirmed n = record n { confirmed_count = n.confirmed_count + 1 }
add_status failed n = record n { failed_count = n.failed_count + 1 }
add_status _ n = n

module _ (T : IndexedTable String TransactionRow key_of) (same : Discrete String) where
  abbrev pub after_update :
      TransactionStatus
      → State T same × Result TransactionRow
      → PollingResult
      → State T same × PollingResult
  after_update status (s, ok r) n = (s, add_status status n)
  after_update status (s, throw e) n = (s, add_error n)

  -- Only a status other than SUBMITTED is written.
  abbrev write_back :
      String
      → HorizonTransactionResult
      → ℕ
      → TransactionStatus
      → State T same
      → PollingResult
      → State T same × PollingResult
  write_back id r now status s n =
      if same_status status submitted
      then (s, n)
      else after_update status (update_status T same id (update_dto status r) now s) n

  abbrev answered :
      String
      → Result HorizonTransactionResult
      → ℕ
      → State T same
      → PollingResult
      → State T same × PollingResult
  answered id (throw e) now s n = (s, add_error n)
  answered id (ok r) now s n = write_back id r now (map_horizon_result_to_status r) s n

  -- One turn of the loop.
  unfoldable pub poll_one :
      (String → Reply)
      → ℕ
      → TransactionRow
      → State T same
      → PollingResult
      → State T same × PollingResult
  unfolding query_horizon_transaction
  poll_one horizon now tx s n =
      let m = record n { processed = n.processed + 1 } in
      elim (truthy tx.stellar_hash) [
        | none ↦ (s, add_error m)
        | some hash ↦ answered tx.id (query_horizon_transaction (horizon hash)) now s m
      ]

  unfoldable pub poll_all :
      (String → Reply)
      → ℕ
      → List TransactionRow
      → State T same
      → PollingResult
      → State T same × PollingResult
  poll_all horizon now [] s n = (s, n)
  poll_all horizon now (tx ∷ txs) s n =
      let (s', n') = poll_one horizon now tx s n in poll_all horizon now txs s' n'

  unfoldable pub poll_pending_transactions :
      (String → Reply) → ℕ → List TransactionRow → State T same → State T same × PollingResult
  unfolding poll_all
  poll_pending_transactions horizon now found s = poll_all horizon now found s no_transactions
