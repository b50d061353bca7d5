-- ===== src/Transactions/Horizon.antt =====
-- src/transactions/horizon-result.mapper.ts: the reading of an answer of Horizon.
pub mod Codes
use mux_backend.Prelude.{
  ℕ, String, Bool, false, ◌||◌, Option, none, some, List, [], ◌∷◌, str_eq, ◌==◌, if◌then◌else◌,
}
use mux_backend.Transactions.Model.{TransactionStatus, submitted, confirmed, failed}

pub record HorizonTransactionResult : Type 0 where
  pub hash : Option String
  pub ledger : Option ℕ
  pub fee_charged : Option String
  pub successful : Option Bool
  pub result_code : Option String
  pub http_status : Option ℕ
  -- extras?.result_codes?.transaction and extras?.result_codes?.operations
  pub extras_transaction : Option String
  pub extras_operations : Option (List String)

-- Every field absent.
abbrev pub no_result : HorizonTransactionResult
no_result = record {
  hash = none;
  ledger = none;
  fee_charged = none;
  successful = none;
  result_code = none;
  http_status = none;
  extras_transaction = none;
  extras_operations = none;
}

-- `a ?? b`
abbrev pub or_else {ℓ} : {A : Type ℓ} → Option A → A → A
or_else none b = b
or_else (some a) b = a

abbrev is_accepted : Option ℕ → Bool
is_accepted none = false
is_accepted (some n) = n == 202

abbrev is_true : Option Bool → Bool
is_true none = false
is_true (some b) = b

abbrev pub includes : List String → String → Bool
includes [] c = false
includes (d ∷ ds) c = str_eq d c || includes ds c

unfoldable pub is_insufficient_balance_result : HorizonTransactionResult → String → Bool
is_insufficient_balance_result r code =
    str_eq code "tx_insufficient_balance"
    || includes (or_else r.extras_operations []) "op_underfunded"

abbrev pub tx_code : HorizonTransactionResult → String
tx_code r = or_else r.result_code (or_else r.extras_transaction "")

-- The `switch`. The listed failures and the `default` return the same status.
unfoldable pub status_of_code : String → TransactionStatus
status_of_code code =
    if str_eq code "tx_success"
    then confirmed
    else (if str_eq code "tx_fee_bump_inner_success"
        then confirmed
        else (if str_eq code "tx_queued" then submitted else failed))

unfoldable pub map_horizon_result_to_status : HorizonTransactionResult → TransactionStatus
map_horizon_result_to_status r =
    if is_accepted r.http_status
    then submitted
    else (if is_true r.successful then confirmed else status_of_code (tx_code r))
