-- ===== src/Tests/Transactions/Data.antt =====
-- Transactions, requests and tables for the examples.
use mux_backend.Prelude.{String, true, false, none, some, []}
use mux_backend.Prelude.Table.{IndexedTable, function_indexed_table}
use mux_backend.Transactions.Model.{TransactionAsset, submitted}
use mux_backend.Transactions.Service.{
  TransactionRow, key_of, CreateTransactionDto, Environment, State,
}
use mux_backend.Tests.Data.{string_discrete}

abbrev pub asset : TransactionAsset
asset = record { asset_type = "native"; code = none; issuer = none }

abbrev pub table : IndexedTable String TransactionRow key_of
table = function_indexed_table string_discrete key_of

abbrev pub row : TransactionRow
row = record {
  id = "t1";
  amount = "5";
  asset = asset;
  sender_wallet_id = "w1";
  receiver_wallet_id = none;
  memo = none;
  status = submitted;
  stellar_hash = some "h1";
  stellar_ledger = none;
  stellar_fee = none;
  status_changed_at = 2;
  status_reason = none;
  submitted_at = some 2;
  confirmed_at = none;
  failed_at = none;
  metadata = none;
  idempotency_key = none;
  created_at = 1;
  updated_at = 2;
}

-- No transaction is stored.
abbrev pub empty : State table string_discrete
empty = record { rows = (λ k. none, λ q. none); cache = []; outbox = [] }

-- One transaction is stored, under every identifier.
abbrev pub filled : State table string_discrete
filled = record { rows = (λ k. some row, λ q. none); cache = []; outbox = [] }

-- Every wallet exists, and every balance covers every amount.
abbrev pub rich : Environment
rich = record { wallet_exists = λ w. true; balance = λ w a. some "100"; less = λ a b. false }

abbrev pub dto : CreateTransactionDto
dto = record {
  amount = "5";
  asset = asset;
  sender_wallet_id = "w1";
  receiver_wallet_id = none;
  memo = none;
  metadata = none;
  idempotency_key = some "q1";
}
