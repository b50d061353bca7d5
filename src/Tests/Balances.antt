-- ===== src/Tests/Balances.antt =====
-- Examples for the index of balances, with a table that is a function from its keys to its rows.
use mux_backend.Prelude.{
  ℕ, suc, ◌+◌, String, ◌≡◌, false, none, some, List, [], ◌∷◌, arith, ltb, if◌then◌else◌,
}
use mux_backend.Prelude.Http.{Result}
use mux_backend.Prelude.Rows.{RowTable, function_rows, no_rows}
use mux_backend.BalanceIndexer.Index.{
  Asset, WalletBalance, BalanceUpdate, BalanceChangeEvent, balance_key, native_asset, new_balance,
  State, index_balance_event,
}
use mux_backend.BalanceIndexer.Index.Events.{index_twice}
use mux_backend.BalanceIndexer.Index.Ledgers.{
  Request, indexes, syncs, run, IsIndexed, run-IsIndexed,
}
use mux_backend.BalanceIndexer.Sync.{
  Account, unreachable, holds, breaks_after, SyncBalancesResult, sync_with_retry,
}
use mux_backend.BalanceIndexer.Sync.Retries.{sync_with_retry-ends}
use mux_backend.Tests.Data.{string_discrete}

abbrev key_discrete : Discrete (String × Asset)
key_discrete = hlevel string_discrete

abbrev table : RowTable (String × Asset) WalletBalance balance_key
table = function_rows balance_key key_discrete

abbrev update : BalanceUpdate
update = record { asset = native_asset; balance = "10.5"; ledger_sequence = 7; timestamp = 70 }

abbrev start : State table
start = record {
  rows = table.put (no_rows balance_key key_discrete) (new_balance "w1" update 70);
  processed = [];
  announced = [];
}

abbrev event : BalanceChangeEvent
event = record {
  wallet_id = "w1";
  asset = native_asset;
  balance = "12";
  ledger_sequence = 9;
  timestamp = none;
  transaction_hash = "tx9";
}

abbrev older : BalanceChangeEvent
older = record event { balance = "11"; ledger_sequence = 6; transaction_hash = "tx6" }

index_twice_example :
    index_balance_event table event 95 (index_balance_event table event 90 start)
    ≡ index_balance_event table event 90 start
index_twice_example = index_twice table event 90 95 start

abbrev requests : List Request
requests =
    indexes event 90
    ∷ indexes older 91
    ∷ syncs "w1" (holds (update ∷ [])) 92
    ∷ syncs "w1" (unreachable false) 93
    ∷ syncs "w1" (breaks_after (update ∷ []) false) 94
    ∷ []

run-IsIndexed_example : IsIndexed table ("w1", native_asset) 7 (run table start requests).rows
unfolding string_discrete
run-IsIndexed_example =
    run-IsIndexed table start requests ("w1", native_asset) 7 key_discrete (omega arith)

-- Horizon does not answer before the third attempt.
abbrev answers : ℕ → Account
answers n = if ltb n 2 then unreachable false else holds (update ∷ [])

sync_with_retry-ends_example :
    (out : State table × Result SyncBalancesResult) × ((more : ℕ)
      → sync_with_retry table (suc (3 + more)) 3 "w1" false answers 0 99 start ≡ some out)
sync_with_retry-ends_example =
    sync_with_retry-ends table 3 3 "w1" false answers 0 99 start (omega arith)
