-- ===== src/BalanceIndexer/Sync.antt =====
-- src/balance-indexer/balance-indexer.service.ts, the synchronisation of a wallet with Horizon and its
-- retries. What Horizon answers and the clock are arguments; the rows of the jobs, metrics and log
-- lines are left out.
pub mod Retries
use mux_backend.Prelude.{
  ℕ, zero, suc, ◌+◌, String, Bool, true, false, ◌||◌, Option, none, some, List, [], ◌∷◌, ltb, leb,
  if◌then◌else◌,
}
use mux_backend.Prelude.Http.{
  Exception, bad_request, not_found, internal_error, Result, ok, throw, Handler,
}
use mux_backend.Prelude.Rows.{RowTable}
use mux_backend.BalanceIndexer.Index.{
  Asset, BalanceSyncStatus, synced, mismatch, BalanceUpdate, WalletBalance, balance_key, State,
  upsert_native_zero, mark_failed, apply_balance_update,
}

-- What is found for the account of a wallet. A call that fails says whether its message has the text
-- "not found"; it may come after the balance was set to zero, or after some of the updates.
pub data Account : Type 0 where
  unknown_wallet : Account
  not_on_chain : Account
  unreachable : Bool → Account
  holds : List BalanceUpdate → Account
  breaks_after_zero : Bool → Account
  breaks_after : List BalanceUpdate → Bool → Account

pub record SyncBalancesResult : Type 0 where
  pub wallet_id : String
  pub balances_updated : ℕ
  pub mismatches_found : ℕ
  pub sync_status : BalanceSyncStatus
  pub last_synced_at : ℕ

abbrev pub add_if : Bool → ℕ → ℕ
add_if true n = n + 1
add_if false n = n

-- The errors that are not retried: the statuses 400 and 404, and an error with the text "not found".
-- syncWalletBalances throws a plain Error that quotes the message of the one behind it, so that
-- `not_found` stands for an error with that text.
abbrev pub is_client_error : Exception → Bool
is_client_error not_found = true
is_client_error bad_request = true
is_client_error _ = false

module _ (B : RowTable (String × Asset) WalletBalance balance_key) where
  unfoldable pub apply_all : String → Bool → ℕ → List BalanceUpdate → State B → State B × ℕ × ℕ
  apply_all wallet force now [] s = (s, 0, 0)
  apply_all wallet force now (u ∷ us) s =
      let (s', a) = apply_balance_update B wallet u force now s in
      let (s'', updated, mismatches) = apply_all wallet force now us s' in
      (s'', add_if a.updated updated, add_if a.mismatch mismatches)

  abbrev pub status_of : ℕ → BalanceSyncStatus
  status_of mismatches = if ltb 0 mismatches then mismatch else synced

  unfoldable pub sync_wallet_balances :
      String → Bool → Account → ℕ → Handler (State B) SyncBalancesResult
  sync_wallet_balances wallet force unknown_wallet now s =
      (record s { rows = mark_failed B wallet now s.rows }, throw not_found)
  sync_wallet_balances wallet force (unreachable names_it) now s = (
    record s { rows = mark_failed B wallet now s.rows },
    throw (if names_it then not_found else internal_error),
  )
  sync_wallet_balances wallet force not_on_chain now s = (
    record s { rows = upsert_native_zero B wallet now s.rows },
    ok (record {
      wallet_id = wallet;
      balances_updated = 1;
      mismatches_found = 0;
      sync_status = synced;
      last_synced_at = now;
    }),
  )
  sync_wallet_balances wallet force (holds us) now s =
      let (s', updated, mismatches) = apply_all wallet force now us s in
      (
        s',
        ok (record {
          wallet_id = wallet;
          balances_updated = updated;
          mismatches_found = mismatches;
          sync_status = status_of mismatches;
          last_synced_at = now;
        }),
      )
  sync_wallet_balances wallet force (breaks_after_zero names_it) now s = (
    record s { rows = mark_failed B wallet now (upsert_native_zero B wallet now s.rows) },
    throw (if names_it then not_found else internal_error),
  )
  sync_wallet_balances wallet force (breaks_after us names_it) now s =
      let (s', updated, mismatches) = apply_all wallet force now us s in
      (
        record s' { rows = mark_failed B wallet now s'.rows },
        throw (if names_it then not_found else internal_error),
      )

  -- The end of an attempt; `rest` is the next one.
  abbrev pub settle :
      ℕ
      → ℕ
      → State B × Result SyncBalancesResult
      → Option (State B × Result SyncBalancesResult)
      → Option (State B × Result SyncBalancesResult)
  settle max_retries attempt (s, ok a) rest = some (s, ok a)
  settle max_retries attempt (s, throw e) rest =
      if is_client_error e || leb max_retries attempt then some (s, throw e) else rest

  -- The recursion on the attempt, with fuel; `account` is what Horizon answers to each attempt. None
  -- is that the fuel runs out.
  unfoldable pub sync_with_retry :
      ℕ
      → ℕ
      → String
      → Bool
      → (ℕ → Account)
      → ℕ
      → ℕ
      → State B
      → Option (State B × Result SyncBalancesResult)
  sync_with_retry zero max_retries wallet force account attempt now s = none
  sync_with_retry (suc fuel) max_retries wallet force account attempt now s =
      let x = sync_wallet_balances wallet force (account attempt) now s in
      let rest = sync_with_retry fuel max_retries wallet force account (attempt + 1) now x.0 in
      settle max_retries attempt x rest
