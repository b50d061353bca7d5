-- ===== src/BalanceIndexer.antt =====
-- src/balance-indexer: the index of the balances that the wallets have on the chain.
pub mod Index
pub mod Sync
