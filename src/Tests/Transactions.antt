-- ===== src/Tests/Transactions.antt =====
-- Examples for the service of the transactions and the answers of Horizon.
pub mod Data
mod Service
mod Polling
