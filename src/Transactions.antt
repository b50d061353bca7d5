-- ===== src/Transactions.antt =====
-- src/transactions: the life cycle of a Stellar transaction, its persistence behind a cache, the
-- reading of Horizon's answers, and the submission and polling that drive the life cycle.
pub mod Model
pub mod Horizon
pub mod Service
pub mod Polling
