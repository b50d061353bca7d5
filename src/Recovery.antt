-- ===== src/Recovery.antt =====
-- src/recovery: requests to recover an account.
pub mod Model
pub mod Service
