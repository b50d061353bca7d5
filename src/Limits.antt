-- ===== src/Limits.antt =====
-- src/limits: the spending limits of a wallet.
pub mod Service
