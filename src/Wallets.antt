-- ===== src/Wallets.antt =====
-- The custodial wallets (src/wallets): the model of a wallet and its lifecycle, its table, its
-- creation and the service.
pub mod Model
pub mod Creation
pub mod Rows
pub mod Service
