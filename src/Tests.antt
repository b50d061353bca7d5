-- ===== src/Tests.antt =====
-- Examples: the theorems at concrete inputs.
mod Data
mod Endpoints
mod Users
mod ApiKeys
mod AuditLog
mod Auth
mod Balances
mod Common
mod Limits
mod NewPayments
mod Payments
mod RateLimit
mod Recovery
mod Transactions
mod Wallets
mod Webhooks
