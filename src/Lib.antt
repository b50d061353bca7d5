-- ===== src/Lib.antt =====
-- Verification of the Mux backend, a NestJS service that holds Stellar wallets for its users,
-- creates and follows their transactions, and limits what an API key and a wallet may do.
--
-- The parts, the files of the repository, and the modules that model them:
-- - Prelude: shared names. Prelude.Http is the result of a request, a value or an exception, and the
--   handlers that change a state; a handler that throws keeps the changes made before. Prelude.Table
--   is one table of the database behind the generated Prisma client: find, put and remove with the
--   laws that Prisma documents, an interface that the services take as a parameter and that a
--   function from keys to rows fills; Prelude.Rows is one whose rows carry their key, with the searches,
--   updates and deletions of several rows. Prelude.Int has integers over the native numbers.
-- - Common.Cache: src/common/cache/cache.service.ts. The map is an association list.
-- - Common.Memo: src/common/stellar/memo.util.ts. A text is the list of its code points.
-- - Common.CircuitBreaker: src/common/utils/circuit-breaker.ts.
-- - Common.Retry: the loops retryWithBackoff of src/common/utils/retry.ts and of
--   src/key-management/utils/retry.util.ts, and execute of
--   src/transactions/transaction-retry.service.ts and src/wallets/wallet-retry.service.ts.
-- - RateLimit.Service: checkRateLimit of src/rate-limit/rate-limit.service.ts and of
--   src/auth/auth-rate-limit.service.ts. Each call of the database may throw.
-- - Limits.Service: src/limits/limits.service.ts, the limits of a wallet for a transaction and a day.
-- - Transactions.Model, Transactions.Horizon, Transactions.Service and Transactions.Polling:
--   src/transactions/domain/transaction.model.ts (the status machine), horizon-result.mapper.ts,
--   transactions.service.ts (create, findOne, updateStatus, with Common.Cache before the table) and
--   transaction-polling.service.ts, which maps the answers of Horizon and calls updateStatus.
-- - Recovery.Model and Recovery.Service: src/recovery/domain/recovery.model.ts, recovery.service.ts and
--   admin-recovery.service.ts, whose approval calls Wallets.Service.
-- - Wallets.Model: src/wallets/domain/wallet.model.ts. Wallets.Creation:
--   src/wallets/wallet-creation-orchestrator.service.ts, the creation in one transaction with its
--   idempotency record and the cached lookup. Wallets.Service: src/wallets/wallets.service.ts, whose
--   rotation calls KeyManagement.Rotation, rotateKey of
--   src/key-management/key-management.service.ts, on the same table of wallets. Whether that service
--   has its request context and its event emitter, which its constructor does not inject, is an
--   argument.
--   KeyManagement.AuditLog: the log of key operations of the same service.
-- - ApiKeys.Service: src/api-keys/api-key.service.ts and domain/api-key.model.ts. The table is keyed by
--   the hash of a key.
-- - Auth.RefreshTokens: src/auth/refresh-token.service.ts. The table is keyed by the hash of a token.
-- - Users.Idempotent: src/users/idempotent-user.service.ts. The table is keyed by authId, and what other
--   requests store between the search and the creation of a user is a list of rows.
-- - BalanceIndexer.Index: indexBalanceEvent and applyBalanceUpdate of
--   src/balance-indexer/balance-indexer.service.ts with balance.repository.ts and
--   domain/balance.model.ts; the client is taken to accept null in the key of a balance.
--   BalanceIndexer.Sync: syncWalletBalances and its retries.
-- - Payments.Creation and Payments.Service: create and update of
--   src/payments/payments.service.ts. What the services behind a creation answer is an argument.
-- - Webhooks.Delivery: processDeliveries, attemptDelivery and markDelivered of
--   src/webhooks/webhook-dispatcher.service.ts with src/webhooks/webhook-retry.service.ts: the attempts
--   on a delivery, and the failures of its endpoint.
-- - Webhooks.Endpoints: src/webhooks/webhook.service.ts, with Common.Cache before the table.
-- - Tests: the examples at concrete inputs.
--
-- A time is a number of milliseconds, and a function that reads the clock takes it as an argument.
-- An identifier that the database draws is an argument as well. The two loops with a bounded counter
-- recurse on the attempts that are left; `while (true)` of retry.util.ts is on fuel, of which it gets
-- one more than the greatest number of attempts, since each turn counts one; the retries of a
-- synchronisation are on fuel as well, one for each attempt. Numbers of
-- the limits are JavaScript numbers, whose arithmetic is a parameter, since their sums are rounded;
-- the amounts of transactions are the strings that the code keeps, compared by a parameter. Requests run one after the other: a row that changes between two
-- calls of one request is modelled in Users.Idempotent only. The generated Prisma client, cryptography, the Stellar SDK and
-- Horizon are parameters. Not modelled are log lines, metrics that nothing reads, timers, listings and
-- controllers, batches of payments, the signatures of webhooks, the login, the generation and use
-- of keys, the reconciliation of balances, and the services that build and submit transactions.
mod Prelude
pub mod ApiKeys
pub mod Auth
pub mod BalanceIndexer
pub mod Common
pub mod KeyManagement
pub mod Limits
pub mod Payments
pub mod RateLimit
pub mod Recovery
mod Tests
pub mod Transactions
pub mod Users
pub mod Wallets
pub mod Webhooks
