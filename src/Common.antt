-- ===== src/Common.antt =====
-- src/common: the parts that the services share.
pub mod Cache
pub mod Memo
pub mod CircuitBreaker
pub mod Retry
