-- ===== src/KeyManagement.antt =====
-- src/key-management: the rotation of a wallet's key, the log of key operations and the checks on
-- encoded keys.
pub mod AuditLog
pub mod Rotation
