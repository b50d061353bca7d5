-- ===== src/Users.antt =====
-- src/users: the users of the service.
pub mod Idempotent
