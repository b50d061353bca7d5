-- ===== src/ApiKeys.antt =====
-- src/api-keys: the keys of the API.
pub mod Service
