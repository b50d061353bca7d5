-- ===== src/RateLimit.antt =====
-- src/rate-limit and src/auth: fixed-window limits on requests, counted in the database.
pub mod Service
