-- ===== src/Auth.antt =====
-- src/auth: the refresh tokens of a session.
pub mod RefreshTokens
