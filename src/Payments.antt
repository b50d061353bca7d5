-- ===== src/Payments.antt =====
-- The payments (src/payments): their creation and their update.
pub mod Creation
pub mod Service
