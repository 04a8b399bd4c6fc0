-- ===== src/Payments.antt =====
-- Payments (packages/relaypay/payments).
pub mod Status
pub mod Transitions
pub mod Tests
