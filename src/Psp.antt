-- ===== src/Psp.antt =====
-- Webhooks of the payment service provider (packages/relaypay/psp).
pub mod Ordering
mod Tests
