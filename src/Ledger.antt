-- ===== src/Ledger.antt =====
-- The double-entry ledger (packages/relaypay/ledger).
pub mod Books
pub mod Posting
pub mod Capture
pub mod Refund
pub mod Balances
pub mod Balanced
pub mod Reconciled
pub mod Sources
pub mod Keeps
pub mod Tests
