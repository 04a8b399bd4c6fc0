-- ===== src/Payouts.antt =====
-- Payouts to a merchant's bank account: packages/relaypay/payouts.
mod Tables
mod Reserve
mod Create
mod Retry
mod Send
mod Settle
mod Bank
pub mod Solvent
pub mod Verified
mod Tests
unfoldable pub use Tables.*
unfoldable pub use Reserve.*
unfoldable pub use Create.*
unfoldable pub use Retry.*
unfoldable pub use Send.*
unfoldable pub use Settle.*
unfoldable pub use Bank.*
