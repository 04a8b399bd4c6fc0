-- ===== src/Commands.antt =====
-- The merchant's commands on a payment, under idempotency keys: packages/relaypay/payments/service.py.
mod Requests
mod Initiate
mod Reverse
mod Any
pub mod Links
pub mod Orderly
pub mod Expiry
pub mod Expired
mod Tests
pub mod Splits
pub mod Replay
pub mod Repeat
pub mod Recovering
pub mod Again
pub mod Finalized
unfoldable pub use Requests.*
unfoldable pub use Initiate.*
unfoldable pub use Reverse.*
unfoldable pub use Any.*
