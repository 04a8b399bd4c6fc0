-- ===== src/Rows.antt =====
-- The rows of one payment: packages/relaypay/payments/models.py and provider_operations/models.py.
-- Every query of the finalizer, of a dispatch and of a lookup is by the payment, by an operation of it
-- or by a key, so its rows, with the books of its environment, are the whole state. The unique
-- constraints on `payment_intent_id` make authorization, capture and void optional rows.
mod Kinds
mod Tables
mod State
pub use Kinds.*
pub use Tables.*
unfoldable pub use State.*
