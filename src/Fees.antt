-- ===== src/Fees.antt =====
-- Platform fees (packages/relaypay/fees): the calculator, and the schedule versions that give it
-- its terms.
pub mod Calculator
pub mod Schedule
pub mod Split
pub mod Versions
mod Tests
