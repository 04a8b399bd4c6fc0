-- ===== src/Operations.antt =====
-- Provider operations (packages/relaypay/provider_operations).
pub mod Resources
pub mod Frame
pub mod Validation
pub mod Finalizer
pub mod Service
pub mod Recovery
pub mod Trace
pub mod Dispatch
mod Tests
