-- ===== src/Operations/Service.antt =====
-- Sending, looking up and applying: packages/relaypay/provider_operations/service.py.
pub mod Sends
pub mod Records
pub mod Apply
pub mod Sending
pub mod Lookups
pub mod Evidence
