-- ===== src/Operations/Dispatch/Sent.antt =====
-- A dispatch and a recovery of an operation that was sent do the same: provider_operations/service.py.
use relaypay.Base.{◌>>=◌}
