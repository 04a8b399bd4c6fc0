-- ===== src/Payments/Status.antt =====
-- The persisted status machine: packages/relaypay/payments/transitions.py.
use relaypay.Base.{Bool, true, false}

pub data PaymentStatus : Type 0 where
  created requires_action authorised captured partially_refunded refunded : PaymentStatus
  failed expired cancelled : PaymentStatus

-- `(source, target) in ALLOWED`
abbrev pub is_allowed : PaymentStatus → PaymentStatus → Bool
is_allowed created requires_action = true
is_allowed created authorised = true
is_allowed created failed = true
is_allowed created cancelled = true
is_allowed requires_action authorised = true
is_allowed requires_action failed = true
is_allowed requires_action cancelled = true
is_allowed requires_action expired = true
is_allowed authorised captured = true
is_allowed authorised cancelled = true
is_allowed authorised expired = true
is_allowed authorised failed = true
is_allowed captured partially_refunded = true
is_allowed captured refunded = true
is_allowed partially_refunded partially_refunded = true
is_allowed partially_refunded refunded = true
is_allowed _ _ = false

abbrev pub same_status : PaymentStatus → PaymentStatus → Bool
same_status created created = true
same_status requires_action requires_action = true
same_status authorised authorised = true
same_status captured captured = true
same_status partially_refunded partially_refunded = true
same_status refunded refunded = true
same_status failed failed = true
same_status expired expired = true
same_status cancelled cancelled = true
same_status _ _ = false
