-- ===== src/Payments/Transitions.antt =====
-- The single writer of the status: packages/relaypay/payments/transitions.py.
pub mod Chain
use relaypay.Base.{
  ◌+◌, none, some, [], ◌∷◌, ◌++◌, ◌||◌, not, Result, ok, ◌>>◌, raise_if, payment_state_stale,
  illegal_payment_transition, ◌==◌,
}
use relaypay.Payments.Status.{PaymentStatus, created, is_allowed, same_status}
use relaypay.Rows.{Payment, Actor, StatusReason, payment_created, World}

-- `record_creation` stamps a payment that has no history yet.
unfoldable pub record_creation : Actor → World → World
record_creation actor w = record w {
  payment = record w.payment { status = created; status_version = 0 };
  status_history =
      w.status_history
      ++ (record {
        from_status = none;
        to_status = created;
        reason = payment_created;
        actor = actor;
        status_version = 0;
      })
        ∷ [];
}

-- The writes of `transition`.
abbrev pub moved : PaymentStatus → StatusReason → Actor → World → World
moved to reason actor w = record w {
  payment = record w.payment { status = to; status_version = w.payment.status_version + 1 };
  status_history =
      w.status_history
      ++ (record {
        from_status = some w.payment.status;
        to_status = to;
        reason = reason;
        actor = actor;
        status_version = w.payment.status_version + 1;
      })
        ∷ [];
}

-- `seen` is the session's view of the payment; the row, read again under its lock, is `w.payment`.
unfoldable pub transition : Payment → PaymentStatus → StatusReason → Actor → World → Result World
transition seen to reason actor w = do
  raise_if
      (not (same_status w.payment.status seen.status)
        || not (w.payment.status_version == seen.status_version))
      payment_state_stale
  raise_if (not (is_allowed w.payment.status to)) illegal_payment_transition
  ok (moved to reason actor w)
