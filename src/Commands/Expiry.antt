-- ===== src/Commands/Expiry.antt =====
-- The sweep over lapsed authorizations, for one payment: packages/relaypay/payments/expiry.py. The
-- payment's row is read under its lock, so it is that of `w`; the rows of its children are those of
-- the snapshot of the locking query, and are read again in `w`.
use relaypay.Base.{
  ℕ, ◌≡◌, ap, ◌∙◌, ◌⊎◌, inl, inr, none, some, Bool, true, false, not, ◌&&◌, ◌||◌, Result, ok, ◌>>=◌,
  if◌then◌else◌, is_some, is_at_most, arith, Bool-cases, Result-cases,
}
use relaypay.Payments.Status.{authorised, expired, same_status}
use relaypay.Payments.Transitions.{transition}
use relaypay.Rows.{is_succeeded, authorization_expired, expiry_worker, World}
use relaypay.Commands.{has_open_void}

-- `Authorization.status == "SUCCEEDED"` and `expires_at <= now()`
abbrev pub is_lapsed : ℕ → World → Bool
is_lapsed now w = elim w.authorization [
  | none ↦ false
  | some a ↦ is_succeeded a.status && is_at_most a.expires_at now
]

-- A capture, or a void that has not failed.
abbrev pub in_flight : World → Bool
in_flight w = is_some w.capture || has_open_void w

-- The WHERE clause of the locking query, and the test that is made again under the lock.
abbrev pub is_expirable : ℕ → World → World → Bool
is_expirable now snapshot w =
    same_status w.payment.status authorised
    && is_lapsed now snapshot
    && not (in_flight snapshot)
    && not (in_flight w)

-- The number of payments expired, 0 or 1.
unfoldable pub expire_payment : ℕ → World → World → Result (ℕ × World)
expire_payment now snapshot w =
    if is_expirable now snapshot w
    then (do w' ← transition w.payment expired authorization_expired expiry_worker w; ok (1, w'))
    else ok (0, w)

pub expire_payment-cases :
    (now n : ℕ) (snapshot w w' : World)
    → expire_payment now snapshot w ≡ ok (n, w')
    → (w' ≡ w) × (n ≡ 0)
      ⊎ (is_expirable now snapshot w ≡ true)
        × (transition w.payment expired authorization_expired expiry_worker w ≡ ok w')
unfolding expire_payment
expire_payment-cases now n snapshot w w' h = elim (Bool-cases (is_expirable now snapshot w)) [
  | inl e ↦
      elim (Result-cases (transition w.payment expired authorization_expired expiry_worker w)) [
        | inl (v, f) ↦ let same : v ≡ w' = ground (arith, h, e, f) in inr (e, f ∙ ap ok same)
        | inr (x, f) ↦ ground (arith, h, e, f)
      ]
  | inr e ↦ inl (ground (arith, h, e), ground (arith, h, e))
]
