-- ===== src/Commands/Orderly/Runs.antt =====
-- Any history of a payment: commands (payments/service.py), the sweep (payments/expiry.py) and the
-- transactions on its operations (those of Operations.Trace), in any order.
use relaypay.Base.{ℕ, ◌≡◌, inl, inr, Option, ok, arith, Option-cases}
use relaypay.Base.Int.{ℤ}
use relaypay.Payments.Status.{expired}
use relaypay.Rows.{World, find_operation, authorization_expired, expiry_worker}
use relaypay.Operations.Frame.{transition-SameResources, transition-SameTables}
use relaypay.Operations.Trace.{Step}
use relaypay.Commands.{
  HttpResult, Request, Fresh, Setting, Command, attach_existing, capture_amount, authorize_payment,
  capture_payment, void_payment, refund_payment, initiate, initiate_authorization, initiate_capture,
  initiate_void, initiate_refund,
}
use relaypay.Commands.Recovering.{command-keeps}
use relaypay.Commands.Expiry.{expire_payment, expire_payment-cases}
use relaypay.Commands.Orderly.Effects.{quiet, Effect-IsOrderly}
use relaypay.Commands.Orderly.Steps.{Step-IsOrderly}
use relaypay.Commands.Orderly.Inserts.{
  Kept, attach_key-Kept, new_authorization-Kept, new_capture-Kept, new_void-Kept,
}
use relaypay.Commands.Orderly.Refunds.{refund_payment-Kept}

attach_existing-Kept :
    (request : Request) (id public_id : ℕ) (w w' : World) (a : HttpResult)
    → attach_existing request id public_id w ≡ ok (a, w')
    → Kept w
    → Kept w'
unfolding attach_existing
attach_existing-Kept request id public_id w w' a h k = elim (Option-cases (find_operation id w)) [
  | inl n ↦ ground (arith, h, n)
  | inr (o, f) ↦ attach_key-Kept request o public_id w w' a (ground (arith, h, f)) k
]

authorize_payment-Kept :
    (hold : ℤ) (request : Request) (fresh : Fresh) (w w' : World) (a : HttpResult)
    → authorize_payment hold request fresh w ≡ ok (a, w')
    → Kept w
    → Kept w'
unfolding authorize_payment
authorize_payment-Kept hold request fresh w w' a h k = elim (Option-cases w.authorization) [
  | inl n ↦ new_authorization-Kept hold request fresh w w' a n (ground (arith, h, n)) k
  | inr (x, e) ↦
      attach_existing-Kept request x.provider_operation_id x.public_id w w' a (ground (arith, h, e))
        k
]

capture_payment-Kept :
    (setting : Setting) (requested : Option ℤ) (request : Request) (fresh : Fresh) (w w' : World)
    (a : HttpResult)
    → capture_payment setting requested request fresh w ≡ ok (a, w')
    → Kept w
    → Kept w'
unfolding capture_payment
capture_payment-Kept setting requested request fresh w w' a h k =
    elim (Option-cases w.authorization) [
      | inl n ↦ ground arith
      | inr (auth, f) ↦ elim (Option-cases w.capture) [
        | inl n ↦
            new_capture-Kept setting auth (capture_amount requested auth) request fresh w w' a f n
              (ground (arith, h, f)) (ground (arith, h, f)) (ground (arith, h, f, n)) k
        | inr (c, e) ↦
            attach_existing-Kept request c.provider_operation_id c.public_id w w' a
              (ground (arith, h, f, e)) k
      ]
    ]

void_payment-Kept :
    (request : Request) (fresh : Fresh) (w w' : World) (a : HttpResult)
    → void_payment request fresh w ≡ ok (a, w')
    → Kept w
    → Kept w'
unfolding void_payment
void_payment-Kept request fresh w w' a h k = elim (Option-cases w.void) [
  | inl n ↦ new_void-Kept request fresh w w' a (ground (arith, h, n)) k
  | inr (x, e) ↦
      attach_existing-Kept request x.provider_operation_id x.public_id w w' a (ground (arith, h, e))
        k
]

pub initiate-Kept :
    (setting : Setting) (c : Command) (request : Request) (fresh : Fresh) (w w' : World)
    (a : HttpResult)
    → initiate setting c request fresh w w ≡ ok (a, w')
    → Kept w
    → Kept w'
unfolding initiate initiate_authorization initiate_capture initiate_void initiate_refund
initiate-Kept setting (Command.authorize hold) request fresh w w' a h k =
    command-keeps Kept request w w' (authorize_payment hold request fresh w) a
      (λ b v. authorize_payment-Kept hold request fresh w v b) (ground (arith, h)) k
initiate-Kept setting (Command.capture amount) request fresh w w' a h k =
    command-keeps Kept request w w' (capture_payment setting amount request fresh w) a
      (λ b v. capture_payment-Kept setting amount request fresh w v b) h k
initiate-Kept setting Command.void request fresh w w' a h k =
    command-keeps Kept request w w' (void_payment request fresh w) a
      (λ b v. void_payment-Kept request fresh w v b) h k
initiate-Kept setting (Command.refund payload) request fresh w w' a h k =
    command-keeps Kept request w w' (refund_payment payload request fresh w) a
      (λ b v. refund_payment-Kept payload request fresh w v b) h k

expire_payment-Kept :
    (now n : ℕ) (snapshot w w' : World)
    → expire_payment now snapshot w ≡ ok (n, w')
    → Kept w
    → Kept w'
expire_payment-Kept now n snapshot w w' h (k, orderly) =
    elim (expire_payment-cases now n snapshot w w' h) [
      | inl (same, _) ↦ rw same (k, orderly)
      | inr (_, e) ↦
          let tables =
            (transition-SameTables w.payment expired authorization_expired expiry_worker w w'
              e).0.operations in
          (
            rw tables k,
            Effect-IsOrderly w w'
                (quiet
                  (transition-SameResources w.payment expired authorization_expired expiry_worker w
                    w' e)
                  tables)
                orderly,
          )
    ]

-- One transaction on the payment. A recovery from a lost race finds the state that the command did.
pub data Event : World → World → Type 0 where
  command :
      (setting : Setting) (c : Command) (request : Request) (fresh : Fresh) {w w' : World}
      (a : HttpResult)
      → initiate setting c request fresh w w ≡ ok (a, w')
      → Event w w'
  sweep :
      (now n : ℕ) (snapshot : World) {w w' : World}
      → expire_payment now snapshot w ≡ ok (n, w')
      → Event w w'
  transaction : {w w' : World} → Step w w' → Event w w'

pub data History : World → World → Type 0 where
  start : {w : World} → History w w
  next : {u v w : World} → History u v → Event v w → History u w

Event-Kept : {w w' : World} → Event w w' → Kept w → Kept w'
Event-Kept (command s c r f {w} {w'} a h) k = initiate-Kept s c r f w w' a h k
Event-Kept (sweep t n s {w} {w'} h) k = expire_payment-Kept t n s w w' h k
Event-Kept (transaction s) k = Step-IsOrderly s k

-- Whatever commands, sweeps over lapsed authorizations and transactions of a run (sends and their
-- answers, lookups, claims of leases, evidence of webhooks, finalizations, reviews and counts of failed
-- finalizations) take place on a payment, in any order and any number: a capture and a void that has
-- not failed never exist together, a capture is of a positive amount within the authorized one, and
-- the refunds that have not failed are covered by the captured amount; the operations and the
-- resources name each other, with one status; if all this was so at the start. The recovery of a lost
-- race finds the state that the command did.
pub History-Kept : {w w' : World} → History w w' → Kept w → Kept w'
History-Kept start k = k
History-Kept (next h e) k = Event-Kept e (History-Kept h k)
