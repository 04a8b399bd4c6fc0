-- ===== src/Commands/Expired.antt =====
-- The sweep and the commands: payments/expiry.py and payments/service.py.
use relaypay.Base.{ℕ, ◌≡◌, refl, ◌∙◌, inl, inr, Option, none, ok, arith}
use relaypay.Base.Int.{ℤ}
use relaypay.Payments.Status.{expired}
use relaypay.Payments.Transitions.{transition}
use relaypay.Rows.{World, Void, authorization_expired, expiry_worker}
use relaypay.Operations.Frame.{transition-SameResources}
use relaypay.Commands.{
  HttpResult, Request, Fresh, Setting, Command, RefundCreate, attach_key, insert_key,
  insert_operation, attach_existing, new_authorization, new_capture, new_void, authorize_payment,
  capture_payment, void_payment, refund_payment, initiate, initiate_authorization, initiate_capture,
  initiate_void, initiate_refund,
}
use relaypay.Commands.Recovering.{command-keeps}
use relaypay.Commands.Expiry.{expire_payment, expire_payment-cases}

-- An expired payment without a capture, and with the void `x`.
abbrev IsExpired : Option Void → World → Type 0
IsExpired x w = (w.payment.status ≡ expired) × (w.capture ≡ none) × (w.void ≡ x)

expire_payment-IsExpired :
    (now : ℕ) (snapshot w w' : World)
    → expire_payment now snapshot w ≡ ok (1, w')
    → IsExpired w'.void w'
unfolding transition
expire_payment-IsExpired now snapshot w w' h = elim (expire_payment-cases now 1 snapshot w w' h) [
  | inl (_, e) ↦ ground (arith, e)
  | inr (due, e) ↦ (
    ground (arith, e),
    (transition-SameResources w.payment expired authorization_expired expiry_worker w w' e).capture
        ∙ ground (arith, due),
    refl,
  )
]

authorize_payment-IsExpired :
    (x : Option Void) (hold : ℤ) (request : Request) (fresh : Fresh) (w v : World) (a : HttpResult)
    → authorize_payment hold request fresh w ≡ ok (a, v)
    → IsExpired x w
    → IsExpired x v
unfolding authorize_payment new_authorization attach_existing insert_operation attach_key insert_key
authorize_payment-IsExpired x hold request fresh w v a h (s, c, y) =
    (ground (arith, h, s), ground (arith, h, c), ground (arith, h, y))

capture_payment-IsExpired :
    (x : Option Void) (setting : Setting) (amount : Option ℤ) (request : Request) (fresh : Fresh)
    (w v : World) (a : HttpResult)
    → capture_payment setting amount request fresh w ≡ ok (a, v)
    → IsExpired x w
    → IsExpired x v
unfolding capture_payment new_capture attach_existing insert_operation attach_key insert_key
capture_payment-IsExpired x setting amount request fresh w v a h (s, c, y) =
    ground (arith, h, s, c, y)

void_payment-IsExpired :
    (x : Option Void) (request : Request) (fresh : Fresh) (w v : World) (a : HttpResult)
    → void_payment request fresh w ≡ ok (a, v)
    → IsExpired x w
    → IsExpired x v
unfolding void_payment new_void attach_existing insert_operation attach_key insert_key
void_payment-IsExpired x request fresh w v a h (s, c, y) =
    (ground (arith, h, s, c), ground (arith, h, s, c), ground (arith, h, s, c, y))

refund_payment-IsExpired :
    (x : Option Void) (payload : RefundCreate) (request : Request) (fresh : Fresh) (w v : World)
    (a : HttpResult)
    → refund_payment payload request fresh w ≡ ok (a, v)
    → IsExpired x w
    → IsExpired x v
unfolding refund_payment
refund_payment-IsExpired x payload request fresh w v a h (s, c, y) = ground (arith, h, c)

initiate-IsExpired :
    (x : Option Void) (setting : Setting) (c : Command) (request : Request) (fresh : Fresh)
    (w v : World) (a : HttpResult)
    → initiate setting c request fresh w w ≡ ok (a, v)
    → IsExpired x w
    → IsExpired x v
unfolding initiate initiate_authorization initiate_capture initiate_void initiate_refund
initiate-IsExpired x setting (Command.authorize hold) request fresh w v a h =
    command-keeps (IsExpired x) request w v (authorize_payment hold request fresh w) a
      (λ b u. authorize_payment-IsExpired x hold request fresh w u b) (ground (arith, h))
initiate-IsExpired x setting (Command.capture amount) request fresh w v a h =
    command-keeps (IsExpired x) request w v (capture_payment setting amount request fresh w) a
      (λ b u. capture_payment-IsExpired x setting amount request fresh w u b) h
initiate-IsExpired x setting Command.void request fresh w v a h =
    command-keeps (IsExpired x) request w v (void_payment request fresh w) a
      (λ b u. void_payment-IsExpired x request fresh w u b) h
initiate-IsExpired x setting (Command.refund payload) request fresh w v a h =
    command-keeps (IsExpired x) request w v (refund_payment payload request fresh w) a
      (λ b u. refund_payment-IsExpired x payload request fresh w u b) h

-- When the sweep has expired a payment, whatever command is then answered leaves the payment expired,
-- without a capture, and with the void it had, if any: a lapsed hold is neither captured nor
-- voided any more.
pub expire_then_initiate :
    (now : ℕ) (snapshot w w' v : World) (setting : Setting) (c : Command) (request : Request)
    (fresh : Fresh) (a : HttpResult)
    → expire_payment now snapshot w ≡ ok (1, w')
    → initiate setting c request fresh w' w' ≡ ok (a, v)
    → (v.payment.status ≡ expired) × (v.capture ≡ none) × (v.void ≡ w'.void)
expire_then_initiate now snapshot w w' v setting c request fresh a e h =
    initiate-IsExpired w'.void setting c request fresh w' v a h
      (expire_payment-IsExpired now snapshot w w' e)
