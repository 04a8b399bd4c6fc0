-- ===== src/Operations/Frame.antt =====
-- What the branches on the resource leave alone: provider_operations/finalizer.py.
use relaypay.Base.{◌≡◌, ok, arith}
use relaypay.Payments.Status.{PaymentStatus}
use relaypay.Payments.Transitions.{transition}
use relaypay.Rows.{
  World, Payment, Operation, StatusReason, Actor, Authorization, Capture, Void, Refund,
}
use relaypay.Operations.Resources.{
  Resource, authorization, capture, void, refund, Outcome, finalize_authorization, finalize_capture,
  finalize_void, finalize_refund, finalize_resource,
}

pub record SameTables (w w' : World) : Type 0 where
  pub operations : w'.operations ≡ w.operations
  pub attempts : w'.attempts ≡ w.attempts
  pub keys : w'.keys ≡ w.keys
  pub operation_history : w'.operation_history ≡ w.operation_history
  pub events : w'.events ≡ w.events
  pub payment_id : w'.payment.id ≡ w.payment.id
  pub payment_public_id : w'.payment.public_id ≡ w.payment.public_id

pub transition-SameTables :
    (seen : Payment) (to : PaymentStatus) (reason : StatusReason) (actor : Actor) (w w' : World)
    → transition seen to reason actor w ≡ ok w'
    → SameTables w w' × (w'.books ≡ w.books)
unfolding transition
transition-SameTables seen to reason actor w w' h = ground arith

authorization-SameTables :
    (o : Outcome) (a : Authorization) (w w' : World)
    → finalize_authorization o a w ≡ ok w'
    → SameTables w w'
unfolding finalize_authorization transition
authorization-SameTables o a w w' h = ground arith

capture-SameTables :
    (o : Outcome) (op : Operation) (c : Capture) (w w' : World)
    → finalize_capture o op c w ≡ ok w'
    → SameTables w w'
unfolding finalize_capture transition
capture-SameTables o op c w w' h = ground arith

void-SameTables :
    (o : Outcome) (v : Void) (w w' : World) → finalize_void o v w ≡ ok w' → SameTables w w'
unfolding finalize_void transition
void-SameTables o v w w' h = ground arith

refund-SameTables :
    (o : Outcome) (op : Operation) (r : Refund) (w w' : World)
    → finalize_refund o op r w ≡ ok w'
    → SameTables w w'
unfolding finalize_refund transition
refund-SameTables o op r w w' h = ground arith

pub finalize_resource-SameTables :
    (o : Outcome) (op : Operation) (r : Resource) (w w' : World)
    → finalize_resource o op r w ≡ ok w'
    → SameTables w w'
unfolding finalize_resource
finalize_resource-SameTables o op (authorization a) w w' h = authorization-SameTables o a w w' h
finalize_resource-SameTables o op (capture c) w w' h = capture-SameTables o op c w w' h
finalize_resource-SameTables o op (void v) w w' h = void-SameTables o v w w' h
finalize_resource-SameTables o op (refund r) w w' h = refund-SameTables o op r w w' h

pub record SameResources (w w' : World) : Type 0 where
  pub authorization : w'.authorization ≡ w.authorization
  pub capture : w'.capture ≡ w.capture
  pub void : w'.void ≡ w.void
  pub refunds : w'.refunds ≡ w.refunds

pub transition-SameResources :
    (seen : Payment) (to : PaymentStatus) (reason : StatusReason) (actor : Actor) (w w' : World)
    → transition seen to reason actor w ≡ ok w'
    → SameResources w w'
unfolding transition
transition-SameResources seen to reason actor w w' h = ground arith
