-- ===== src/Commands/Repeat.antt =====
-- The key of every command answers as the command did: payments/service.py.
use relaypay.Base.{
  ℕ, ◌≡◌, refl, ap, inl, inr, Option, none, some, List, [], ◌∷◌, ◌++◌, false, ok, arith,
  Option-cases, any, find, ◌==◌, ==_refl,
}
use relaypay.Base.Int.{ℤ}
use relaypay.Operations.Finalizer.Twice.{find-resource_of}
use relaypay.Rows.{find-own_id, find_refund, ResourceType, Refund, World, Operation, find_operation}
use relaypay.Operations.Resources.{
  Resource, authorization, capture, void, refund, resource_public_id, find_resource,
}
use relaypay.Commands.{
  HttpResult, Request, Fresh, Setting, RefundCreate, attach_key, attach_existing,
  operation_collides, authorize_payment, capture_payment, void_payment, refund_payment,
  capture_amount, refund_row, authorization_row, capture_row, void_row,
}
use relaypay.Commands.Links.{IsLinked, operation_of}
use relaypay.Commands.Replay.{Replays, attach_key-Replays}
use relaypay.Commands.Splits.{
  operation_added, find-operation_append, authorize_operation, capture_operation, void_operation,
  refund_operation, new_authorization-split, new_capture-split, new_void-split,
  refund_payment-split,
}

-- The key that is attached to an operation that is there answers for it.
attached-Replays :
    (request : Request) (o : Operation) (r : Resource) (id : ℕ) (w w' : World) (a : HttpResult)
    → find_operation id w ≡ some o
    → find_resource o.resource_type o.resource_id w ≡ some r
    → attach_existing request id (resource_public_id r) w ≡ ok (a, w')
    → Replays request a w'
unfolding attach_existing
attached-Replays request o r id w w' a f g h =
    attach_key-Replays request o r (resource_public_id r) w w' a refl (find-own_id id w o f)
      (find-resource_of o w r g) (rw f at h)

attach_existing-Replays :
    (request : Request) (t : ResourceType) (id : ℕ) (r : Resource) (w w' : World) (a : HttpResult)
    → IsLinked w
    → find_resource t id w ≡ some r
    → attach_existing request (operation_of r) (resource_public_id r) w ≡ ok (a, w')
    → Replays request a w'
attach_existing-Replays request t id r w w' a linked f h =
    let (o, found, kind, row, _) = linked.forward t id r f in
    attached-Replays request o r (operation_of r) w w' a found (rw (kind, row) f) h

-- The key that is attached to a new operation answers for it.
new-Replays :
    (request : Request) (o : Operation) (r : Resource) (w v w' : World) (a : HttpResult)
    → any (operation_collides o) w.operations ≡ false
    → v.operations ≡ w.operations ++ o ∷ []
    → find_resource o.resource_type o.resource_id v ≡ some r
    → attach_key request o (resource_public_id r) v ≡ ok (a, w')
    → Replays request a w'
new-Replays request o r w v w' a free same f h =
    attach_key-Replays request o r (resource_public_id r) v w' a refl
      (rw same (find-operation_append o w.operations free)) (find-resource_of o v r f) h

find-refund_append :
    (id : ℕ) (r : Refund) (rs : List Refund)
    → any (λ x. x.id == id) rs ≡ false
    → r.id ≡ id
    → find (λ x. x.id == id) (rs ++ r ∷ []) ≡ some r
find-refund_append id r [] h e = ground arith
find-refund_append id r (x ∷ xs) h e = ground (arith, find-refund_append id r xs)

pub find-refund_resource :
    (id : ℕ) (r : Refund) (w : World)
    → find_refund id w ≡ some r
    → find_resource ResourceType.refund id w ≡ some (refund r)
find-refund_resource id r w h =
    ap {B = Option Resource} (λ o. elim o [ none ↦ none | some x ↦ some (refund x) ]) h

pub authorize_payment-Replays :
    (hold : ℤ) (request : Request) (fresh : Fresh) (w w' : World) (a : HttpResult)
    → IsLinked w
    → authorize_payment hold request fresh w ≡ ok (a, w')
    → Replays request a w'
unfolding authorize_payment
authorize_payment-Replays hold request fresh w w' a linked h = elim (Option-cases w.authorization) [
  | inl n ↦
      let (free, attached) =
        new_authorization-split hold request fresh w w' a (ground (arith, h, n)) in
      new-Replays request (authorize_operation fresh w)
        (authorization (authorization_row hold fresh w)) w _ w' a free refl
        (rw (==_refl fresh.resource_id) refl) attached
  | inr (x, e) ↦
      attach_existing-Replays request ResourceType.authorization x.id (authorization x) w w' a
        linked (rw (e, ==_refl x.id) refl) (ground (arith, h, e))
]

pub capture_payment-Replays :
    (setting : Setting) (requested : Option ℤ) (request : Request) (fresh : Fresh) (w w' : World)
    (a : HttpResult)
    → IsLinked w
    → capture_payment setting requested request fresh w ≡ ok (a, w')
    → Replays request a w'
unfolding capture_payment
capture_payment-Replays setting requested request fresh w w' a linked h =
    elim (Option-cases w.authorization) [
      | inl n ↦ ground arith
      | inr (auth, f) ↦ elim (Option-cases w.capture) [
        | inl n ↦
            let (fee, _, _, _, (free, attached)) =
              new_capture-split setting auth (capture_amount requested auth) request fresh w w' a
                (ground (arith, h, f, n)) in
            new-Replays request (capture_operation fresh w)
              (capture (capture_row fresh auth (capture_amount requested auth) fee)) w _ w' a free
              refl (rw (==_refl fresh.resource_id) refl) attached
        | inr (c, e) ↦
            attach_existing-Replays request ResourceType.capture c.id (capture c) w w' a linked
              (rw (e, ==_refl c.id) refl) (ground (arith, h, f, e))
      ]
    ]

pub void_payment-Replays :
    (request : Request) (fresh : Fresh) (w w' : World) (a : HttpResult)
    → IsLinked w
    → void_payment request fresh w ≡ ok (a, w')
    → Replays request a w'
unfolding void_payment
void_payment-Replays request fresh w w' a linked h = elim (Option-cases w.void) [
  | inl n ↦
      let (auth, _, _, (free, attached)) =
        new_void-split request fresh w w' a (ground (arith, h, n)) in
      new-Replays request (void_operation fresh w) (void (void_row fresh auth)) w _ w' a free refl
        (rw (==_refl fresh.resource_id) refl) attached
  | inr (x, e) ↦
      attach_existing-Replays request ResourceType.void x.id (void x) w w' a linked
        (rw (e, ==_refl x.id) refl) (ground (arith, h, e))
]

pub refund_payment-Replays :
    (payload : RefundCreate) (request : Request) (fresh : Fresh) (w w' : World) (a : HttpResult)
    → refund_payment payload request fresh w ≡ ok (a, w')
    → Replays request a w'
refund_payment-Replays payload request fresh w w' a h =
    let (c, _, _, _, _, unused, (free, attached)) =
      refund_payment-split payload request fresh w w' a h in
    let row = refund_row fresh c payload.amount in
    let v : World = record (operation_added (refund_operation fresh) w) {
      refunds = w.refunds ++ row ∷ [];
    } in
    new-Replays request (refund_operation fresh) (refund row) w v w' a free refl
      (find-refund_resource fresh.resource_id row v
        (find-refund_append fresh.resource_id row w.refunds unused refl))
      attached
