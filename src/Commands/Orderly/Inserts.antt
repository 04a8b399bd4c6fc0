-- ===== src/Commands/Orderly/Inserts.antt =====
-- Every command keeps the resources in order: payments/service.py.
use mathlib.Core.Path.{subst}
use mathlib.Core.Option.{none-ne-some}
use relaypay.Base.{
  ℕ, ◌≡◌, refl, sym, ap, ◌∙◌, inl, inr, none, some, List, [], ◌∷◌, ◌++◌, true, false, All-append,
  ok, arith, any, ◌==◌,
}
use relaypay.Base.Int.{ℤ, pos, ◌≤ℤ◌, ltb_ℤ, leb_ℤ}
use relaypay.Rows.{ResourceType, Authorization, Capture, World, Operation}
use relaypay.Operations.Resources.{authorization, capture, void}
use relaypay.Operations.Trace.Keys.{Keyed, ids}
use relaypay.Commands.{
  HttpResult, Request, Fresh, Setting, operation_collides, new_authorization, new_capture, new_void,
  authorization_row, capture_row, void_row, reserved_sum, attach_key,
}
use relaypay.Fees.Schedule.{CaptureFee}
use relaypay.Commands.Splits.{
  authorize_operation, capture_operation, void_operation, operation_added, new_authorization-split,
  new_capture-split, new_void-split,
}
use relaypay.Commands.Replay.{attach_key-split}
use relaypay.Commands.Links.Keeps.{Placed, IsLinked-added}
use relaypay.Commands.Orderly.{captured_amount, IsWithin, IsOrderly}
use relaypay.Commands.Orderly.Effects.{quiet, Effect-IsOrderly}

-- The resources are in order, and the operations have a primary key.
abbrev pub Kept : World → Type 0
Kept w = Keyed (ids w.operations) × IsOrderly w

pub Keyed-append :
    (is : List ℕ) (k : ℕ) → any (λ i. i == k) is ≡ false → Keyed is → Keyed (is ++ k ∷ [])
Keyed-append [] k h h' = (tt, tt)
Keyed-append (i ∷ is) k h h' = (
  All-append (λ x. (x == i) ≡ false) is (k ∷ []) h'.0 (ground (arith, h), tt),
  Keyed-append is k (ground (arith, h)) h'.1,
)

ids-append : (os : List Operation) (o : Operation) → ids (os ++ o ∷ []) ≡ ids os ++ o.id ∷ []
ids-append [] o = refl
ids-append (p ∷ ps) o = ap (λ x. p.id ∷ x) (ids-append ps o)

ids-apart :
    (o : Operation) (os : List Operation)
    → any (operation_collides o) os ≡ false
    → any (λ i. i == o.id) (ids os) ≡ false
ids-apart o [] h = refl
ids-apart o (p ∷ ps) h = ground (arith, h, ids-apart o ps)

pub operations-Keyed :
    (o : Operation) (os : List Operation)
    → any (operation_collides o) os ≡ false
    → Keyed (ids os)
    → Keyed (ids (os ++ o ∷ []))
operations-Keyed o os free k =
    subst Keyed (sym (ids-append os o)) (Keyed-append (ids os) o.id (ids-apart o os free) k)

-- A key is no resource.
pub attach_key-Kept :
    (request : Request) (o : Operation) (public_id : ℕ) (v w' : World) (a : HttpResult)
    → attach_key request o public_id v ≡ ok (a, w')
    → Kept v
    → Kept w'
attach_key-Kept request o public_id v w' a h (k, orderly) =
    let (_, _, same) = attach_key-split request o public_id v w' a h in
    (
      rw same k,
      Effect-IsOrderly v w'
          (quiet
            (record {
              authorization = ap (λ x. x.authorization) same;
              capture = ap (λ x. x.capture) same;
              void = ap (λ x. x.void) same;
              refunds = ap (λ x. x.refunds) same;
            })
            (ap (λ x. x.operations) same))
          orderly,
    )

authorization-Placed :
    (hold : ℤ) (fresh : Fresh) (w : World)
    → Placed
        (authorize_operation fresh w)
        (authorization (authorization_row hold fresh w))
        w
        (record (operation_added (authorize_operation fresh w) w) {
          authorization = some (authorization_row hold fresh w);
        })
authorization-Placed hold fresh w ResourceType.authorization id x h =
    inl (refl, ground arith, ground arith)
authorization-Placed hold fresh w ResourceType.capture id x h = inr h
authorization-Placed hold fresh w ResourceType.void id x h = inr h
authorization-Placed hold fresh w ResourceType.refund id x h = inr h

no_capture :
    (w : World) → IsWithin w → w.authorization ≡ none → (c : Capture) → w.capture ≡ some c → ⊥
no_capture w within absent c e =
    let (a, f, _, _) = within c e in elim (none-ne-some a (sym absent ∙ f)) [ ]

pub new_authorization-Kept :
    (hold : ℤ) (request : Request) (fresh : Fresh) (w w' : World) (a : HttpResult)
    → w.authorization ≡ none
    → new_authorization hold request fresh w ≡ ok (a, w')
    → Kept w
    → Kept w'
new_authorization-Kept hold request fresh w w' a absent h (k, orderly) =
    let (free, attached) = new_authorization-split hold request fresh w w' a h in
    let o = authorize_operation fresh w in
    let row = authorization_row hold fresh w in
    let v : World = record (operation_added o w) { authorization = some row } in
    attach_key-Kept request o fresh.resource_public_id v w' a attached (
      operations-Keyed o w.operations free k,
      record {
        linked =
            IsLinked-added o (authorization row) w v free refl refl refl refl
              (authorization-Placed hold fresh w) orderly.linked;
        refund_ids = orderly.refund_ids;
        exclusive = orderly.exclusive;
        within = λ c e. elim (no_capture w orderly.within absent c e) [ ];
        refundable = orderly.refundable;
      },
    )

capture-Placed :
    (fresh : Fresh) (auth : Authorization) (amount : ℤ) (fee : CaptureFee) (w : World)
    → Placed
        (capture_operation fresh w)
        (capture (capture_row fresh auth amount fee))
        w
        (record (operation_added (capture_operation fresh w) w) {
          capture = some (capture_row fresh auth amount fee);
        })
capture-Placed fresh auth amount fee w ResourceType.authorization id x h = inr h
capture-Placed fresh auth amount fee w ResourceType.capture id x h =
    inl (refl, ground arith, ground arith)
capture-Placed fresh auth amount fee w ResourceType.void id x h = inr h
capture-Placed fresh auth amount fee w ResourceType.refund id x h = inr h

pub new_capture-Kept :
    (setting : Setting) (auth : Authorization) (amount : ℤ) (request : Request) (fresh : Fresh)
    (w w' : World) (a : HttpResult)
    → w.authorization ≡ some auth
    → w.capture ≡ none
    → ltb_ℤ (pos 0) amount ≡ true
    → leb_ℤ amount auth.amount ≡ true
    → new_capture setting auth amount request fresh w ≡ ok (a, w')
    → Kept w
    → Kept w'
new_capture-Kept setting auth amount request fresh w w' a authorized absent more less h
      (k, orderly) =
    let (fee, closed, _, _, (free, attached)) =
      new_capture-split setting auth amount request fresh w w' a h in
    let o = capture_operation fresh w in
    let row = capture_row fresh auth amount fee in
    let v : World = record (operation_added o w) { capture = some row } in
    attach_key-Kept request o fresh.resource_public_id v w' a attached (
      operations-Keyed o w.operations free k,
      record {
        linked =
            IsLinked-added o (capture row) w v free refl refl refl refl
              (capture-Placed fresh auth amount fee w) orderly.linked;
        refund_ids = orderly.refund_ids;
        exclusive = λ c x e f. ground (arith, closed, f);
        within = λ c e.
            let same : amount ≡ c.amount = ground (arith, e) in
            (
              auth,
              authorized,
              rw (sym same) (ground (arith, less)),
              rw (sym same) (ground (arith, more)),
            );
        refundable = (
          orderly.refundable.0,
          subst (λ x. reserved_sum w.refunds ≤ℤ captured_amount x) absent orderly.refundable.1,
        );
      },
    )

void-Placed :
    (fresh : Fresh) (auth : Authorization) (w : World)
    → Placed
        (void_operation fresh w)
        (void (void_row fresh auth))
        w
        (record (operation_added (void_operation fresh w) w) { void = some (void_row fresh auth) })
void-Placed fresh auth w ResourceType.authorization id x h = inr h
void-Placed fresh auth w ResourceType.capture id x h = inr h
void-Placed fresh auth w ResourceType.void id x h = inl (refl, ground arith, ground arith)
void-Placed fresh auth w ResourceType.refund id x h = inr h

pub new_void-Kept :
    (request : Request) (fresh : Fresh) (w w' : World) (a : HttpResult)
    → new_void request fresh w ≡ ok (a, w')
    → Kept w
    → Kept w'
new_void-Kept request fresh w w' a h (k, orderly) =
    let (auth, _, absent, (free, attached)) = new_void-split request fresh w w' a h in
    let o = void_operation fresh w in
    let v : World = record (operation_added o w) { void = some (void_row fresh auth) } in
    attach_key-Kept request o fresh.resource_public_id v w' a attached (
      operations-Keyed o w.operations free k,
      record {
        linked =
            IsLinked-added o (void (void_row fresh auth)) w v free refl refl refl refl
              (void-Placed fresh auth w) orderly.linked;
        refund_ids = orderly.refund_ids;
        exclusive = λ c x e f. ground (arith, absent, e);
        within = orderly.within;
        refundable = orderly.refundable;
      },
    )
