-- ===== src/Commands/Orderly/Keeps.antt =====
-- Giving an operation and its resource a status keeps a payment's resources in order: finalizer.py.
use mathlib.Core.Path.{subst}
use relaypay.Base.{
  ℕ, ◌≡◌, refl, sym, ap, ◌∙◌, ◌⊎◌, inl, inr, some, List, [], ◌∷◌, map, false, All, All-find, arith,
  ◌==◌, Bool-cases,
}
use relaypay.Base.Int.{pos, ◌≤ℤ◌, ≤ℤ_refl}
use relaypay.Rows.{
  OperationStatus, ResourceType, is_terminal, is_succeeded, is_failed, Authorization, Capture, Void,
  Refund, World, Operation, find_operation, find_refund, put_operation, put_refund,
}
use relaypay.Operations.Frame.{SameResources}
use relaypay.Operations.Resources.{Resource, authorization, capture, void, refund, find_resource}
use relaypay.Operations.Trace.Keys.{Keyed}
use relaypay.Commands.{reserved_sum}
use relaypay.Commands.Links.{operation_of, status_of, find_resource-same}
use relaypay.Commands.Links.Keeps.{SameOperation}
use relaypay.Commands.Links.Settled.{at_place, linked-status, IsLinked-settled}
use relaypay.Commands.Orderly.{captured_amount, IsExclusive, IsWithin, IsRefundable, IsOrderly}
use relaypay.Commands.Orderly.Settled.{
  put_resource, type_of, id_of, SameRow, same_authorization, same_capture, same_void, same_refund,
  find_resource-place, put_resource-places, put_resource-found, reserved_sum-put_refund,
}

-- The row of `r` in the state.
abbrev IsAt : Resource → World → Type 0
IsAt r w = find_resource (type_of r) (id_of r) w ≡ some r

capture_at : (c : Capture) (w : World) → IsAt (capture c) w → w.capture ≡ some c
capture_at c w h = ground (arith, h)

void_at : (v : Void) (w : World) → IsAt (void v) w → w.void ≡ some v
void_at v w h = ground (arith, h)

authorization_at :
    (a : Authorization) (w : World) → IsAt (authorization a) w → w.authorization ≡ some a
authorization_at a w h = ground (arith, h)

refund_at : (r : Refund) (w : World) → IsAt (refund r) w → find_refund r.id w ≡ some r
refund_at r w h = ground (arith, h)

put-IsExclusive :
    {r r' : Resource} (w : World)
    → SameRow r r'
    → IsAt r w
    → is_terminal (status_of r) ≡ false
    → IsExclusive w
    → IsExclusive (put_resource r' w)
put-IsExclusive w (same_authorization i o m) at live h c v e f = h c v e f
put-IsExclusive w (same_capture {a} {b} i o m) at live h c v e f = h a v (capture_at a w at) f
put-IsExclusive w (same_void {a} {b} i o m) at live h c v e f =
    ground (arith, live, h c a e (void_at a w at))
put-IsExclusive w (same_refund i o m) at live h c v e f = h c v e f

put-IsWithin :
    {r r' : Resource} (w : World)
    → SameRow r r'
    → IsAt r w
    → IsWithin w
    → IsWithin (put_resource r' w)
put-IsWithin w (same_authorization {a} {b} i o m) at h c e =
    let (x, f, le, positive) = h c e in
    let same : x ≡ a = ground (arith, f, authorization_at a w at) in
    (b, refl, rw m (rw same at le), positive)
put-IsWithin w (same_capture {a} {b} i o m) at h c e =
    let (x, f, le, positive) = h a (capture_at a w at) in
    let same : c.amount ≡ a.amount = ground (arith, e, m) in (x, f, rw same le, rw same positive)
put-IsWithin w (same_void i o m) at h c e = h c e
put-IsWithin w (same_refund i o m) at h c e = h c e

amounts-put_refund :
    (r : Refund) (rs : List Refund)
    → pos 0 ≤ℤ r.amount
    → All (λ x. pos 0 ≤ℤ x.amount) rs
    → All (λ x. pos 0 ≤ℤ x.amount) (put_refund r rs)
unfolding put_refund
amounts-put_refund r [] p h = tt
amounts-put_refund r (s ∷ ss) p h = elim (Bool-cases (s.id == r.id)) [
  | inl e ↦ rw e (p, amounts-put_refund r ss p h.1)
  | inr e ↦ rw e (h.0, amounts-put_refund r ss p h.1)
]

ids-put_refund :
    (r : Refund) (rs : List Refund) → map (λ x. x.id) (put_refund r rs) ≡ map (λ x. x.id) rs
unfolding put_refund
ids-put_refund r [] = refl
ids-put_refund r (s ∷ ss) = elim (Bool-cases (s.id == r.id)) [
  | inl e ↦ rw (e, ids-put_refund r ss) (ground (arith, e))
  | inr e ↦ rw (e, ids-put_refund r ss) refl
]

put-Keyed :
    {r r' : Resource} (w : World)
    → SameRow r r'
    → Keyed (map (λ x. x.id) w.refunds)
    → Keyed (map (λ x. x.id) (put_resource r' w).refunds)
put-Keyed w (same_authorization i o m) h = h
put-Keyed w (same_capture i o m) h = h
put-Keyed w (same_void i o m) h = h
put-Keyed w (same_refund {a} {b} i o m) h = rw (ids-put_refund b w.refunds) h

not_succeeded : (c : Capture) → is_terminal c.status ≡ false → captured_amount (some c) ≡ pos 0
not_succeeded c h = ground (arith, h)

captured_amount_positive : (c : Capture) → pos 1 ≤ℤ c.amount → pos 0 ≤ℤ captured_amount (some c)
captured_amount_positive c p = elim (Bool-cases (is_succeeded c.status)) [
  | inl e ↦ rw e (omega (arith, p))
  | inr e ↦ rw e (≤ℤ_refl (pos 0))
]

not_failed : (s : OperationStatus) → is_terminal s ≡ false → is_failed s ≡ false
not_failed s h = ground (arith, h)

put-IsRefundable :
    {r r' : Resource} (w : World)
    → SameRow r r'
    → IsAt r w
    → is_terminal (status_of r) ≡ false
    → Keyed (map (λ x. x.id) w.refunds)
    → IsWithin w
    → IsRefundable w
    → IsRefundable (put_resource r' w)
put-IsRefundable w (same_authorization i o m) at live k within h = h
put-IsRefundable w (same_capture {a} {b} i o m) at live k within h =
    let (_, _, _, positive) = within a (capture_at a w at) in
    let before =
      subst (λ x. reserved_sum w.refunds ≤ℤ x)
        (ap captured_amount (capture_at a w at) ∙ not_succeeded a live) h.1 in
    (h.0, omega (arith, before, captured_amount_positive b (rw m positive)))
put-IsRefundable w (same_void i o m) at live k within h = h
put-IsRefundable w (same_refund {a} {b} i o m) at live k within h =
    let positive =
      All-find (λ x. pos 0 ≤ℤ x.amount) (λ x. x.id == a.id) w.refunds a (refund_at a w at) h.0 in
    (
      amounts-put_refund b w.refunds (rw m positive) h.0,
      omega (
        arith,
        h.1,
        reserved_sum-put_refund b a w.refunds k (refund_at a w at) i m (not_failed a.status live)
            positive,
      ),
    )

-- An operation that is not terminal and its resource are given one status, and nothing else of them
-- that the commands read has changed.
pub record Settles (w v : World) : Type 0 where
  pub operation : Operation
  pub operation' : Operation
  pub resource : Resource
  pub resource' : Resource
  pub identity : SameOperation operation operation'
  pub live : is_terminal operation.status ≡ false
  pub found : find_operation operation.id w ≡ some operation
  pub there : find_resource operation.resource_type operation.resource_id w ≡ some resource
  pub row : SameRow resource resource'
  pub status : status_of resource' ≡ operation'.status
  pub written : v.operations ≡ put_operation operation' w.operations
  pub rows : SameResources (put_resource resource' w) v

SameRow-operation :
    {r r' : Resource}
    → SameRow r r'
    → (type_of r' ≡ type_of r) × (id_of r' ≡ id_of r) × (operation_of r' ≡ operation_of r)
SameRow-operation (same_authorization i o m) = (refl, i, o)
SameRow-operation (same_capture i o m) = (refl, i, o)
SameRow-operation (same_void i o m) = (refl, i, o)
SameRow-operation (same_refund i o m) = (refl, i, o)

moved_place :
    {r r' : Resource} (o : Operation) (w : World) (t : ResourceType) (id : ℕ) (x : Resource)
    → o.resource_type ≡ type_of r
    → o.resource_id ≡ id_of r
    → SameRow r r'
    → (t ≡ type_of r') × (id ≡ id_of r') × (x ≡ r') ⊎ (find_resource t id w ≡ some x)
    → (t ≡ o.resource_type) × (id ≡ o.resource_id) × (x ≡ r') ⊎ (find_resource t id w ≡ some x)
moved_place o w t id x a b s (inl f) =
    let (t', i', _) = SameRow-operation s in inl (f.0 ∙ t' ∙ sym a, f.1 ∙ i' ∙ sym b, f.2)
moved_place o w t id x a b s (inr f) = inr f

pub Settles-IsOrderly : (w v : World) → Settles w v → IsOrderly w → IsOrderly v
Settles-IsOrderly w v s h =
    let o = s.operation in
    let r = s.resource in
    let r' = s.resource' in
    let u = put_resource r' w in
    let (t, i) = find_resource-place o.resource_type o.resource_id w r s.there in
    let (_, _, owner) = SameRow-operation s.row in
    let at : IsAt r w =
      at_place o.resource_type (type_of r) o.resource_id (id_of r) w r t i s.there in
    let live : is_terminal (status_of r) ≡ false =
      subst (λ z. is_terminal z ≡ false) (linked-status o r w h.linked s.found s.there) s.live in
    let after : find_resource o.resource_type o.resource_id u ≡ some r' =
      at_place (type_of r) o.resource_type (id_of r) o.resource_id u r' (sym t) (sym i)
        (put_resource-found r r' w s.row at) in
    let k = put-Keyed w s.row h.refund_ids in
    let e = put-IsExclusive w s.row at live h.exclusive in
    let b = put-IsWithin w s.row at h.within in
    let f = put-IsRefundable w s.row at live h.refund_ids h.within h.refundable in
    record {
      linked =
          IsLinked-settled o s.operation' r r' w v s.identity owner s.status s.found s.there
            (find_resource-same o.resource_type o.resource_id u v s.rows ∙ after) s.written
            (λ x id y g.
              moved_place o w x id y t i s.row
                (put_resource-places r' w x id y (sym (find_resource-same x id u v s.rows) ∙ g)))
            h.linked;
      refund_ids = rw s.rows.refunds k;
      exclusive = λ c x g g'. e c x (sym s.rows.capture ∙ g) (sym s.rows.void ∙ g');
      within = λ c g.
          let (a, g', le, positive) = b c (sym s.rows.capture ∙ g) in
          (a, s.rows.authorization ∙ g', le, positive);
      refundable = rw (s.rows.refunds, s.rows.capture) f;
    }
