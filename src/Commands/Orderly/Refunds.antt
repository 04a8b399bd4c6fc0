-- ===== src/Commands/Orderly/Refunds.antt =====
-- A refund keeps the resources in order: payments/service.py.
use mathlib.Core.Path.{subst}
use relaypay.Base.{
  ℕ, ◌≡◌, refl, sym, ap, ◌∙◌, ◌⊎◌, inl, inr, some, List, [], ◌∷◌, ◌++◌, map, false, All-append, ok,
  arith, find, any, ◌==◌, Bool-cases, Option-cases, if◌then◌else◌,
}
use relaypay.Base.Int.{ℤ, pos, ◌≤ℤ◌, ◌+ℤ◌, int_laws, +ℤ_assoc, fits_of_ltb}
use relaypay.Rows.{ResourceType, is_failed, Capture, Refund, World}
use relaypay.Operations.Resources.{refund}
use relaypay.Operations.Trace.Keys.{Keyed}
use relaypay.Commands.{
  HttpResult, Request, Fresh, RefundCreate, refund_payment, refund_row, reserved_sum,
}
use relaypay.Commands.Repeat.{find-refund_resource}
use relaypay.Commands.Splits.{refund_operation, operation_added, refund_payment-split}
use relaypay.Commands.Links.Keeps.{Placed, IsLinked-added}
use relaypay.Commands.Orderly.Inserts.{Kept, Keyed-append, operations-Keyed, attach_key-Kept}

find-refund-cases :
    (id : ℕ) (r y : Refund) (rs : List Refund)
    → find (λ x. x.id == id) (rs ++ r ∷ []) ≡ some y
    → (find (λ x. x.id == id) rs ≡ some y) ⊎ (y ≡ r) × (id ≡ r.id)
find-refund-cases id r y [] h = inr (ground arith)
find-refund-cases id r y (q ∷ qs) h = elim (Bool-cases (q.id == id)) [
  | inl e ↦ inl (ground (arith, h, e))
  | inr e ↦ elim (find-refund-cases id r y qs (ground (arith, h, e))) [
    | inl f ↦ inl (ground (arith, e, f))
    | inr f ↦ inr f
  ]
]

refund-Placed :
    (fresh : Fresh) (c : Capture) (amount : ℤ) (w : World)
    → Placed
        (refund_operation fresh)
        (refund (refund_row fresh c amount))
        w
        (record (operation_added (refund_operation fresh) w) {
          refunds = w.refunds ++ refund_row fresh c amount ∷ [];
        })
refund-Placed fresh c amount w ResourceType.authorization id x h = inr h
refund-Placed fresh c amount w ResourceType.capture id x h = inr h
refund-Placed fresh c amount w ResourceType.void id x h = inr h
refund-Placed fresh c amount w ResourceType.refund id x h =
    let row = refund_row fresh c amount in
    elim (Option-cases (find (λ r. r.id == id) (w.refunds ++ row ∷ []))) [
      | inl n ↦ ground (arith, h, n)
      | inr (y, e) ↦
          let same : x ≡ refund y = ground (arith, h, e) in
          elim (find-refund-cases id row y w.refunds e) [
            | inl f ↦ inr (find-refund_resource id y w f ∙ ap some (sym same))
            | inr (f, g) ↦ inl (refl, g, same ∙ ap refund f)
          ]
    ]

reserved_sum-append :
    (rs : List Refund) (r : Refund)
    → is_failed r.status ≡ false
    → reserved_sum (rs ++ r ∷ []) ≡ reserved_sum rs +ℤ r.amount
unfolding reserved_sum
reserved_sum-append [] r live = rw live (omega int_laws)
reserved_sum-append (q ∷ qs) r live =
    rw (reserved_sum-append qs r live)
      (+ℤ_assoc (if is_failed q.status then pos 0 else q.amount) (reserved_sum qs) r.amount)

refund_ids-append :
    (rs : List Refund) (r : Refund)
    → map (λ x. x.id) (rs ++ r ∷ []) ≡ map (λ x. x.id) rs ++ r.id ∷ []
refund_ids-append [] r = refl
refund_ids-append (q ∷ qs) r = ap (λ x. q.id ∷ x) (refund_ids-append qs r)

refund_ids-apart :
    (r : Refund) (rs : List Refund)
    → any (λ x. x.id == r.id) rs ≡ false
    → any (λ i. i == r.id) (map (λ x. x.id) rs) ≡ false
refund_ids-apart r [] h = refl
refund_ids-apart r (q ∷ qs) h = ground (arith, h, refund_ids-apart r qs)

refunds-Keyed :
    (r : Refund) (rs : List Refund)
    → any (λ x. x.id == r.id) rs ≡ false
    → Keyed (map (λ x. x.id) rs)
    → Keyed (map (λ x. x.id) (rs ++ r ∷ []))
refunds-Keyed r rs free k =
    subst Keyed (sym (refund_ids-append rs r))
      (Keyed-append (map (λ x. x.id) rs) r.id (refund_ids-apart r rs free) k)

pub refund_payment-Kept :
    (payload : RefundCreate) (request : Request) (fresh : Fresh) (w w' : World) (a : HttpResult)
    → refund_payment payload request fresh w ≡ ok (a, w')
    → Kept w
    → Kept w'
refund_payment-Kept payload request fresh w w' a h (k, orderly) =
    let (c, captured, done, enough, positive, unused, (free, attached)) =
      refund_payment-split payload request fresh w w' a h in
    let o = refund_operation fresh in
    let row = refund_row fresh c payload.amount in
    let v : World = record (operation_added o w) { refunds = w.refunds ++ row ∷ [] } in
    attach_key-Kept request o fresh.resource_id v w' a attached (
      operations-Keyed o w.operations free k,
      record {
        linked =
            IsLinked-added o (refund row) w v free refl refl refl refl
              (refund-Placed fresh c payload.amount w) orderly.linked;
        refund_ids = refunds-Keyed row w.refunds unused orderly.refund_ids;
        exclusive = orderly.exclusive;
        within = orderly.within;
        refundable = (
          All-append (λ r. pos 0 ≤ℤ r.amount) w.refunds (row ∷ []) orderly.refundable.0
              (ground (arith, positive), tt),
          rw (reserved_sum-append w.refunds row refl, captured, done)
              (fits_of_ltb c.amount (reserved_sum w.refunds) payload.amount enough),
        );
      },
    )
