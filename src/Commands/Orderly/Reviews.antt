-- ===== src/Commands/Orderly/Reviews.antt =====
-- The transactions that set an operation and its resource aside for review: finalizer.py.
use mathlib.Core.Path.{subst}
use relaypay.Base.{
  ℕ, ◌+◌, ◌≡◌, refl, sym, ap, ◌∙◌, inl, inr, Option, none, some, false, ok, arith, Bool-cases,
  Option-cases, Result-cases, leb,
}
use relaypay.Rows.{
  requires_review, is_terminal, Actor, ReviewReason, apply_failure, Operation, World,
  find_operation, put_operation, find-own_id,
}
use relaypay.Operations.Frame.{SameResources}
use relaypay.Operations.Resources.{Resource, authorization, capture, void, refund, resource_of}
use relaypay.Operations.Finalizer.{
  review_resource, append_history, mark_operation_for_review, record_apply_failure,
}
use relaypay.Operations.Finalizer.Twice.{resource_of-find}
use relaypay.Commands.Links.{status_of}
use relaypay.Commands.Links.Keeps.{SameOperation}
use relaypay.Commands.Orderly.Settled.{
  put_resource, SameRow, same_authorization, same_capture, same_void, same_refund,
}
use relaypay.Commands.Orderly.Effects.{Effect, settled, same_row, unchanged}

abbrev reviewed : Resource → Resource
reviewed (authorization a) = authorization (record a { status = requires_review })
reviewed (capture c) = capture (record c { status = requires_review })
reviewed (void v) = void (record v { status = requires_review })
reviewed (refund r) = refund (record r { status = requires_review })

SameRow-reviewed : (r : Resource) → SameRow r (reviewed r)
SameRow-reviewed (authorization a) = same_authorization refl refl refl
SameRow-reviewed (capture c) = same_capture refl refl refl
SameRow-reviewed (void v) = same_void refl refl refl
SameRow-reviewed (refund r) = same_refund refl refl refl

status_of-reviewed : (r : Resource) → status_of (reviewed r) ≡ requires_review
status_of-reviewed (authorization a) = refl
status_of-reviewed (capture c) = refl
status_of-reviewed (void v) = refl
status_of-reviewed (refund r) = refl

-- The writes of a review.
abbrev review_writes :
    Operation → Operation → ReviewReason → Option ℕ → Actor → Resource → World → World
review_writes o o' reason evidence actor r w =
    append_history o reason evidence actor
      (review_resource r (record w { operations = put_operation o' w.operations }))

review_writes-rows :
    (o o' : Operation) (reason : ReviewReason) (evidence : Option ℕ) (actor : Actor) (r : Resource)
    (w : World)
    → SameResources (put_resource (reviewed r) w) (review_writes o o' reason evidence actor r w)
      × ((review_writes o o' reason evidence actor r w).operations ≡ put_operation o' w.operations)
review_writes-rows o o' reason evidence actor (authorization a) w =
    (record { authorization = refl; capture = refl; void = refl; refunds = refl }, refl)
review_writes-rows o o' reason evidence actor (capture c) w =
    (record { authorization = refl; capture = refl; void = refl; refunds = refl }, refl)
review_writes-rows o o' reason evidence actor (void v) w =
    (record { authorization = refl; capture = refl; void = refl; refunds = refl }, refl)
review_writes-rows o o' reason evidence actor (refund r) w =
    (record { authorization = refl; capture = refl; void = refl; refunds = refl }, refl)

review-Effect :
    (id : ℕ) (o o' : Operation) (reason : ReviewReason) (evidence : Option ℕ) (actor : Actor)
    (r : Resource) (w w' : World)
    → find_operation id w ≡ some o
    → resource_of o w ≡ ok r
    → is_terminal o.status ≡ false
    → SameOperation o o'
    → o'.status ≡ requires_review
    → w' ≡ review_writes o o' reason evidence actor r w
    → Effect w w'
review-Effect id o o' reason evidence actor r w w' f e live same status written =
    let (rows, table) = review_writes-rows o o' reason evidence actor r w in
    subst (Effect w) (sym written) (
      settled (record {
        operation = o;
        operation' = o';
        resource = r;
        resource' = reviewed r;
        identity = same;
        live = live;
        found = find-own_id id w o f;
        there = resource_of-find o w r e;
        row = SameRow-reviewed r;
        status = status_of-reviewed r ∙ sym status;
        written = table;
        rows = rows;
      }))

pub mark_operation_for_review-Effect :
    (id : ℕ) (reason : ReviewReason) (evidence : Option ℕ) (actor : Actor) (w w' : World)
    → mark_operation_for_review id reason evidence actor w ≡ ok w'
    → Effect w w'
unfolding mark_operation_for_review
mark_operation_for_review-Effect id reason evidence actor w w' h =
    elim (Option-cases (find_operation id w)) [
      | inl n ↦ ground arith
      | inr (o, f) ↦ elim (Result-cases (resource_of o w)) [
        | inl (r, e) ↦ elim (Bool-cases (is_terminal o.status)) [
          | inl t ↦ unchanged w w' (ground (arith, h, f, e, t))
          | inr t ↦
              review-Effect id o
                (record o {
                  status = requires_review;
                  review_reason = some reason;
                  next_lookup_at = none;
                  lookup_lease_token = none;
                  lookup_lease_expires_at = none;
                })
                reason evidence actor r w w' f e t
                (record { id = refl; resource_type = refl; resource_id = refl; kind = refl }) refl
                (ground (arith, h, f, e, t))
        ]
        | inr (x, e) ↦ ground (arith, h, f, e)
      ]
    ]

pub record_apply_failure-Effect :
    (id evidence limit count : ℕ) (w w' : World)
    → record_apply_failure id evidence limit w ≡ ok (count, w')
    → Effect w w'
unfolding record_apply_failure
record_apply_failure-Effect id evidence limit count w w' h =
    elim (Option-cases (find_operation id w)) [
      | inl n ↦ ground arith
      | inr (o, f) ↦ elim (Result-cases (resource_of o w)) [
        | inl (r, e) ↦ elim (Bool-cases (is_terminal o.status)) [
          | inl t ↦ unchanged w w' (ground (arith, h, f, e, t))
          | inr t ↦ elim (Bool-cases (leb limit (o.apply_failure_count + 1))) [
            | inl m ↦
                review-Effect id o
                  (record o {
                    apply_failure_count = o.apply_failure_count + 1;
                    status = requires_review;
                    review_reason = some apply_failure;
                    next_lookup_at = none;
                  })
                  apply_failure (some evidence) Actor.finalizer r w w' f e t
                  (record { id = refl; resource_type = refl; resource_id = refl; kind = refl }) refl
                  (ground (arith, h, f, e, t, m))
            | inr m ↦
                let same : w' ≡ record w {
                  operations =
                      put_operation (record o { apply_failure_count = o.apply_failure_count + 1 })
                        w.operations;
                } =
                  ground (arith, h, f, e, t, m) in
                same_row id w w' o (record o { apply_failure_count = o.apply_failure_count + 1 }) f
                  refl refl refl refl refl (ap (λ x. x.operations) same)
                  (record {
                    authorization = ap (λ x. x.authorization) same;
                    capture = ap (λ x. x.capture) same;
                    void = ap (λ x. x.void) same;
                    refunds = ap (λ x. x.refunds) same;
                  })
          ]
        ]
        | inr (x, e) ↦ ground (arith, h, f, e)
      ]
    ]
