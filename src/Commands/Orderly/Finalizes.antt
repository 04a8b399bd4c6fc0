-- ===== src/Commands/Orderly/Finalizes.antt =====
-- What a finalization does to the resource: provider_operations/finalizer.py.
use relaypay.Base.{◌≡◌, refl, sym, ap, inl, inr, ok, arith, Bool-cases, Result-cases}
use relaypay.Ledger.Books.{Books}
use relaypay.Rows.{Authorization, Capture, Void, Refund, Operation, World, put_refund}
use relaypay.Operations.Frame.{SameResources, transition-SameResources}
use relaypay.Operations.Resources.{
  terminal_status, at_if, Resource, authorization, capture, void, refund, Outcome, capture_books,
  refund_books, finalize_authorization, finalize_capture, finalize_void, finalize_refund,
  finalize_resource,
}
use relaypay.Commands.Links.{status_of}
use relaypay.Commands.Orderly.Settled.{
  put_resource, SameRow, same_authorization, same_capture, same_void, same_refund,
}

-- The resource's row is given the terminal status, and no other row of a resource has changed.
abbrev pub Finalizes : Outcome → Resource → World → World → Type 0
Finalizes o r w v =
    (r' : Resource) × SameRow r r'
    × (status_of r' ≡ terminal_status o.succeeded)
    × SameResources (put_resource r' w) v

same_resources : (w v : World) → w ≡ v → SameResources w v
same_resources w v e = record {
  authorization = ap (λ x. x.authorization) (sym e);
  capture = ap (λ x. x.capture) (sym e);
  void = ap (λ x. x.void) (sym e);
  refunds = ap (λ x. x.refunds) (sym e);
}

finalize_authorization-Finalizes :
    (o : Outcome) (a : Authorization) (w v : World)
    → finalize_authorization o a w ≡ ok v
    → Finalizes o (authorization a) w v
unfolding finalize_authorization
finalize_authorization-Finalizes o a w v h = (
  authorization _,
  same_authorization refl refl refl,
  refl,
  transition-SameResources _ _ _ _ _ v h,
)

finalize_capture-Finalizes :
    (o : Outcome) (op : Operation) (c : Capture) (w v : World)
    → finalize_capture o op c w ≡ ok v
    → Finalizes o (capture c) w v
unfolding finalize_capture
finalize_capture-Finalizes o op c w v h = elim (Result-cases (capture_books o op c w)) [
  | inl ((j, books), e) ↦
      let s = transition-SameResources _ _ _ _ _ v (rw e at h) in
      (
        capture (record c {
          status = terminal_status o.succeeded;
          captured_at = at_if o.succeeded o.now;
          failure_code = o.failure_code;
          journal_id = j;
        }),
        same_capture refl refl refl,
        refl,
        record {
          authorization = s.authorization;
          capture = s.capture;
          void = s.void;
          refunds = s.refunds;
        },
      )
  | inr (x, e) ↦ ground arith
]

finalize_void-Finalizes :
    (o : Outcome) (x : Void) (w v : World) → finalize_void o x w ≡ ok v → Finalizes o (void x) w v
unfolding finalize_void
finalize_void-Finalizes o x w v h =
    let x' : Void = record x {
      status = terminal_status o.succeeded;
      voided_at = at_if o.succeeded o.now;
      failure_code = o.failure_code;
    } in
    elim (Bool-cases o.succeeded) [
      | inl s ↦ (
        void x',
        same_void refl refl refl,
        refl,
        rw s (transition-SameResources _ _ _ _ _ v (rw s at h)),
      )
      | inr s ↦ (
        void x',
        same_void refl refl refl,
        refl,
        same_resources (put_resource (void x') w) v (ground (arith, h, s)),
      )
    ]

-- The books are no resource.
abbrev refunds_and_books : Refund → Books → World → World
refunds_and_books x books w = record w { refunds = put_refund x w.refunds; books = books }

refund_rows :
    (x : Refund) (books : Books) (w v : World)
    → SameResources (refunds_and_books x books w) v
    → SameResources (put_resource (refund x) w) v
refund_rows x books w v s = record {
  authorization = s.authorization;
  capture = s.capture;
  void = s.void;
  refunds = s.refunds;
}

finalize_refund-Finalizes :
    (o : Outcome) (op : Operation) (x : Refund) (w v : World)
    → finalize_refund o op x w ≡ ok v
    → Finalizes o (refund x) w v
unfolding finalize_refund
finalize_refund-Finalizes o op x w v h = elim (Result-cases (refund_books o op x w)) [
  | inl ((j, books), e) ↦
      let x' : Refund = record x {
        status = terminal_status o.succeeded;
        refunded_at = at_if o.succeeded o.now;
        failure_code = o.failure_code;
        journal_id = j;
      } in
      elim (Bool-cases o.succeeded) [
        | inl s ↦ (
          refund x',
          same_refund refl refl refl,
          refl,
          refund_rows x' books w v
              (rw s (transition-SameResources _ _ _ _ _ v (rw s at (rw e at h)))),
        )
        | inr s ↦ (
          refund x',
          same_refund refl refl refl,
          refl,
          refund_rows x' books w v
              (same_resources (refunds_and_books x' books w) v (ground (arith, h, e, s))),
        )
      ]
  | inr (y, e) ↦ ground arith
]

pub finalize_resource-Finalizes :
    (o : Outcome) (op : Operation) (r : Resource) (w v : World)
    → finalize_resource o op r w ≡ ok v
    → Finalizes o r w v
unfolding finalize_resource
finalize_resource-Finalizes o op (authorization a) w v h =
    finalize_authorization-Finalizes o a w v h
finalize_resource-Finalizes o op (capture c) w v h = finalize_capture-Finalizes o op c w v h
finalize_resource-Finalizes o op (void x) w v h = finalize_void-Finalizes o x w v h
finalize_resource-Finalizes o op (refund x) w v h = finalize_refund-Finalizes o op x w v h
