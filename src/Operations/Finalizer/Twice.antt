-- ===== src/Operations/Finalizer/Twice.antt =====
-- The resource's row after a finalization, and a second call.
use mathlib.Core.Path.{subst}
use relaypay.Base.{
  ℕ, ◌≡◌, refl, sym, ◌∙◌, Option, some, List, [], ◌∷◌, Bool, true, false, ok, arith, ◌==◌, find,
  Result-cases, Bool-cases, inl, inr,
}
use relaypay.Ledger.Books.{Books}
use relaypay.Rows.{
  find-put_operation_self, find-operation_id, Attempt, find_refund, ResourceType, is_terminal,
  Actor, Authorization, Capture, Void, Operation, Refund, World, find_operation, put_refund,
}
use relaypay.Operations.Resources.{
  terminal_status, at_if, Resource, authorization, capture, void, refund, find_resource,
  resource_of, FinalizedResult, Outcome, finalize_authorization, finalize_capture, capture_books,
  refund_books, finalize_void, finalize_refund, finalize_resource,
}
use relaypay.Operations.Frame.{transition-SameResources, finalize_resource-SameTables}
use relaypay.Operations.Finalizer.{close, close_operation, response_of, finalize_verified_attempt}
use relaypay.Operations.Finalizer.Once.{finalize-split, finalize_open-split, finalize-terminal}

find-put_refund_self :
    (r : Refund) (id : ℕ) (rs : List Refund) (s : Refund)
    → r.id ≡ s.id
    → find (λ x. x.id == id) rs ≡ some s
    → find (λ x. x.id == id) (put_refund r rs) ≡ some r
unfolding put_refund
find-put_refund_self r id [] s e h = cc
find-put_refund_self r id (t ∷ ts) s e h = ground (arith, find-put_refund_self r id ts s)

-- The row is there after the writes, under the same id.
finalize_authorization-row :
    (o : Outcome) (a : Authorization) (w v : World)
    → finalize_authorization o a w ≡ ok v
    → (b : Authorization) × (v.authorization ≡ some b) × (b.id ≡ a.id)
unfolding finalize_authorization
finalize_authorization-row o a w v h =
    (_, (transition-SameResources _ _ _ _ _ v h).authorization, refl)

finalize_capture-row :
    (o : Outcome) (op : Operation) (c : Capture) (w v : World)
    → finalize_capture o op c w ≡ ok v
    → (b : Capture) × (v.capture ≡ some b) × (b.id ≡ c.id)
unfolding finalize_capture
finalize_capture-row o op c w v h = elim (Result-cases (capture_books o op c w)) [
  | inl ((j, books), e) ↦ (_, (transition-SameResources _ _ _ _ _ v (rw e at h)).capture, refl)
  | inr (x, e) ↦ ground arith
]

finalize_void-row :
    (o : Outcome) (x : Void) (w v : World)
    → finalize_void o x w ≡ ok v
    → (b : Void) × (v.void ≡ some b) × (b.id ≡ x.id)
unfolding finalize_void
finalize_void-row o x w v h = elim (Bool-cases o.succeeded) [
  | inl s ↦ (_, (transition-SameResources _ _ _ _ _ v (rw s at h)).void, refl)
  | inr s ↦ (
    record x {
      status = terminal_status o.succeeded;
      voided_at = at_if o.succeeded o.now;
      failure_code = o.failure_code;
    },
    ground arith,
    refl,
  )
]

abbrev settled_refund : Outcome → Refund → Option ℕ → Refund
settled_refund o x j = record x {
  status = terminal_status o.succeeded;
  refunded_at = at_if o.succeeded o.now;
  failure_code = o.failure_code;
  journal_id = j;
}

finalize_refund-refunds :
    (o : Outcome) (op : Operation) (x : Refund) (w v : World) (j : Option ℕ) (books : Books)
    → refund_books o op x w ≡ ok (j, books)
    → finalize_refund o op x w ≡ ok v
    → v.refunds ≡ put_refund (settled_refund o x j) w.refunds
unfolding finalize_refund
finalize_refund-refunds o op x w v j books e h = elim (Bool-cases o.succeeded) [
  | inl s ↦ rw s (transition-SameResources _ _ _ _ _ v (rw s at (rw e at h))).refunds
  | inr s ↦ ground arith
]

finalize_refund-row :
    (o : Outcome) (op : Operation) (x : Refund) (w v : World)
    → find_refund x.id w ≡ some x
    → finalize_refund o op x w ≡ ok v
    → (b : Refund) × (find_refund x.id v ≡ some b)
unfolding finalize_refund
finalize_refund-row o op x w v f h = elim (Result-cases (refund_books o op x w)) [
  | inl ((j, books), e) ↦ (
    settled_refund o x j,
    rw (finalize_refund-refunds o op x w v j books e h)
        (find-put_refund_self (settled_refund o x j) x.id w.refunds x refl f),
  )
  | inr (y, e) ↦ ground arith
]

pub find-refund_id :
    (id : ℕ) (rs : List Refund) (r : Refund) → find (λ x. x.id == id) rs ≡ some r → r.id ≡ id
find-refund_id id [] r h = cc
find-refund_id id (s ∷ ss) r h = ground (arith, find-refund_id id ss r)

finalize_resource-found :
    (o : Outcome) (op : Operation) (t : ResourceType) (id : ℕ) (r : Resource) (w v : World)
    → find_resource t id w ≡ some r
    → finalize_resource o op r w ≡ ok v
    → (s : Resource) × (find_resource t id v ≡ some s)
unfolding finalize_resource
finalize_resource-found o op ResourceType.authorization id (authorization a) w v f h =
    let (b, at, same) = finalize_authorization-row o a w v h in (authorization b, ground arith)
finalize_resource-found o op ResourceType.capture id (capture c) w v f h =
    let (b, at, same) = finalize_capture-row o op c w v h in (capture b, ground arith)
finalize_resource-found o op ResourceType.void id (void x) w v f h =
    let (b, at, same) = finalize_void-row o x w v h in (void b, ground arith)
finalize_resource-found o op ResourceType.refund id (refund x) w v f h =
    let listed : find_refund id w ≡ some x = ground arith in
    let named = find-refund_id id w.refunds x listed in
    let (b, at) =
      finalize_refund-row o op x w v (subst (λ k. find_refund k w ≡ some x) (sym named) listed) h in
    let kept : find_refund id v ≡ some b = subst (λ k. find_refund k v ≡ some b) named at in
    (refund b, ground arith)
finalize_resource-found o op t id r w v f h = ground arith

find_resource-close :
    (t : ResourceType) (id : ℕ) (o : Outcome) (op : Operation) (r : Resource) (a : Attempt)
    (v : World)
    → find_resource t id (close o op r a v) ≡ find_resource t id v
find_resource-close ResourceType.authorization id o op r a v = refl
find_resource-close ResourceType.capture id o op r a v = refl
find_resource-close ResourceType.void id o op r a v = refl
find_resource-close ResourceType.refund id o op r a v = refl

pub resource_of-find :
    (op : Operation) (w : World) (r : Resource)
    → resource_of op w ≡ ok r
    → find_resource op.resource_type op.resource_id w ≡ some r
unfolding resource_of
resource_of-find op w r h = ground arith

pub find-resource_of :
    (op : Operation) (w : World) (r : Resource)
    → find_resource op.resource_type op.resource_id w ≡ some r
    → resource_of op w ≡ ok r
unfolding resource_of
find-resource_of op w r h = ground arith

terminal_of : (b : Bool) → is_terminal (terminal_status b) ≡ true
terminal_of true = refl
terminal_of false = refl

-- The state after the writes of `close` answers every later call from the stored response.
close-finalized :
    (o : Outcome) (operation : Operation) (resource : Resource) (attempt : Attempt) (w v w' : World)
    (result : FinalizedResult) (evidence : ℕ) (actor : Actor) (now journal : ℕ)
    → find_operation operation.id w ≡ some operation
    → resource_of operation w ≡ ok resource
    → finalize_resource o operation resource w ≡ ok v
    → result ≡ record { response = response_of o operation resource v; already_finalized = false }
    → w' ≡ close o operation resource attempt v
    → finalize_verified_attempt operation.id evidence actor now journal w'
      ≡ ok (record { response = result.response; already_finalized = true }, w')
close-finalized o operation resource attempt w v w' result evidence actor now journal found row done
      r e =
    let closed = close_operation o (response_of o operation resource v) operation in
    let (s, kept) =
      finalize_resource-found o operation operation.resource_type operation.resource_id resource w v
        (resource_of-find operation w resource row) done in
    let stored : find_operation operation.id (close o operation resource attempt v) ≡ some closed =
      rw ((finalize_resource-SameTables o operation resource w v done).operations)
        (find-put_operation_self closed w.operations operation found) in
    rw (e, r)
      (finalize-terminal operation.id evidence actor now journal
        (close o operation resource attempt v) closed s (response_of o operation resource v) stored
        (find-resource_of closed (close o operation resource attempt v) s (
          find_resource-close operation.resource_type operation.resource_id o operation resource
            attempt v
          ∙ kept))
        (terminal_of o.succeeded) refl)

-- An operation that was finalized is finalized for good: a further call, on whatever evidence, by
-- whichever actor and at whatever time, writes nothing and returns the response of the first.
pub finalize_twice :
    (id evidence evidence' : ℕ) (actor actor' : Actor) (now now' journal journal' : ℕ)
    (w w' : World) (result : FinalizedResult) (operation : Operation)
    → find_operation id w ≡ some operation
    → is_terminal operation.status ≡ false
    → finalize_verified_attempt id evidence actor now journal w ≡ ok (result, w')
    → finalize_verified_attempt id evidence' actor' now' journal' w'
      ≡ ok (record { response = result.response; already_finalized = true }, w')
finalize_twice id evidence evidence' actor actor' now now' journal journal' w w' result operation
      found live h =
    let (resource, row, opened) =
      finalize-split id evidence actor now journal w w' result operation found live h in
    let (attempt, o, v, _, done, r, e) =
      finalize_open-split operation resource evidence actor now journal w w' result opened in
    let named = find-operation_id id w.operations operation found in
    subst
      (λ k.
        finalize_verified_attempt k evidence' actor' now' journal' w'
        ≡ ok (record { response = result.response; already_finalized = true }, w'))
      named
      (close-finalized o operation resource attempt w v w' result evidence' actor' now' journal'
        (subst (λ k. find_operation k w ≡ some operation) (sym named) found) row done r e)
