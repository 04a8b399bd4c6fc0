-- ===== src/Commands/Orderly/Steps.antt =====
-- Every transaction on a payment's operations keeps the resources in order: service.py, finalizer.py.
use relaypay.Base.{
  ◌+◌, List, Bool, find, ◌==◌, Option-cases, some, ℕ, ◌≡◌, refl, inl, inr, ok, arith,
}
use relaypay.Rows.{World, Operation, Attempt}
use relaypay.Operations.Frame.{SameResources}
use relaypay.Operations.Service.Sends.{PreparedOperation, first_send, insert_attempt, find_public}
use relaypay.Operations.Service.Sending.{sent_row, first_send-split}
use relaypay.Operations.Recovery.{RecoveryClaim, leased, claim_specific_operation}
use relaypay.Operations.Trace.{
  Step, prepare, complete, look_up, claim_batch, claim_one, receive, finalize, mark, count_failure,
}
use relaypay.Operations.Trace.Keys.{Keyed, ids, Touched-Keyed, find-id_of_public}
use relaypay.Operations.Trace.Claims.{prepare_first_send-cases, Step-Touched}
use relaypay.Commands.Orderly.{IsOrderly}
use relaypay.Commands.Orderly.Effects.{
  Effect, quiet, leases, same_row, unchanged, Effect-IsOrderly, complete_mutation-Effect,
  record_lookup_observation-Effect,
}
use relaypay.Commands.Orderly.Reviews.{
  mark_operation_for_review-Effect, record_apply_failure-Effect,
}
use relaypay.Commands.Orderly.Applies.{finalize_verified_attempt-Effect}

first_send-SameResources :
    (o : Operation) (account now attempt : ℕ) (w w' : World) (p : PreparedOperation)
    → first_send o account now attempt w ≡ ok (p, w')
    → SameResources w w'
unfolding first_send insert_attempt
first_send-SameResources o account now attempt w w' p h = record {
  authorization = ground (arith, h);
  capture = ground (arith, h);
  void = ground (arith, h);
  refunds = ground (arith, h);
}

first_send-Effect :
    (public_id account now attempt : ℕ) (w w' : World) (p : PreparedOperation) (o : Operation)
    → Keyed (ids w.operations)
    → find_public public_id w ≡ some o
    → first_send o account now attempt w ≡ ok (p, w')
    → Effect w w'
first_send-Effect public_id account now attempt w w' p o k f h =
    let (request, _, rows) = first_send-split o account now attempt w w' p h in
    same_row o.id w w' o (sent_row o request now) (find-id_of_public public_id w.operations o k f)
      refl refl refl refl refl rows (first_send-SameResources o account now attempt w w' p h)

same_resources : (w : World) (os : List Operation) → SameResources w (record w { operations = os })
same_resources w os = record { authorization = refl; capture = refl; void = refl; refunds = refl }

claim_specific_operation-Effect :
    (public_id now seconds : ℕ) (in_review : Bool) (token : ℕ → ℕ) (w : World) (c : RecoveryClaim)
    (os : List Operation)
    → Keyed (ids w.operations)
    → claim_specific_operation public_id now seconds in_review token w.operations ≡ ok (c, os)
    → Effect w (record w { operations = os })
unfolding claim_specific_operation
claim_specific_operation-Effect public_id now seconds in_review token w c os k h =
    elim (Option-cases (find (λ o. o.public_id == public_id) w.operations)) [
      | inl n ↦ ground (arith, h, n)
      | inr (o, f) ↦
          same_row o.id w (record w { operations = os }) o (leased (token o.id) (now + seconds) o)
            (find-id_of_public public_id w.operations o k f) refl refl refl refl refl
            (ground (arith, h, f)) (same_resources w os)
    ]

receive-Effect : (a : Attempt) (w w' : World) → insert_attempt a w ≡ ok w' → Effect w w'
unfolding insert_attempt
receive-Effect a w w' h =
    quiet
      (record {
        authorization = ground (arith, h);
        capture = ground (arith, h);
        void = ground (arith, h);
        refunds = ground (arith, h);
      })
      (ground (arith, h))

Step-Effect : {w w' : World} → Keyed (ids w.operations) → Step w w' → Effect w w'
Step-Effect k (prepare i a n t {w} {w'} p h) = elim (prepare_first_send-cases i a n t w w' p h) [
  | inl (same, _) ↦ unchanged w w' same
  | inr (o, f, _, e) ↦ first_send-Effect i a n t w w' p o k f e
]
Step-Effect k (complete c i o x n {w} {w'} out h) = complete_mutation-Effect c i o x n w w' out h
Step-Effect k (look_up c i l o x m g n t {w} {w'} out h) =
    record_lookup_observation-Effect c i l o x m g n t w w' out h
Step-Effect k (claim_batch t e is {w}) = leases t e is refl (same_resources w _)
Step-Effect k (claim_one p n s r t {w} x os h) =
    claim_specific_operation-Effect p n s r t w x os k h
Step-Effect k (receive a {w} {w'} e h) = receive-Effect a w w' h
Step-Effect k (finalize i e a n j {w} {w'} r h) =
    finalize_verified_attempt-Effect i e a n j w w' r h
Step-Effect k (mark i r e a {w} {w'} h) = mark_operation_for_review-Effect i r e a w w' h
Step-Effect k (count_failure i e l n {w} {w'} h) = record_apply_failure-Effect i e l n w w' h

pub Step-IsOrderly :
    {w w' : World}
    → Step w w'
    → Keyed (ids w.operations) × IsOrderly w
    → Keyed (ids w'.operations) × IsOrderly w'
Step-IsOrderly {w} {w'} s (k, h) = (
  Touched-Keyed w.operations w'.operations (Step-Touched k s) k,
  Effect-IsOrderly w w' (Step-Effect k s) h,
)
