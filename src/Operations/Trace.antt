-- ===== src/Operations/Trace.antt =====
-- Any interleaving of the transactions on a payment's operations: provider_operations/service.py,
-- finalizer.py and recovery.py, and the evidence of psp/applier.py. Each step is one transaction, by
-- any process, at any time.
pub mod Keys
pub mod Rows
pub mod Claims
pub mod Later
use mathlib.Core.Path.{subst}
use relaypay.Base.{
  ℕ, ◌≡◌, refl, sym, Option, none, some, ok, arith, Option-cases, Bool-cases, inl, inr, List, Bool,
}
use relaypay.Rows.{
  is_terminal, Actor, ReviewReason, World, Operation, Attempt, webhook_evidence, find_operation,
}
use relaypay.Operations.Resources.{Resource, authorization, capture, void, refund, FinalizedResult}
use relaypay.Operations.Finalizer.{
  review_resource, finalize_verified_attempt, mark_operation_for_review, record_apply_failure,
}
use relaypay.Operations.Finalizer.Effects.{
  IsSound, IsCoherent, finalize_verified_attempt-IsCoherent,
}
use relaypay.Operations.Validation.{ProviderObservation, Codec, ClassifiedProviderResult}
use relaypay.Operations.Service.Sends.{
  PreparedOperation, insert_attempt, first_send, prepare_first_send,
}
use relaypay.Operations.Service.Records.{
  RecordedOutcome, complete_mutation, record_open_lookup, record_lookup_observation,
}
use relaypay.Operations.Recovery.{RecoveryClaim, lease_rows, claim_specific_operation}

-- A transaction that moves no money: the payment, its history and the books are as they were.
pub record SameMoney (w w' : World) : Type 0 where
  pub payment : w'.payment ≡ w.payment
  pub history : w'.status_history ≡ w.status_history
  pub books : w'.books ≡ w.books

SameMoney-IsCoherent : (w w' : World) → SameMoney w w' → IsCoherent w → IsCoherent w'
SameMoney-IsCoherent w w' s (c, b) = (rw (s.history, s.payment) c, subst IsSound (sym s.books) b)

prepare_first_send-SameMoney :
    (public_id account now attempt : ℕ) (w w' : World) (p : PreparedOperation)
    → prepare_first_send public_id account now attempt w ≡ ok (p, w')
    → SameMoney w w'
unfolding prepare_first_send first_send insert_attempt
prepare_first_send-SameMoney public_id account now attempt w w' p h = record {
  payment = ground arith;
  history = ground arith;
  books = ground arith;
}

complete_mutation-SameMoney :
    (codec : Codec) (id : ℕ) (o : Option ProviderObservation) (c : ClassifiedProviderResult)
    (now : ℕ) (w w' : World) (out : Option RecordedOutcome)
    → complete_mutation codec id o c now w ≡ ok (out, w')
    → SameMoney w w'
unfolding complete_mutation
complete_mutation-SameMoney codec id o c now w w' out h = record {
  payment = ground arith;
  history = ground arith;
  books = ground arith;
}

record_lookup_observation-SameMoney :
    (codec : Codec) (id : ℕ) (lease : Option ℕ) (o : Option ProviderObservation)
    (c : ClassifiedProviderResult) (limit grace now attempt : ℕ) (w w' : World)
    (out : Option RecordedOutcome)
    → record_lookup_observation codec id lease o c limit grace now attempt w ≡ ok (out, w')
    → SameMoney w w'
unfolding record_lookup_observation record_open_lookup insert_attempt
record_lookup_observation-SameMoney codec id lease o c limit grace now attempt w w' out h = record {
  payment = ground arith;
  history = ground arith;
  books = ground arith;
}

review_resource-SameMoney : (r : Resource) (w : World) → SameMoney w (review_resource r w)
review_resource-SameMoney (authorization a) w = record {
  payment = refl;
  history = refl;
  books = refl;
}
review_resource-SameMoney (capture c) w = record { payment = refl; history = refl; books = refl }
review_resource-SameMoney (void v) w = record { payment = refl; history = refl; books = refl }
review_resource-SameMoney (refund r) w = record { payment = refl; history = refl; books = refl }

mark_operation_for_review-SameMoney :
    (id : ℕ) (reason : ReviewReason) (evidence : Option ℕ) (actor : Actor) (w w' : World)
    → mark_operation_for_review id reason evidence actor w ≡ ok w'
    → SameMoney w w'
unfolding mark_operation_for_review
mark_operation_for_review-SameMoney id reason evidence actor w w' h = record {
  payment = ground arith;
  history = ground arith;
  books = ground arith;
}

record_apply_failure-SameMoney :
    (id evidence limit count : ℕ) (w w' : World)
    → record_apply_failure id evidence limit w ≡ ok (count, w')
    → SameMoney w w'
unfolding record_apply_failure
record_apply_failure-SameMoney id evidence limit count w w' h = record {
  payment = ground arith;
  history = ground arith;
  books = ground arith;
}

finalize-IsCoherent :
    (id evidence : ℕ) (actor : Actor) (now journal : ℕ) (w w' : World) (result : FinalizedResult)
    → finalize_verified_attempt id evidence actor now journal w ≡ ok (result, w')
    → IsCoherent w
    → IsCoherent w'
unfolding finalize_verified_attempt
finalize-IsCoherent id evidence actor now journal w w' result h c =
    elim (Option-cases (find_operation id w)) [
      | inl n ↦ ground arith
      | inr (operation, f) ↦ elim (Bool-cases (is_terminal operation.status)) [
        | inl t ↦ let same : w ≡ w' = ground (arith, h, f, t) in subst IsCoherent same c
        | inr l ↦
            finalize_verified_attempt-IsCoherent id evidence actor now journal w w' result operation
              f l h c
      ]
    ]

leased-SameMoney : (os : List Operation) (w : World) → SameMoney w (record w { operations = os })
leased-SameMoney os w = record { payment = refl; history = refl; books = refl }

receive-SameMoney : (a : Attempt) (w w' : World) → insert_attempt a w ≡ ok w' → SameMoney w w'
unfolding insert_attempt
receive-SameMoney a w w' h = record {
  payment = ground arith;
  history = ground arith;
  books = ground arith;
}

-- One transaction on the operations: the send and its answer, a lookup, the three claims of recovery.py (a batch leases those of its
-- rows that are the payment's), the evidence that a webhook records, a finalization, a review, and
-- the count of a failed finalization. A transaction that raises is no step.
pub data Step : World → World → Type 0 where
  prepare :
      (public_id account now attempt : ℕ) {w w' : World} (p : PreparedOperation)
      → prepare_first_send public_id account now attempt w ≡ ok (p, w')
      → Step w w'
  complete :
      (codec : Codec) (id : ℕ) (o : Option ProviderObservation) (c : ClassifiedProviderResult)
      (now : ℕ) {w w' : World} (out : Option RecordedOutcome)
      → complete_mutation codec id o c now w ≡ ok (out, w')
      → Step w w'
  look_up :
      (codec : Codec) (id : ℕ) (lease : Option ℕ) (o : Option ProviderObservation)
      (c : ClassifiedProviderResult) (limit grace now attempt : ℕ) {w w' : World}
      (out : Option RecordedOutcome)
      → record_lookup_observation codec id lease o c limit grace now attempt w ≡ ok (out, w')
      → Step w w'
  claim_batch :
      (token : ℕ → ℕ) (expires : ℕ) (chosen : List ℕ) {w : World}
      → Step w (record w { operations = lease_rows token expires chosen w.operations })
  claim_one :
      (public_id now seconds : ℕ) (in_review : Bool) (token : ℕ → ℕ) {w : World} (c : RecoveryClaim)
      (os : List Operation)
      → claim_specific_operation public_id now seconds in_review token w.operations ≡ ok (c, os)
      → Step w (record w { operations = os })
  receive :
      (a : Attempt) {w w' : World}
      → a.attempt_kind ≡ webhook_evidence
      → insert_attempt a w ≡ ok w'
      → Step w w'
  finalize :
      (id evidence : ℕ) (actor : Actor) (now journal : ℕ) {w w' : World} (result : FinalizedResult)
      → finalize_verified_attempt id evidence actor now journal w ≡ ok (result, w')
      → Step w w'
  mark :
      (id : ℕ) (reason : ReviewReason) (evidence : Option ℕ) (actor : Actor) {w w' : World}
      → mark_operation_for_review id reason evidence actor w ≡ ok w'
      → Step w w'
  count_failure :
      (id evidence limit count : ℕ) {w w' : World}
      → record_apply_failure id evidence limit w ≡ ok (count, w')
      → Step w w'

-- Any number of transactions, in any order.
pub data Run : World → World → Type 0 where
  start : {w : World} → Run w w
  next : {u v w : World} → Run u v → Step v w → Run u w

Step-IsCoherent : {w w' : World} → Step w w' → IsCoherent w → IsCoherent w'
Step-IsCoherent (prepare i a n t {w} {w'} p h) c =
    SameMoney-IsCoherent w w' (prepare_first_send-SameMoney i a n t w w' p h) c
Step-IsCoherent (complete k i o x n {w} {w'} out h) c =
    SameMoney-IsCoherent w w' (complete_mutation-SameMoney k i o x n w w' out h) c
Step-IsCoherent (look_up k i l o x m g n t {w} {w'} out h) c =
    SameMoney-IsCoherent w w' (record_lookup_observation-SameMoney k i l o x m g n t w w' out h) c
Step-IsCoherent (claim_batch t e is {w}) c =
    SameMoney-IsCoherent w _ (leased-SameMoney (lease_rows t e is w.operations) w) c
Step-IsCoherent (claim_one p n s r t {w} x os h) c =
    SameMoney-IsCoherent w _ (leased-SameMoney os w) c
Step-IsCoherent (receive a {w} {w'} k h) c =
    SameMoney-IsCoherent w w' (receive-SameMoney a w w' h) c
Step-IsCoherent (finalize i e a n j {w} {w'} r h) c = finalize-IsCoherent i e a n j w w' r h c
Step-IsCoherent (mark i r e a {w} {w'} h) c =
    SameMoney-IsCoherent w w' (mark_operation_for_review-SameMoney i r e a w w' h) c
Step-IsCoherent (count_failure i e l n {w} {w'} h) c =
    SameMoney-IsCoherent w w' (record_apply_failure-SameMoney i e l n w w' h) c

-- The transactions on a payment's operations are the first send and its answer, lookups, the claims
-- of leases, the evidence of webhooks, finalizations, reviews and counts of failed finalizations. In
-- whatever order and number they run, the payment's history stays a chain of allowed moves, the
-- ledger balanced and its balance transactions reconciled with its postings, if they were.
pub Run-IsCoherent : {w w' : World} → Run w w' → IsCoherent w → IsCoherent w'
Run-IsCoherent start c = c
Run-IsCoherent (next r s) c = Step-IsCoherent s (Run-IsCoherent r c)
