-- ===== src/Operations/Finalizer/Once.antt =====
-- Exactly-once finalization: provider_operations/finalizer.py.
use mathlib.Core.Path.{subst}
use relaypay.Base.{
  ℕ, ◌≡◌, refl, sym, inl, inr, Option, some, List, [], ◌∷◌, true, false, ok, arith, Result-cases,
  All,
}
use relaypay.Rows.{
  is_terminal, Actor, Response, Operation, Attempt, IdempotencyRecord, World, find_operation,
  find_attempt, find-put_operation_self, find-operation_id,
}
use relaypay.Operations.Resources.{
  Resource, resource_of, FinalizedResult, terminal_result, Outcome, terminal_status,
  finalize_resource,
}
use relaypay.Operations.Frame.{SameTables, finalize_resource-SameTables}
use relaypay.Operations.Finalizer.{
  is_valid_signature, is_final_evidence, is_success_evidence, judge, response_of, close_operation,
  close_keys, close, finalize_open, finalize_verified_attempt,
}

-- Every key that is bound to the operation stores the response.
abbrev pub Replays : ℕ → Response → List IdempotencyRecord → Type 0
Replays id response =
    All (λ k. k.provider_operation_id ≡ id → (k.is_terminal ≡ true) × (k.response ≡ some response))

close_keys-Replays :
    (id now : ℕ) (response : Response) (ks : List IdempotencyRecord)
    → Replays id response (close_keys id now response ks)
unfolding close_keys
close_keys-Replays id now response [] = tt
close_keys-Replays id now response (k ∷ ks) =
    ((λ e. ground arith), close_keys-Replays id now response ks)

-- The facts of a finalization that wrote.
pub record IsFinalized (id evidence : ℕ) (result : FinalizedResult) (w w' : World) : Type 0 where
  pub attempt : Attempt
  pub found : find_attempt evidence w ≡ some attempt
  pub owner : attempt.provider_operation_id ≡ id
  pub signature : is_valid_signature attempt.provider_signature_valid ≡ true
  pub evidence_final : is_final_evidence attempt.classification ≡ true
  pub operation' : Operation
  pub stored : find_operation id w' ≡ some operation'
  pub status : operation'.status ≡ terminal_status (is_success_evidence attempt.classification)
  pub response : operation'.terminal_response ≡ some result.response
  pub fresh : result.already_finalized ≡ false
  pub replays : Replays id result.response w'.keys

pub judge-split :
    (operation : Operation) (found : Option Attempt) (actor : Actor) (now journal : ℕ)
    (attempt : Attempt) (o : Outcome)
    → judge operation found actor now journal ≡ ok (attempt, o)
    → (found ≡ some attempt)
      × (attempt.provider_operation_id ≡ operation.id)
      × (is_valid_signature attempt.provider_signature_valid ≡ true)
      × (is_final_evidence attempt.classification ≡ true)
      × (o.succeeded ≡ is_success_evidence attempt.classification)
      × (o.now ≡ now)
unfolding judge
judge-split operation found actor now journal attempt o h = ground arith

pub finalize_open-split :
    (operation : Operation) (resource : Resource) (evidence : ℕ) (actor : Actor) (now journal : ℕ)
    (w w' : World) (result : FinalizedResult)
    → finalize_open operation resource evidence actor now journal w ≡ ok (result, w')
    → (attempt : Attempt) × (o : Outcome) × (v : World) × (judge operation
          (find_attempt evidence w)
          actor
          now
          journal
        ≡ ok (attempt, o))
      × (finalize_resource o operation resource w ≡ ok v)
      × (result
          ≡ record { response = response_of o operation resource v; already_finalized = false })
      × (w' ≡ close o operation resource attempt v)
unfolding finalize_open terminal_result
finalize_open-split operation resource evidence actor now journal w w' result h =
    elim (Result-cases (judge operation (find_attempt evidence w) actor now journal)) [
      | inl ((attempt, o), e) ↦ elim (Result-cases (finalize_resource o operation resource w)) [
        | inl (v, f) ↦ (attempt, o, v, e, f, ground arith, ground arith)
        | inr (x, f) ↦ ground arith
      ]
      | inr (x, e) ↦ ground arith
    ]

pub finalize-split :
    (id evidence : ℕ) (actor : Actor) (now journal : ℕ) (w w' : World) (result : FinalizedResult)
    (operation : Operation)
    → find_operation id w ≡ some operation
    → is_terminal operation.status ≡ false
    → finalize_verified_attempt id evidence actor now journal w ≡ ok (result, w')
    → (resource : Resource) × (resource_of operation w ≡ ok resource)
      × (finalize_open operation resource evidence actor now journal w ≡ ok (result, w'))
unfolding finalize_verified_attempt
finalize-split id evidence actor now journal w w' result operation found live h =
    elim (Result-cases (resource_of operation w)) [
      | inl (resource, e) ↦ (resource, e, ground arith)
      | inr (x, e) ↦ ground arith
    ]

close-IsFinalized :
    (evidence now : ℕ) (operation : Operation) (resource : Resource) (attempt : Attempt)
    (o : Outcome) (w v w' : World) (result : FinalizedResult)
    → find_operation operation.id w ≡ some operation
    → find_attempt evidence w ≡ some attempt
    → attempt.provider_operation_id ≡ operation.id
    → is_valid_signature attempt.provider_signature_valid ≡ true
    → is_final_evidence attempt.classification ≡ true
    → o.succeeded ≡ is_success_evidence attempt.classification
    → SameTables w v
    → result ≡ record { response = response_of o operation resource v; already_finalized = false }
    → w' ≡ close o operation resource attempt v
    → IsFinalized operation.id evidence result w w'
close-IsFinalized evidence now operation resource attempt o w v w' result found at owner sig final
      succ same r e =
    record {
      attempt = attempt;
      found = at;
      owner = owner;
      signature = sig;
      evidence_final = final;
      operation' = close_operation o (response_of o operation resource v) operation;
      stored =
          rw (e, same.operations)
            (find-put_operation_self
              (close_operation o (response_of o operation resource v) operation) w.operations
              operation found);
      status = rw succ refl;
      response = rw r refl;
      fresh = rw r refl;
      replays =
          rw (e, r)
            (close_keys-Replays operation.id o.now (response_of o operation resource v) v.keys);
    }

-- Finalizing an operation that is not terminal, when it succeeds, rests on evidence of that
-- operation with a valid signature and a final classification; the operation then is SUCCEEDED
-- exactly on a verified success and FAILED otherwise, and stores the response that is returned;
-- and every idempotency key bound to the operation stores that same response.
pub finalize_verified_attempt-IsFinalized :
    (id evidence : ℕ) (actor : Actor) (now journal : ℕ) (w w' : World) (result : FinalizedResult)
    (operation : Operation)
    → find_operation id w ≡ some operation
    → is_terminal operation.status ≡ false
    → finalize_verified_attempt id evidence actor now journal w ≡ ok (result, w')
    → IsFinalized id evidence result w w'
finalize_verified_attempt-IsFinalized id evidence actor now journal w w' result operation found live
      h =
    let (resource, _, opened) =
      finalize-split id evidence actor now journal w w' result operation found live h in
    let (attempt, o, v, judged, done, r, e) =
      finalize_open-split operation resource evidence actor now journal w w' result opened in
    let (at, owner, sig, final, succ, _) =
      judge-split operation (find_attempt evidence w) actor now journal attempt o judged in
    let same = finalize_resource-SameTables o operation resource w v done in
    let named = find-operation_id id w.operations operation found in
    subst (λ k. IsFinalized k evidence result w w') named
      (close-IsFinalized evidence now operation resource attempt o w v w' result
        (subst (λ k. find_operation k w ≡ some operation) (sym named) found) at owner sig final succ
        same r e)

-- On a terminal operation the call writes nothing and returns the stored response.
pub finalize-terminal :
    (id evidence : ℕ) (actor : Actor) (now journal : ℕ) (w : World) (operation : Operation)
    (resource : Resource) (response : Response)
    → find_operation id w ≡ some operation
    → resource_of operation w ≡ ok resource
    → is_terminal operation.status ≡ true
    → operation.terminal_response ≡ some response
    → finalize_verified_attempt id evidence actor now journal w
      ≡ ok (record { response = response; already_finalized = true }, w)
unfolding finalize_verified_attempt terminal_result
finalize-terminal id evidence actor now journal w operation resource response found r t s =
    rw (found, r, t, s)
