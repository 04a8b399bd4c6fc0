-- ===== src/Operations/Trace/Rows.antt =====
-- Each transaction writes one row of an operation at most, and keeps its identity:
-- provider_operations/service.py and finalizer.py.
use relaypay.Base.{
  ℕ, ◌+◌, ◌≡◌, refl, ◌∙◌, ap, inl, inr, Option, none, some, List, not, ◌||◌, ok, arith,
  Option-cases, Bool-cases, Result-cases, find, is_some, if◌then◌else◌,
}
use relaypay.Rows.{
  is_terminal, Actor, ReviewReason, requires_review, World, find_operation, find-own_id, Operation,
  put_operation,
}
use relaypay.Operations.Resources.{
  Resource, authorization, capture, void, refund, resource_of, FinalizedResult,
}
use relaypay.Operations.Frame.{finalize_resource-SameTables}
use relaypay.Operations.Finalizer.{
  review_resource, close_operation, response_of, finalize_verified_attempt,
  mark_operation_for_review,
}
use relaypay.Operations.Finalizer.Once.{finalize-split, finalize_open-split}
use relaypay.Operations.Validation.{ProviderObservation, Codec, ClassifiedProviderResult}
use relaypay.Operations.Service.Sends.{insert_attempt}
use relaypay.Operations.Service.Records.{
  RecordedOutcome, complete_mutation, decide_lookup, record_open_lookup, record_lookup_observation,
  next_lookup, is_lookup_action, is_mutation_of, holds_lease, count_lookups,
}
use relaypay.Operations.Trace.Keys.{Touched, untouched, written}

-- A write that leaves `last_sent_at` and the request alone.
pub same_row :
    (id : ℕ) (w : World) (o o' : Operation) (os : List Operation)
    → find_operation id w ≡ some o
    → o'.id ≡ o.id
    → o'.public_id ≡ o.public_id
    → o'.last_sent_at ≡ o.last_sent_at
    → o'.stable_provider_key ≡ o.stable_provider_key
    → o'.provider_request ≡ o.provider_request
    → os ≡ put_operation o' w.operations
    → Touched w.operations os
same_row id w o o' os f i p s k r e =
    written o o' (record { id = i; public_id = p; key = k; sent = λ t. (ap is_some s ∙ t, r) })
      (find-own_id id w o f) e

pub complete_mutation-Touched :
    (codec : Codec) (id : ℕ) (o : Option ProviderObservation) (c : ClassifiedProviderResult)
    (now : ℕ) (w w' : World) (out : Option RecordedOutcome)
    → complete_mutation codec id o c now w ≡ ok (out, w')
    → Touched w.operations w'.operations
unfolding complete_mutation
complete_mutation-Touched codec id o c now w w' out h = elim (Option-cases (find_operation id w)) [
  | inl n ↦ ground arith
  | inr (operation, f) ↦ elim (Option-cases (find (is_mutation_of id) w.attempts)) [
    | inl n ↦ untouched (ground arith)
    | inr (attempt, g) ↦ elim (Bool-cases (is_some attempt.completed_at)) [
      | inl s ↦ untouched (ground arith)
      | inr s ↦
          same_row id w operation
            (record operation {
              next_lookup_at = some (
                  if is_lookup_action c.action
                  then now
                  else next_lookup now operation.attempt_count);
            })
            w'.operations f refl refl refl refl refl (ground arith)
    ]
  ]
]

record_open_lookup-Touched :
    (codec : Codec) (operation : Operation) (o : Option ProviderObservation)
    (c : ClassifiedProviderResult) (id limit grace now attempt : ℕ) (w w' : World)
    (out : Option RecordedOutcome)
    → find_operation id w ≡ some operation
    → record_open_lookup codec operation o c limit grace now attempt w ≡ ok (out, w')
    → Touched w.operations w'.operations
unfolding record_open_lookup insert_attempt
record_open_lookup-Touched codec operation o c id limit grace now attempt w w' out f h =
    elim (Result-cases (
      decide_lookup c operation.last_sent_at now grace (1 + count_lookups operation.id w.attempts)
        limit (next_lookup now (operation.attempt_count + 1)))) [
          | inl (d, e) ↦
              same_row id w operation
                (record operation {
                  attempt_count = operation.attempt_count + 1;
                  lookup_lease_token = none;
                  lookup_lease_expires_at = none;
                  next_lookup_at = some d.next_lookup_at;
                })
                w'.operations f refl refl refl refl refl (ground arith)
          | inr (x, e) ↦ ground arith
        ]

pub record_lookup_observation-Touched :
    (codec : Codec) (id : ℕ) (lease : Option ℕ) (o : Option ProviderObservation)
    (c : ClassifiedProviderResult) (limit grace now attempt : ℕ) (w w' : World)
    (out : Option RecordedOutcome)
    → record_lookup_observation codec id lease o c limit grace now attempt w ≡ ok (out, w')
    → Touched w.operations w'.operations
unfolding record_lookup_observation
record_lookup_observation-Touched codec id lease o c limit grace now attempt w w' out h =
    elim (Option-cases (find_operation id w)) [
      | inl n ↦ untouched (ground arith)
      | inr (operation, f) ↦
          elim (Bool-cases (is_terminal operation.status || not (holds_lease lease operation))) [
            | inl t ↦ untouched (ground arith)
            | inr t ↦
                record_open_lookup-Touched codec operation o c id limit grace now attempt w w' out f
                  (ground arith)
          ]
    ]

review_resource-operations :
    (r : Resource) (w : World) → (review_resource r w).operations ≡ w.operations
review_resource-operations (authorization a) w = refl
review_resource-operations (capture c) w = refl
review_resource-operations (void v) w = refl
review_resource-operations (refund r) w = refl

pub mark_operation_for_review-Touched :
    (id : ℕ) (reason : ReviewReason) (evidence : Option ℕ) (actor : Actor) (w w' : World)
    → mark_operation_for_review id reason evidence actor w ≡ ok w'
    → Touched w.operations w'.operations
unfolding mark_operation_for_review
mark_operation_for_review-Touched id reason evidence actor w w' h =
    elim (Option-cases (find_operation id w)) [
      | inl n ↦ ground arith
      | inr (o, f) ↦ elim (Result-cases (resource_of o w)) [
        | inl (r, e) ↦ elim (Bool-cases (is_terminal o.status)) [
          | inl t ↦ untouched (ground arith)
          | inr t ↦
              same_row id w o
                (record o {
                  status = requires_review;
                  review_reason = some reason;
                  next_lookup_at = none;
                  lookup_lease_token = none;
                  lookup_lease_expires_at = none;
                })
                w'.operations f refl refl refl refl refl (ground arith)
        ]
        | inr (x, e) ↦ ground arith
      ]
    ]

pub finalize_verified_attempt-Touched :
    (id evidence : ℕ) (actor : Actor) (now journal : ℕ) (w w' : World) (result : FinalizedResult)
    → finalize_verified_attempt id evidence actor now journal w ≡ ok (result, w')
    → Touched w.operations w'.operations
unfolding finalize_verified_attempt
finalize_verified_attempt-Touched id evidence actor now journal w w' result h =
    elim (Option-cases (find_operation id w)) [
      | inl n ↦ ground arith
      | inr (o, f) ↦ elim (Bool-cases (is_terminal o.status)) [
        | inl t ↦ untouched (ground arith)
        | inr t ↦
            let (resource, _, opened) =
              finalize-split id evidence actor now journal w w' result o f t h in
            let (attempt, out, v, _, done, _, e) =
              finalize_open-split o resource evidence actor now journal w w' result opened in
            let same = finalize_resource-SameTables out o resource w v done in
            same_row id w o (close_operation out (response_of out o resource v) o) w'.operations f
              refl refl refl refl refl
              (ap (λ x. x.operations) e
                ∙ ap (put_operation (close_operation out (response_of out o resource v) o))
                    same.operations)
      ]
    ]
