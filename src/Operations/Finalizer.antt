-- ===== src/Operations/Finalizer.antt =====
-- packages/relaypay/provider_operations/finalizer.py. `now` is the clock, `journal_id` a new id.
pub mod Once
pub mod Twice
pub mod Effects
use Prim.Native.String.{String}
use relaypay.Base.{
  ℕ, ◌+◌, ◌≡◌, Option, none, some, List, [], ◌∷◌, ◌++◌, map, Bool, true, false, not, ◌&&◌, ◌||◌,
  Result, ok, err, ◌>>=◌, ◌>>◌, raise_if, or_raise, runtime_error, ◌==◌, if◌then◌else◌, leb,
  is_blank,
}
use relaypay.Rows.{
  OperationStatus, requires_review, is_terminal, Actor, finalizer, Classification, is_final,
  is_success, ReviewReason, apply_failure, ReasonCode, classified, reviewed, EventType,
  payment_authorized_v1, payment_captured_v1, refund_succeeded_v1, Response, Operation, Attempt,
  IdempotencyRecord, OperationHistory, MerchantEvent, Authorization, Capture, Void, Refund, World,
  find_operation, find_attempt, put_operation, put_refund,
}
use relaypay.Operations.Resources.{
  Resource, authorization, capture, void, refund, resource_of, resource_public_id, resource_amount,
  FinalizedResult, terminal_result, Outcome, terminal_status, finalize_resource,
}

abbrev pub is_valid_signature : Option Bool → Bool
is_valid_signature (some true) = true
is_valid_signature _ = false

abbrev pub is_final_evidence : Option Classification → Bool
is_final_evidence none = false
is_final_evidence (some c) = is_final c

abbrev pub is_success_evidence : Option Classification → Bool
is_success_evidence none = false
is_success_evidence (some c) = is_success c

-- The reason code of the history row; a NULL classification has been refused before.
abbrev pub reason_of : Option Classification → ReasonCode
reason_of none = classified Classification.verified_not_found
reason_of (some c) = classified c

-- The merchant event of a resource that succeeded; a void has none.
abbrev pub event_type_of : Resource → Option EventType
event_type_of (authorization a) = some payment_authorized_v1
event_type_of (capture c) = some payment_captured_v1
event_type_of (void v) = none
event_type_of (refund r) = some refund_succeeded_v1

unfoldable pub append_event :
    Outcome → Operation → Resource → List MerchantEvent → List MerchantEvent
append_event o operation resource events =
    if o.succeeded
    then elim (event_type_of resource) [
      | none ↦ events
      | some event_type ↦
          events
          ++ (record {
            provider_operation_id = operation.id;
            event_type = event_type;
            resource_public_id = resource_public_id resource;
            amount = resource_amount resource;
            occurred_at = o.now;
          })
            ∷ []
    ]
    else events

abbrev pub response_of : Outcome → Operation → Resource → World → Response
response_of o operation resource w = record {
  amount = resource_amount resource;
  failure_code = o.failure_code;
  operation_id = operation.public_id;
  payment_intent_id = w.payment.public_id;
  resource_id = resource_public_id resource;
  status = terminal_status o.succeeded;
}

abbrev pub close_operation : Outcome → Response → Operation → Operation
close_operation o response operation = record operation {
  status = terminal_status o.succeeded;
  review_reason = none;
  terminal_response = some response;
  finalized_at = some o.now;
  lookup_lease_token = none;
  lookup_lease_expires_at = none;
  next_lookup_at = none;
}

-- Every key of the operation is given the response.
unfoldable pub close_keys : ℕ → ℕ → Response → List IdempotencyRecord → List IdempotencyRecord
close_keys operation_id now response [] = []
close_keys operation_id now response (k ∷ ks) =
    (if k.provider_operation_id == operation_id
      then record k { is_terminal = true; response = some response; finalized_at = some now }
      else k)
    ∷ close_keys operation_id now response ks

-- The writes after those to the resource.
abbrev pub close : Outcome → Operation → Resource → Attempt → World → World
close o operation resource attempt w =
    let response = response_of o operation resource w in
    record w {
      operations = put_operation (close_operation o response operation) w.operations;
      keys = close_keys operation.id o.now response w.keys;
      events = append_event o operation resource w.events;
      operation_history =
          w.operation_history
          ++ (record {
            provider_operation_id = operation.id;
            from_status = operation.status;
            to_status = terminal_status o.succeeded;
            reason_code = reason_of attempt.classification;
            evidence_attempt_id = some attempt.id;
            actor_type = o.actor;
          })
            ∷ [];
    }

-- The checks on the evidence, with what they conclude.
unfoldable pub judge : Operation → Option Attempt → Actor → ℕ → ℕ → Result (Attempt × Outcome)
judge operation found actor now journal_id = do
  attempt ← or_raise found runtime_error
  raise_if (not (attempt.provider_operation_id == operation.id)) runtime_error
  raise_if (not (is_valid_signature attempt.provider_signature_valid)) runtime_error
  raise_if (not (is_final_evidence attempt.classification)) runtime_error
  let succeeded = is_success_evidence attempt.classification
  let failure_code = if succeeded then none else attempt.safe_error_code
  raise_if (not succeeded && is_blank failure_code) runtime_error
  ok (
    attempt,
    record {
      succeeded = succeeded;
      failure_code = failure_code;
      now = now;
      journal_id = journal_id;
      actor = actor;
    },
  )

-- The operation is not terminal.
unfoldable pub finalize_open :
    Operation → Resource → ℕ → Actor → ℕ → ℕ → World → Result (FinalizedResult × World)
finalize_open operation resource evidence_attempt_id actor now journal_id w = do
  (attempt, o) ← judge operation (find_attempt evidence_attempt_id w) actor now journal_id
  w' ← finalize_resource o operation resource w
  result ← terminal_result (close_operation o (response_of o operation resource w') operation) false
  ok (result, close o operation resource attempt w')

unfoldable pub finalize_verified_attempt :
    ℕ → ℕ → Actor → ℕ → ℕ → World → Result (FinalizedResult × World)
finalize_verified_attempt operation_id evidence_attempt_id actor now journal_id w = do
  operation ← or_raise (find_operation operation_id w) runtime_error
  resource ← resource_of operation w
  if is_terminal operation.status
      then (do result ← terminal_result operation true; ok (result, w))
      else finalize_open operation resource evidence_attempt_id actor now journal_id w

-- `resource.status = "REQUIRES_REVIEW"`
abbrev pub review_resource : Resource → World → World
review_resource (authorization a) w = record w {
  authorization = some (record a { status = requires_review });
}
review_resource (capture c) w = record w { capture = some (record c { status = requires_review }) }
review_resource (void v) w = record w { void = some (record v { status = requires_review }) }
review_resource (refund r) w = record w {
  refunds = put_refund (record r { status = requires_review }) w.refunds;
}

abbrev pub append_history : Operation → ReviewReason → Option ℕ → Actor → World → World
append_history operation reason evidence actor w = record w {
  operation_history =
      w.operation_history
      ++ (record {
        provider_operation_id = operation.id;
        from_status = operation.status;
        to_status = requires_review;
        reason_code = reviewed reason;
        evidence_attempt_id = evidence;
        actor_type = actor;
      })
        ∷ [];
}

unfoldable pub mark_operation_for_review :
    ℕ → ReviewReason → Option ℕ → Actor → World → Result World
mark_operation_for_review operation_id reason evidence actor w = do
  operation ← or_raise (find_operation operation_id w) runtime_error
  resource ← resource_of operation w
  ok (
      if is_terminal operation.status
      then w
      else append_history operation reason evidence actor (
          review_resource resource (record w {
            operations =
                put_operation
                  (record operation {
                    status = requires_review;
                    review_reason = some reason;
                    next_lookup_at = none;
                    lookup_lease_token = none;
                    lookup_lease_expires_at = none;
                  })
                  w.operations;
          })))

-- `review_after`
abbrev pub default_review_after : ℕ
default_review_after = 3

unfoldable pub record_apply_failure : ℕ → ℕ → ℕ → World → Result (ℕ × World)
record_apply_failure operation_id evidence review_after w = do
  operation ← or_raise (find_operation operation_id w) runtime_error
  resource ← resource_of operation w
  let count = operation.apply_failure_count + 1
  ok (
      if is_terminal operation.status
      then (operation.apply_failure_count, w)
      else if leb review_after count
      then (
        count,
        append_history operation apply_failure (some evidence) finalizer (
            review_resource resource (record w {
              operations =
                  put_operation
                    (record operation {
                      apply_failure_count = count;
                      status = requires_review;
                      review_reason = some apply_failure;
                      next_lookup_at = none;
                    })
                    w.operations;
            })),
      )
      else (
        count,
        record w {
          operations =
              put_operation (record operation { apply_failure_count = count }) w.operations;
        },
      ))
