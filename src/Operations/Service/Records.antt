-- ===== src/Operations/Service/Records.antt =====
-- What an answer or a lookup leaves in the rows: provider_operations/service.py. `now` is the clock.
use relaypay.Base.{
  ℕ, ◌+◌, ◌-◌, ◌^◌, min, max, String, Option, none, some, List, [], ◌∷◌, Bool, true, false, not,
  ◌&&◌, ◌||◌, Result, ok, ◌>>=◌, or_raise, runtime_error, ◌==◌, if◌then◌else◌, leb, find, is_some,
  is_blank, is_number,
}
use relaypay.Rows.{
  is_terminal, AttemptKind, is_mutation, is_lookup_kind, response_received, transport_error,
  validation_rejected, Classification, verified_not_found_final, verified_not_found_within_grace,
  ReviewReason, invalid_evidence, provider_indeterminate, Operation, Attempt, World, find_operation,
  put_operation, put_attempt,
}
use relaypay.Operations.Validation.{
  ProviderAction, finalize_failure, lookup, processing, review, not_found, ProviderObservation,
  Codec, ClassifiedProviderResult,
}
use relaypay.Operations.Service.Sends.{insert_attempt, new_attempt}

pub record RecordedOutcome : Type 0 where
  pub attempt_id : ℕ
  pub action : ProviderAction
  pub review_reason : Option ReviewReason

-- Seconds; ℕ's subtraction is the source's `max(attempt_count - 2, 0)`.
unfoldable pub next_lookup : ℕ → ℕ → ℕ
next_lookup now attempt_count = now + min (2 ^ (attempt_count - 2)) 60

abbrev pub is_review : ProviderAction → Bool
is_review review = true
is_review _ = false

abbrev pub is_lookup_action : ProviderAction → Bool
is_lookup_action lookup = true
is_lookup_action _ = false

-- `action in {"LOOKUP", "PROCESSING"}`
abbrev pub is_undecided : ProviderAction → Bool
is_undecided lookup = true
is_undecided processing = true
is_undecided _ = false

-- `a or b` on optional texts
abbrev pub or_else : Option String → Option String → Option String
or_else a b = if is_blank a then b else a

-- `_record_classification`
unfoldable pub record_classification :
    Codec → Option ProviderObservation → ClassifiedProviderResult → ℕ → Attempt → Attempt
record_classification codec observation c now attempt = record attempt {
  completed_at = some now;
  state = elim observation [
    | none ↦ transport_error
    | some _ ↦ if is_review c.action then validation_rejected else response_received
  ];
  response_http_status = elim observation [ none ↦ none | some o ↦ some o.status_code ];
  response_sha256 = elim observation [ none ↦ none | some o ↦ some (codec.sha256 o.body) ];
  provider_signature_valid = c.signature_valid;
  classification = some c.classification;
  safe_error_code = or_else c.decline_code c.safe_error_code;
}

abbrev pub review_reason_of : ProviderAction → Option ReviewReason
review_reason_of action = if is_review action then some invalid_evidence else none

abbrev pub is_mutation_of : ℕ → Attempt → Bool
is_mutation_of operation_id a =
    a.provider_operation_id == operation_id && is_mutation a.attempt_kind

-- `_complete_mutation`
unfoldable pub complete_mutation :
    Codec
    → ℕ
    → Option ProviderObservation
    → ClassifiedProviderResult
    → ℕ
    → World
    → Result (Option RecordedOutcome × World)
unfolding record_classification next_lookup
complete_mutation codec operation_id observation c now w = do
  operation ← or_raise (find_operation operation_id w) runtime_error
  elim (find (is_mutation_of operation_id) w.attempts) [
    | none ↦ ok (none, w)
    | some attempt ↦
        if is_some attempt.completed_at
        then ok (none, w)
        else ok (
          some (record {
            attempt_id = attempt.id;
            action = c.action;
            review_reason = review_reason_of c.action;
          }),
          record w {
            attempts =
                put_attempt (record_classification codec observation c now attempt) w.attempts;
            operations =
                put_operation
                  (record operation {
                    next_lookup_at = some (
                        if is_lookup_action c.action
                        then now
                        else next_lookup now operation.attempt_count);
                  })
                  w.operations;
          },
        )
  ]

-- `coalesce(max(sequence), 0)` of the operation's attempts
unfoldable pub max_sequence : ℕ → List Attempt → ℕ
max_sequence operation_id [] = 0
max_sequence operation_id (a ∷ attempts) =
    let rest = max_sequence operation_id attempts in
    if a.provider_operation_id == operation_id then max a.sequence rest else rest

-- `count()` of the operation's earlier lookups
unfoldable pub count_lookups : ℕ → List Attempt → ℕ
count_lookups operation_id [] = 0
count_lookups operation_id (a ∷ attempts) =
    let rest = count_lookups operation_id attempts in
    if a.provider_operation_id == operation_id && is_lookup_kind a.attempt_kind
    then 1 + rest
    else rest

-- What a lookup's action becomes, with the reason for a review, the classification and the time of
-- the next lookup.
pub record LookupDecision : Type 0 where
  pub action : ProviderAction
  pub review_reason : Option ReviewReason
  pub classification : Classification
  pub next_lookup_at : ℕ

-- A signed NOT_FOUND is final only after the grace period since the send.
abbrev pub decide_not_found : ℕ → ℕ → ℕ → LookupDecision
decide_not_found now deadline next =
    if leb deadline now
    then record {
      action = finalize_failure;
      review_reason = none;
      classification = verified_not_found_final;
      next_lookup_at = next;
    }
    else record {
      action = processing;
      review_reason = none;
      classification = verified_not_found_within_grace;
      next_lookup_at = min next deadline;
    }

abbrev pub decide_found : ClassifiedProviderResult → ℕ → ℕ → ℕ → LookupDecision
decide_found c lookup_count indeterminate_after next =
    if is_undecided c.action && leb indeterminate_after lookup_count
    then record {
      action = review;
      review_reason = some provider_indeterminate;
      classification = c.classification;
      next_lookup_at = next;
    }
    else record {
      action = c.action;
      review_reason = review_reason_of c.action;
      classification = c.classification;
      next_lookup_at = next;
    }

unfoldable pub decide_lookup :
    ClassifiedProviderResult → Option ℕ → ℕ → ℕ → ℕ → ℕ → ℕ → Result LookupDecision
decide_lookup c last_sent_at now grace lookup_count indeterminate_after next = elim c.action [
  | not_found ↦ (do
    sent_at ← or_raise last_sent_at runtime_error
    ok (decide_not_found now (sent_at + grace) next))
  | _ ↦ ok (decide_found c lookup_count indeterminate_after next)
]

abbrev pub holds_lease : Option ℕ → Operation → Bool
holds_lease none operation = true
holds_lease (some token) operation = is_number operation.lookup_lease_token token

-- The operation is not terminal and the lease is held.
unfoldable pub record_open_lookup :
    Codec
    → Operation
    → Option ProviderObservation
    → ClassifiedProviderResult
    → ℕ
    → ℕ
    → ℕ
    → ℕ
    → World
    → Result (Option RecordedOutcome × World)
unfolding record_classification next_lookup
record_open_lookup codec operation observation c indeterminate_after grace now attempt_id w = do
  let sequence = max_sequence operation.id w.attempts + 1
  let lookup_count = 1 + count_lookups operation.id w.attempts
  let next = next_lookup now (operation.attempt_count + 1)
  let attempt =
      record_classification codec observation c now
        (new_attempt attempt_id operation.id sequence AttemptKind.lookup response_received now)
  d ← decide_lookup c operation.last_sent_at now grace lookup_count indeterminate_after next
  w' ←
      insert_attempt (record attempt { classification = some d.classification })
        (record w {
          operations =
              put_operation
                (record operation {
                  attempt_count = operation.attempt_count + 1;
                  lookup_lease_token = none;
                  lookup_lease_expires_at = none;
                  next_lookup_at = some d.next_lookup_at;
                })
                w.operations;
        })
  ok (
    some (record { attempt_id = attempt_id; action = d.action; review_reason = d.review_reason }),
    w',
  )

unfoldable pub record_lookup_observation :
    Codec
    → ℕ
    → Option ℕ
    → Option ProviderObservation
    → ClassifiedProviderResult
    → ℕ
    → ℕ
    → ℕ
    → ℕ
    → World
    → Result (Option RecordedOutcome × World)
unfolding record_open_lookup
record_lookup_observation codec operation_id lease observation c indeterminate_after grace now
      attempt_id w =
    elim (find_operation operation_id w) [
      | none ↦ ok (none, w)
      | some operation ↦
          if is_terminal operation.status || not (holds_lease lease operation)
          then ok (none, w)
          else record_open_lookup codec operation observation c indeterminate_after grace now
              attempt_id w
    ]
