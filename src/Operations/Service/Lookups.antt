-- ===== src/Operations/Service/Lookups.antt =====
-- What a recorded lookup leads to: provider_operations/service.py.
use mathlib.Core.Path.{subst}
use native.Mathlib.Nat.{one-le-pow, pow-le-pow_right}
use relaypay.Base.{
  ℕ, ◌+◌, ◌-◌, ◌≤◌, ◌<◌, ◌≡◌, refl, ◌⊎◌, inl, inr, Option, none, some, List, [], ◌∷◌, ◌++◌, true,
  false, ok, arith, Result-cases, Option-cases, Bool-cases, ◌==◌, find, leb, sym,
}
use relaypay.Rows.{
  is_terminal, Operation, Attempt, World, find_operation, find_attempt, put_operation, AttemptKind,
  response_received, find-put_operation_self, find-operation_id,
}
use relaypay.Operations.Validation.{
  finalize_failure, processing, not_found, ProviderObservation, Codec, ClassifiedProviderResult,
}
use relaypay.Operations.Service.Records.{
  RecordedOutcome, or_else, holds_lease, max_sequence, next_lookup, LookupDecision, decide_lookup,
  count_lookups, record_classification, record_open_lookup, record_lookup_observation,
}
use relaypay.Operations.Service.Sends.{new_attempt, insert_attempt}

-- The next lookup is after the present and at most a minute later, and the delay does not shrink
-- as attempts go on.
pub next_lookup_bounds :
    (now m n : ℕ)
    → m ≤ n
    → (now < next_lookup now m)
      × (next_lookup now m ≤ next_lookup now n)
      × (next_lookup now n ≤ now + 60)
unfolding next_lookup
next_lookup_bounds now m n h = omega (
  arith,
  one-le-pow (m - 2) 2 (omega arith),
  pow-le-pow_right {n = 2} (omega arith) {i = m - 2} {j = n - 2} (omega arith),
)

-- The action on a NOT_FOUND is a failure, with a final classification, exactly once the grace
-- period since the send is over; before that the operation stays open, and is looked up again
-- no later than at the end of the period.
pub decide_not_found-grace :
    (c : ClassifiedProviderResult) (last_sent_at : Option ℕ) (now grace count limit next : ℕ)
    (d : LookupDecision)
    → c.action ≡ not_found
    → decide_lookup c last_sent_at now grace count limit next ≡ ok d
    → (sent_at : ℕ) × (last_sent_at ≡ some sent_at)
      × ((sent_at + grace ≤ now) × (d.action ≡ finalize_failure)
          ⊎ (now < sent_at + grace)
            × (d.action ≡ processing)
            × (d.next_lookup_at ≤ sent_at + grace))
unfolding decide_lookup
decide_not_found-grace c none now grace count limit next d a h = ground arith
decide_not_found-grace c (some sent_at) now grace count limit next d a h =
    elim (Bool-cases (leb (sent_at + grace) now)) [
      | inl e ↦ (sent_at, refl, inl (ground arith))
      | inr e ↦ (sent_at, refl, inr (ground arith))
    ]

find-append_new :
    (a : Attempt) (as' : List Attempt)
    → find (λ x. x.id == a.id) as' ≡ none
    → find (λ x. x.id == a.id) (as' ++ a ∷ []) ≡ some a
find-append_new a [] h = ground arith
find-append_new a (b ∷ bs) h = ground (arith, find-append_new a bs)

-- The facts of a lookup that was recorded.
pub record IsRecorded (codec : Codec) (operation : Operation)
    (observation : Option ProviderObservation) (c : ClassifiedProviderResult) (limit grace now : ℕ)
    (w w' : World) (out : RecordedOutcome) : Type 0 where
  pub decision : LookupDecision
  pub decided :
      decide_lookup c operation.last_sent_at now grace
        (1 + count_lookups operation.id w.attempts)
        limit
        (next_lookup now (operation.attempt_count + 1))
      ≡ ok decision
  pub action : out.action ≡ decision.action
  pub reason : out.review_reason ≡ decision.review_reason
  pub attempt : Attempt
  pub found : find_attempt out.attempt_id w' ≡ some attempt
  pub owner : attempt.provider_operation_id ≡ operation.id
  pub signature : attempt.provider_signature_valid ≡ c.signature_valid
  pub classification : attempt.classification ≡ some decision.classification
  pub code : attempt.safe_error_code ≡ or_else c.decline_code c.safe_error_code
  pub stored :
      (o : Operation) × (find_operation operation.id w' ≡ some o)
      × (o.next_lookup_at ≡ some decision.next_lookup_at)

abbrev recorded_attempt :
    Codec
    → Operation
    → Option ProviderObservation
    → ClassifiedProviderResult
    → ℕ
    → ℕ
    → World
    → LookupDecision
    → Attempt
recorded_attempt codec operation observation c now attempt_id w d =
    record (record_classification codec observation c now (
      new_attempt attempt_id operation.id (max_sequence operation.id w.attempts + 1)
        AttemptKind.lookup response_received now)) { classification = some d.classification }

abbrev looked_up : Operation → LookupDecision → Operation
looked_up operation d = record operation {
  attempt_count = operation.attempt_count + 1;
  lookup_lease_token = none;
  lookup_lease_expires_at = none;
  next_lookup_at = some d.next_lookup_at;
}

record_open_lookup-split :
    (codec : Codec) (operation : Operation) (observation : Option ProviderObservation)
    (c : ClassifiedProviderResult) (limit grace now attempt_id : ℕ) (w w' : World)
    (out : RecordedOutcome)
    → record_open_lookup codec operation observation c limit grace now attempt_id w
      ≡ ok (some out, w')
    → (d : LookupDecision) × (decide_lookup c operation.last_sent_at now grace
          (1 + count_lookups operation.id w.attempts)
          limit
          (next_lookup now (operation.attempt_count + 1))
        ≡ ok d)
      × (out
          ≡ record { attempt_id = attempt_id; action = d.action; review_reason = d.review_reason })
      × (w'.attempts
          ≡ w.attempts ++ recorded_attempt codec operation observation c now attempt_id w d ∷ [])
      × (w'.operations ≡ put_operation (looked_up operation d) w.operations)
unfolding record_open_lookup insert_attempt
record_open_lookup-split codec operation observation c limit grace now attempt_id w w' out h =
    elim (Result-cases (
      decide_lookup c operation.last_sent_at now grace (1 + count_lookups operation.id w.attempts)
        limit (next_lookup now (operation.attempt_count + 1)))) [
          | inl (d, e) ↦ (d, e, ground arith, ground arith, ground arith)
          | inr (x, e) ↦ ground arith
        ]

IsRecorded-of_rows :
    (codec : Codec) (operation : Operation) (observation : Option ProviderObservation)
    (c : ClassifiedProviderResult) (limit grace now attempt_id : ℕ) (w w' : World)
    (out : RecordedOutcome) (d : LookupDecision)
    → find_operation operation.id w ≡ some operation
    → find_attempt attempt_id w ≡ none
    → decide_lookup c operation.last_sent_at now grace
        (1 + count_lookups operation.id w.attempts)
        limit
        (next_lookup now (operation.attempt_count + 1))
      ≡ ok d
    → out ≡ record { attempt_id = attempt_id; action = d.action; review_reason = d.review_reason }
    → w'.attempts
      ≡ w.attempts ++ recorded_attempt codec operation observation c now attempt_id w d ∷ []
    → w'.operations ≡ put_operation (looked_up operation d) w.operations
    → IsRecorded codec operation observation c limit grace now w w' out
unfolding record_classification
IsRecorded-of_rows codec operation observation c limit grace now attempt_id w w' out d f fresh
      decided o a p =
    record {
      decision = d;
      decided = decided;
      action = rw o refl;
      reason = rw o refl;
      attempt = recorded_attempt codec operation observation c now attempt_id w d;
      found =
          rw (o, a)
            (find-append_new (recorded_attempt codec operation observation c now attempt_id w d)
              w.attempts fresh);
      owner = refl;
      signature = refl;
      classification = refl;
      code = refl;
      stored = (
        looked_up operation d,
        rw p (find-put_operation_self (looked_up operation d) w.operations operation f),
        refl,
      );
    }

-- The cases in which a lookup is recorded at all.
record_lookup_observation-open :
    (codec : Codec) (id : ℕ) (lease : Option ℕ) (observation : Option ProviderObservation)
    (c : ClassifiedProviderResult) (limit grace now attempt_id : ℕ) (w w' : World)
    (out : RecordedOutcome)
    → record_lookup_observation codec id lease observation c limit grace now attempt_id w
      ≡ ok (some out, w')
    → (operation : Operation) × (find_operation id w ≡ some operation)
      × (is_terminal operation.status ≡ false)
      × (holds_lease lease operation ≡ true)
      × (record_open_lookup codec operation observation c limit grace now attempt_id w
          ≡ ok (some out, w'))
unfolding record_lookup_observation
record_lookup_observation-open codec id lease observation c limit grace now attempt_id w w' out h =
    elim (Option-cases (find_operation id w)) [
      | inl n ↦ ground arith
      | inr (operation, f) ↦ (operation, f, ground arith, ground arith, ground arith)
    ]

pub record_lookup_observation-IsRecorded :
    (codec : Codec) (id : ℕ) (lease : Option ℕ) (observation : Option ProviderObservation)
    (c : ClassifiedProviderResult) (limit grace now attempt_id : ℕ) (w w' : World)
    (out : RecordedOutcome)
    → find_attempt attempt_id w ≡ none
    → record_lookup_observation codec id lease observation c limit grace now attempt_id w
      ≡ ok (some out, w')
    → (operation : Operation) × (find_operation id w ≡ some operation)
      × (is_terminal operation.status ≡ false)
      × (holds_lease lease operation ≡ true)
      × IsRecorded codec operation observation c limit grace now w w' out
record_lookup_observation-IsRecorded codec id lease observation c limit grace now attempt_id w w'
      out fresh h =
    let (operation, f, live, held, opened) =
      record_lookup_observation-open codec id lease observation c limit grace now attempt_id w w'
        out h in
    let (d, decided, o, a, p) =
      record_open_lookup-split codec operation observation c limit grace now attempt_id w w' out
        opened in
    let named = find-operation_id id w.operations operation f in
    (
      operation,
      f,
      live,
      held,
      IsRecorded-of_rows codec operation observation c limit grace now attempt_id w w' out d
          (subst (λ k. find_operation k w ≡ some operation) (sym named) f) fresh decided o a p,
    )
