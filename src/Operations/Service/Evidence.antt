-- ===== src/Operations/Service/Evidence.antt =====
-- From a recorded lookup to the finalizer's checks: provider_operations/service.py and finalizer.py.
use mathlib.Core.Path.{subst}
use relaypay.Base.{
  ℕ, ◌+◌, ◌≤◌, ◌<◌, ◌≡◌, refl, ap, ◌∙◌, ◌⊎◌, inl, inr, Option, none, some, Bool, true, false, ok,
  arith, Option-cases, Bool-cases, is_blank, sym, leb, ltb, ◌&&◌, ◌==◌, String, ==_refl, ◌≢◌,
}
use relaypay.Rows.{
  is_final, is_success, Actor, Operation, Attempt, World, find_operation, find_attempt,
  verified_not_found, verified_not_found_final, Classification,
}
use relaypay.Operations.Resources.{Outcome}
use relaypay.Operations.Finalizer.{judge}
use relaypay.Operations.Validation.{
  finalize_failure, processing, not_found, ProviderObservation, Codec, ClassifiedProviderResult,
  classified, classify_not_found, classify_status, classify_answer, classify_provider_observation,
}
use relaypay.Rows.{ProviderRequest}
use relaypay.Operations.Validation.Sound.{finalizes, classify_provider_observation-IsEvidence}
use relaypay.Operations.Service.Records.{
  RecordedOutcome, or_else, LookupDecision, decide_lookup, record_lookup_observation,
}
use relaypay.Operations.Service.Lookups.{
  record_lookup_observation-IsRecorded, decide_not_found-grace,
}

abbrev signed_not_found : ClassifiedProviderResult
signed_not_found =
    classified not_found verified_not_found (some true) (some "PROVIDER_EFFECT_NOT_FOUND")

-- The one classification with the action NOT_FOUND.
classify_not_found-signed :
    (codec : Codec) (expected : ProviderRequest) (o : ProviderObservation)
    (c : ClassifiedProviderResult)
    → classify_not_found codec expected o ≡ some c
    → c.action ≡ not_found
    → c ≡ signed_not_found
unfolding classify_not_found
classify_not_found-signed codec expected o c h a = ground arith

classify_answer-never :
    (codec : Codec) (expected : ProviderRequest) (o : ProviderObservation)
    → (classify_answer codec expected o).action ≢ not_found
unfolding classify_answer
classify_answer-never codec expected o h = ground arith

classify_status-never :
    (codec : Codec) (expected : ProviderRequest) (is_lookup : Bool) (o : ProviderObservation)
    → (classify_status codec expected is_lookup o).action ≢ not_found
classify_status-never codec expected is_lookup o h =
    elim (Bool-cases (leb 200 o.status_code && ltb o.status_code 300)) [
      | inl e ↦ classify_answer-never codec expected o (rw e at h)
      | inr e ↦ ground arith
    ]

classify-signed :
    (codec : Codec) (expected : ProviderRequest) (is_lookup : Bool) (o : ProviderObservation)
    → (classify_provider_observation codec expected is_lookup o).action ≡ not_found
    → classify_provider_observation codec expected is_lookup o ≡ signed_not_found
unfolding classify_provider_observation
classify-signed codec expected is_lookup o h = elim (Bool-cases (leb 500 o.status_code)) [
  | inl e ↦ ground arith
  | inr e ↦ elim (Bool-cases (is_lookup && o.status_code == 404)) [
    | inl f ↦ elim (Option-cases (classify_not_found codec expected o)) [
      | inl n ↦ elim (classify_status-never codec expected is_lookup o (rw (e, f, n) at h)) [ ]
      | inr (c, n) ↦
          rw (e, f, n) (classify_not_found-signed codec expected o c n (rw (e, f, n) at h))
    ]
    | inr f ↦ elim (classify_status-never codec expected is_lookup o (rw (e, f) at h)) [ ]
  ]
]

-- A signed NOT_FOUND, once it is recorded, fails the operation exactly if the grace period since
-- the recorded send is over; before that the operation stays open, and its next lookup is due by
-- the end of the period.
pub record_lookup_observation-grace :
    (codec : Codec) (id : ℕ) (lease : Option ℕ) (observation : Option ProviderObservation)
    (c : ClassifiedProviderResult) (limit grace now attempt_id : ℕ) (w w' : World)
    (out : RecordedOutcome)
    → find_attempt attempt_id w ≡ none
    → c.action ≡ not_found
    → record_lookup_observation codec id lease observation c limit grace now attempt_id w
      ≡ ok (some out, w')
    → (operation : Operation) × (sent_at next : ℕ) × (operation' : Operation) × (find_operation id w
        ≡ some operation)
      × (operation.last_sent_at ≡ some sent_at)
      × (find_operation operation.id w' ≡ some operation')
      × (operation'.next_lookup_at ≡ some next)
      × ((sent_at + grace ≤ now) × (out.action ≡ finalize_failure)
          ⊎ (now < sent_at + grace) × (out.action ≡ processing) × (next ≤ sent_at + grace))
record_lookup_observation-grace codec id lease observation c limit grace now attempt_id w w' out
      fresh nf h =
    let (operation, f, _, _, r) =
      record_lookup_observation-IsRecorded codec id lease observation c limit grace now attempt_id w
        w' out fresh h in
    let (sent_at, sent, cases) =
      decide_not_found-grace c operation.last_sent_at now grace _ limit _ r.decision nf r.decided in
    let (operation', stored, due) = r.stored in
    (
      operation,
      sent_at,
      r.decision.next_lookup_at,
      operation',
      f,
      sent,
      stored,
      due,
      rw r.action cases,
    )

judge-accepts :
    (operation : Operation) (attempt : Attempt) (k : Classification) (actor : Actor)
    (now journal : ℕ)
    → attempt.provider_operation_id ≡ operation.id
    → attempt.provider_signature_valid ≡ some true
    → attempt.classification ≡ some k
    → is_final k ≡ true
    → (is_success k ≡ true) ⊎ (is_blank attempt.safe_error_code ≡ false)
    → (o : Outcome) × (judge operation (some attempt) actor now journal ≡ ok (attempt, o))
unfolding judge
judge-accepts operation attempt k actor now journal owner sig cl final code =
    elim (Bool-cases (is_success k)) [
      | inl s ↦ (
        record {
          succeeded = true;
          failure_code = none;
          now = now;
          journal_id = journal;
          actor = actor;
        },
        rw (owner, sig, cl, final, s, ==_refl operation.id) refl,
      )
      | inr s ↦
          let named : is_blank attempt.safe_error_code ≡ false = ground (arith, code, s) in
          (
            record {
              succeeded = false;
              failure_code = attempt.safe_error_code;
              now = now;
              journal_id = journal;
              actor = actor;
            },
            rw (owner, sig, cl, final, s, ==_refl operation.id, named) refl,
          )
    ]

decide_lookup-finalizes :
    (c : ClassifiedProviderResult) (last_sent_at : Option ℕ) (now grace count limit next : ℕ)
    (d : LookupDecision)
    → decide_lookup c last_sent_at now grace count limit next ≡ ok d
    → finalizes d.action ≡ true
    → (c.action ≡ not_found) × (d.classification ≡ verified_not_found_final)
      ⊎ (finalizes c.action ≡ true) × (d.classification ≡ c.classification)
unfolding decide_lookup
decide_lookup-finalizes c last_sent_at now grace count limit next d h f = ground arith

-- The code that a recorded attempt takes from a classification.
abbrev code_of : ClassifiedProviderResult → Option String
code_of c = or_else c.decline_code c.safe_error_code

or_else-blank : (a b : Option String) → is_blank a ≡ false → is_blank (or_else a b) ≡ false
or_else-blank a b h = rw h h

module _ (codec : Codec) (expected : ProviderRequest) (o : ProviderObservation) where
  abbrev seen : ClassifiedProviderResult
  seen = classify_provider_observation codec expected true o

  lookup-judged :
      (operation : Operation) (attempt : Attempt) (d : LookupDecision) (actor : Actor)
      (last_sent_at : Option ℕ) (now now' journal grace count limit next : ℕ)
      → decide_lookup seen last_sent_at now grace count limit next ≡ ok d
      → finalizes d.action ≡ true
      → attempt.provider_operation_id ≡ operation.id
      → attempt.provider_signature_valid ≡ seen.signature_valid
      → attempt.classification ≡ some d.classification
      → attempt.safe_error_code ≡ code_of seen
      → (out : Outcome) × (judge operation (some attempt) actor now' journal ≡ ok (attempt, out))
  lookup-judged operation attempt d actor last_sent_at now now' journal grace count limit next
        decided f owner sig cl code =
      elim (decide_lookup-finalizes seen last_sent_at now grace count limit next d decided f) [
        | inl (nf, k) ↦
            let signed = classify-signed codec expected true o nf in
            judge-accepts operation attempt verified_not_found_final actor now' journal owner
              (sig ∙ ap (λ c. c.signature_valid) signed) (cl ∙ ap some k) refl
              (inr (ap is_blank (code ∙ ap code_of signed)))
        | inr (finals, k) ↦
            let e = classify_provider_observation-IsEvidence codec expected true o finals in
            judge-accepts operation attempt seen.classification actor now' journal owner
              (sig ∙ e.signed) (cl ∙ ap some k) e.final
              (elim e.success [
                | inl s ↦ inl s
                | inr s ↦
                    inr (ap is_blank code ∙ or_else-blank seen.decline_code seen.safe_error_code s)
              ])
      ]

-- A lookup whose recorded outcome is to finalize passes every check on the evidence that the
-- finalizer makes, at whatever later time it looks: the attempt is found, is of the operation, is
-- signed, is final, and has a code if it is a failure.
pub record_lookup_observation-accepted :
    (codec : Codec) (expected : ProviderRequest) (o : ProviderObservation) (id : ℕ)
    (lease : Option ℕ) (limit grace now now' journal attempt_id : ℕ) (actor : Actor) (w w' : World)
    (out : RecordedOutcome)
    → find_attempt attempt_id w ≡ none
    → record_lookup_observation codec id lease
        (some o)
        (classify_provider_observation codec expected true o)
        limit
        grace
        now
        attempt_id
        w
      ≡ ok (some out, w')
    → finalizes out.action ≡ true
    → (operation : Operation) × (attempt : Attempt) × (outcome : Outcome) × (find_operation id w
        ≡ some operation)
      × (judge operation (find_attempt out.attempt_id w') actor now' journal
          ≡ ok (attempt, outcome))
record_lookup_observation-accepted codec expected o id lease limit grace now now' journal attempt_id
      actor w w' out fresh h f =
    let (operation, at, _, _, r) =
      record_lookup_observation-IsRecorded codec id lease (some o)
        (classify_provider_observation codec expected true o) limit grace now attempt_id w w' out
        fresh h in
    let (outcome, judged) =
      lookup-judged codec expected o operation r.attempt r.decision actor operation.last_sent_at now
        now' journal grace _ limit _ r.decided (subst (λ a. finalizes a ≡ true) r.action f) r.owner
        r.signature r.classification r.code in
    (
      operation,
      r.attempt,
      outcome,
      at,
      subst (λ a. judge operation a actor now' journal ≡ ok (r.attempt, outcome)) (sym r.found)
          judged,
    )
