-- ===== src/Operations/Validation/Sound.antt =====
-- What a finalizing classification rests on: provider_operations/validation.py.
use mathlib.Core.Path.{subst}
use relaypay.Base.{
  ◌≡◌, ◌≤◌, ◌<◌, some, Bool, true, false, arith, Option-cases, Bool-cases, inl, inr, ◌⊎◌, refl, sym,
  is_blank, leb, ltb, ◌&&◌, ◌==◌,
}
use relaypay.Rows.{ProviderRequest, is_final, is_success}
use relaypay.Operations.Validation.{
  same_identity, ProviderAction, finalize_success, finalize_failure, ProviderOutcome,
  ProviderResult, ProviderObservation, Codec, ClassifiedProviderResult, signature_valid,
  validate_result, outcome_is_consistent, classify_outcome, classify_answer, classify_not_found,
  classify_status, classify_provider_observation,
}

abbrev pub finalizes : ProviderAction → Bool
finalizes finalize_success = true
finalizes finalize_failure = true
finalizes _ = false

-- The evidence behind a finalizing classification.
pub record IsProof (codec : Codec) (expected : ProviderRequest) (o : ProviderObservation)
    (c : ClassifiedProviderResult) : Type 0 where
  pub success_status : (200 ≤ o.status_code) × (o.status_code < 300)
  pub signed : signature_valid codec o ≡ true
  pub answer : ProviderResult
  pub valid : validate_result codec o.body ≡ some answer
  pub identity : same_identity answer.identity expected ≡ true
  pub same : c ≡ classify_outcome answer

validate_result-consistent :
    (codec : Codec) (o : ProviderObservation) (r : ProviderResult)
    → validate_result codec o.body ≡ some r
    → outcome_is_consistent r ≡ true
unfolding validate_result
validate_result-consistent codec o r h = ground arith

classify_not_found-finalizes :
    (codec : Codec) (expected : ProviderRequest) (o : ProviderObservation)
    (c : ClassifiedProviderResult)
    → classify_not_found codec expected o ≡ some c
    → finalizes c.action ≡ false
unfolding classify_not_found
classify_not_found-finalizes codec expected o c h = ground arith

classify_answer-IsProof :
    (codec : Codec) (expected : ProviderRequest) (o : ProviderObservation)
    → (200 ≤ o.status_code) × (o.status_code < 300)
    → finalizes (classify_answer codec expected o).action ≡ true
    → IsProof codec expected o (classify_answer codec expected o)
unfolding classify_answer
classify_answer-IsProof codec expected o status h =
    elim (Option-cases (validate_result codec o.body)) [
      | inl e ↦ ground arith
      | inr (r, e) ↦ record {
        success_status = status;
        signed = ground arith;
        answer = r;
        valid = e;
        identity = ground arith;
        same = ground arith;
      }
    ]

classify_status-IsProof :
    (codec : Codec) (expected : ProviderRequest) (is_lookup : Bool) (o : ProviderObservation)
    → finalizes (classify_status codec expected is_lookup o).action ≡ true
    → IsProof codec expected o (classify_status codec expected is_lookup o)
classify_status-IsProof codec expected is_lookup o h =
    elim (Bool-cases (leb 200 o.status_code && ltb o.status_code 300)) [
      | inl e ↦
          rw e (classify_answer-IsProof codec expected o (ground arith, ground arith) (rw e at h))
      | inr e ↦ ground arith
    ]

-- A finalizing action comes only from an answer with a status of success, whose signature is that
-- of its body, that passes the schema, and whose account, stable key, kind, reference and amount
-- are those expected; and the classification is then the one of that answer's outcome.
pub classify_provider_observation-IsProof :
    (codec : Codec) (expected : ProviderRequest) (is_lookup : Bool) (o : ProviderObservation)
    → finalizes (classify_provider_observation codec expected is_lookup o).action ≡ true
    → IsProof codec expected o (classify_provider_observation codec expected is_lookup o)
unfolding classify_provider_observation
classify_provider_observation-IsProof codec expected is_lookup o h =
    elim (Bool-cases (leb 500 o.status_code)) [
      | inl e ↦ ground arith
      | inr e ↦ elim (Bool-cases (is_lookup && o.status_code == 404)) [
        | inl f ↦ elim (Option-cases (classify_not_found codec expected o)) [
          | inl n ↦
              rw (e, f, n) (classify_status-IsProof codec expected is_lookup o (rw (e, f, n) at h))
          | inr (c, n) ↦ ground (arith, classify_not_found-finalizes codec expected o c n)
        ]
        | inr f ↦ rw (e, f) (classify_status-IsProof codec expected is_lookup o (rw (e, f) at h))
      ]
    ]

-- The evidence of a finalizing classification as the finalizer reads it: a valid signature, a
-- final classification that is a success exactly for the success, and for a failure a code.
pub record IsEvidence (c : ClassifiedProviderResult) : Type 0 where
  pub signed : c.signature_valid ≡ some true
  pub final : is_final c.classification ≡ true
  pub success : (is_success c.classification ≡ true) ⊎ (is_blank c.decline_code ≡ false)

outcome_cases :
    (x : ProviderOutcome)
    → (x ≡ ProviderOutcome.succeeded)
      ⊎ (x ≡ ProviderOutcome.declined)
      ⊎ (x ≡ ProviderOutcome.pending)
outcome_cases ProviderOutcome.succeeded = inl refl
outcome_cases ProviderOutcome.declined = inr (inl refl)
outcome_cases ProviderOutcome.pending = inr (inr refl)

classify_outcome-IsEvidence :
    (r : ProviderResult)
    → outcome_is_consistent r ≡ true
    → finalizes (classify_outcome r).action ≡ true
    → IsEvidence (classify_outcome r)
classify_outcome-IsEvidence r consistent h = elim (outcome_cases r.outcome) [
  | inl s ↦ record { signed = ground arith; final = ground arith; success = inl (ground arith) }
  | inr (inl d) ↦ record {
    signed = ground arith;
    final = ground arith;
    success = inr (ground arith);
  }
  | inr (inr p) ↦ ground arith
]

pub classify_provider_observation-IsEvidence :
    (codec : Codec) (expected : ProviderRequest) (is_lookup : Bool) (o : ProviderObservation)
    → finalizes (classify_provider_observation codec expected is_lookup o).action ≡ true
    → IsEvidence (classify_provider_observation codec expected is_lookup o)
classify_provider_observation-IsEvidence codec expected is_lookup o h =
    let p = classify_provider_observation-IsProof codec expected is_lookup o h in
    subst IsEvidence (sym p.same) (
      classify_outcome-IsEvidence p.answer (validate_result-consistent codec o p.answer p.valid)
        (subst (λ c. finalizes c.action ≡ true) p.same h))
