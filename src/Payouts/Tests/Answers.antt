-- ===== src/Payouts/Tests/Answers.antt =====
-- The reading of an answer of the bank at concrete values.
use relaypay.Base.{ok, ℕ, ◌≡◌, refl, String, none, some, [], ◌∷◌, true, false}
use relaypay.Base.Int.{pos}
use relaypay.Operations.Validation.{Bytes, ProviderObservation}
use relaypay.Payouts.{
  BankClassification, not_json, object, undecided, signature_invalid, BankRequest, BankResponse,
  BankCodec, effect_not_found, transport_ambiguous, classify_bank, classify_observation,
  classify_response,
}
use relaypay.Payouts.Verified.{IsVerified, classify_bank-IsVerified}

abbrev request : BankRequest
request = record {
  account_id = 99;
  amount = pos 700;
  beneficiary_reference = 400;
  payout_reference = 500;
  stable_key = record { payout = 500; number = 1 };
}

abbrev success : BankResponse
success = record {
  keys = [];
  account_id = some 99;
  amount = some (pos 700);
  beneficiary_reference = some 400;
  currency = some "INR";
  payout_reference = some 500;
  stable_key = some (record { payout = 500; number = 1 });
  outcome = some "SUCCEEDED";
  decline = none;
}

abbrev absent : BankResponse
absent = record success {
  keys = "stableKey" ∷ "accountId" ∷ "outcome" ∷ [];
  amount = none;
  outcome = some "NOT_FOUND";
}

-- A body of one byte is a success, any other a not-found.
abbrev codec : BankCodec
codec = record {
  hexdigest = λ body. "f0";
  loads = λ body. elim body [
    | [] ↦ not_json
    | b ∷ rest ↦ elim rest [ [] ↦ object success | _ ∷ _ ↦ object absent ]
  ];
}

abbrev answer : ℕ → Bytes → String → ProviderObservation
answer status body signature = record {
  status_code = status;
  body = body;
  headers = ("X-Bank-Signature", signature) ∷ [];
}

abbrev paid_answer : BankClassification
paid_answer = record {
  terminal = true;
  succeeded = true;
  ambiguous = false;
  signature_valid = some true;
  code = none;
}

paid : classify_bank codec (some request) (some (answer 200 (1 ∷ []) "f0")) ≡ ok paid_answer
unfolding classify_bank classify_observation classify_response
paid = refl

forged :
    classify_bank codec (some request) (some (answer 200 (1 ∷ []) "f1"))
    ≡ ok (undecided (some false) signature_invalid)
unfolding classify_bank classify_observation classify_response
forged = refl

not_found :
    classify_bank codec (some request) (some (answer 404 (1 ∷ 2 ∷ []) "f0"))
    ≡ ok (undecided (some true) effect_not_found)
unfolding classify_bank classify_observation classify_response
not_found = refl

no_answer : classify_bank codec (some request) none ≡ ok (undecided none transport_ambiguous)
unfolding classify_bank classify_observation classify_response
no_answer = refl

classify_bank-IsVerified_example :
    (o : ProviderObservation) × (some (answer 200 (1 ∷ []) "f0") ≡ some o)
    × IsVerified codec request o paid_answer
unfolding classify_bank classify_observation classify_response
classify_bank-IsVerified_example =
    classify_bank-IsVerified codec request (some (answer 200 (1 ∷ []) "f0")) paid_answer refl refl
