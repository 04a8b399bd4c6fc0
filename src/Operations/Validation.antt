-- ===== src/Operations/Validation.antt =====
-- packages/relaypay/provider_operations/validation.py. The accounts, references and keys of an
-- answer are read as the numbers and keys they spell; the one currency is INR.
pub mod Sound
use Prim.Native.Nat.{Ordering}
use Prim.Native.Char.{code}
use Prim.Native.String.{compare}
use relaypay.Base.{
  ℕ, ◌+◌, String, Option, none, some, List, [], ◌∷◌, Bool, true, false, not, ◌&&◌, ◌||◌, ◌==◌,
  if◌then◌else◌, leb, ltb, is_some, is_blank,
}
use relaypay.Base.Int.{ℤ}
use relaypay.Ledger.Posting.{equal_ℤ}
use relaypay.Rows.{
  CommandKind, authorize, StableKey, authorize_key, capture_key, void_key, refund_key,
  ProviderRequest, Classification, ambiguous_transport, ambiguous_http_5xx, non_business_http_4xx,
  invalid_signature, invalid_schema, mismatched_evidence, verified_success,
  verified_business_decline, verified_pending, verified_not_found,
}

abbrev pub Bytes : Type 0
Bytes = List ℕ

-- `x == y` on strings
abbrev pub same_string : String → String → Bool
same_string s t = elim (compare s t) [ Ordering.eq ↦ true | _ ↦ false ]

-- The letters A to Z lowered; no other character lowers to one of the header's name.
abbrev pub lower_code : ℕ → ℕ
lower_code n = if leb 65 n && leb n 90 then n + 32 else n

-- `name.lower() == wanted`
abbrev pub lowers_to : String → String → Bool
lowers_to String.[] String.[] = true
lowers_to (String.◌∷◌ c s) (String.◌∷◌ d t) = lower_code (code c) == code d && lowers_to s t
lowers_to _ _ = false

abbrev pub same_kind : CommandKind → CommandKind → Bool
same_kind authorize authorize = true
same_kind CommandKind.capture CommandKind.capture = true
same_kind CommandKind.refund CommandKind.refund = true
same_kind CommandKind.void CommandKind.void = true
same_kind _ _ = false

abbrev pub same_key : StableKey → StableKey → Bool
same_key (authorize_key a) (authorize_key b) = a == b
same_key (capture_key a) (capture_key b) = a == b
same_key (void_key a) (void_key b) = a == b
same_key (refund_key a) (refund_key b) = a == b
same_key _ _ = false

-- `actual_identity == expected_identity`; the fields of `ExpectedProviderResult` are those of a request.
abbrev pub same_identity : ProviderRequest → ProviderRequest → Bool
same_identity a b =
    a.account_id == b.account_id
    && same_key a.stable_key b.stable_key
    && same_kind a.operation_kind b.operation_kind
    && a.reference == b.reference
    && equal_ℤ a.amount b.amount

pub data ProviderAction : Type 0 where
  finalize_success finalize_failure lookup processing review not_found : ProviderAction

pub data ProviderOutcome : Type 0 where
  pending succeeded declined : ProviderOutcome

pub record ProviderResult : Type 0 where
  pub identity : ProviderRequest
  pub outcome : ProviderOutcome
  pub decline_code : Option String
  pub effect_id : String

pub record ProviderNotFound : Type 0 where
  pub account_id : ℕ
  pub stable_key : StableKey

-- `outcome_is_consistent`
abbrev pub outcome_is_consistent : ProviderResult → Bool
outcome_is_consistent r = elim r.outcome [
  | ProviderOutcome.declined ↦ not (is_blank r.decline_code)
  | _ ↦ not (is_some r.decline_code)
]

pub record ProviderObservation : Type 0 where
  pub status_code : ℕ
  pub body : Bytes
  pub headers : List (String × String)

-- hmac with the signing secret, sha256, and pydantic's reading of a body's fields.
pub record Codec : Type 0 where
  pub hexdigest : Bytes → String
  pub sha256 : Bytes → ℕ
  pub parse_result : Bytes → Option ProviderResult
  pub parse_not_found : Bytes → Option ProviderNotFound

pub record ClassifiedProviderResult : Type 0 where
  pub action : ProviderAction
  pub classification : Classification
  pub signature_valid : Option Bool
  pub safe_error_code : Option String
  pub decline_code : Option String
  pub effect_id : Option String

-- `next(value for name, value in headers if name.lower() == ...)`
abbrev pub header : String → List (String × String) → Option String
header wanted [] = none
header wanted ((name, value) ∷ hs) = if lowers_to name wanted then some value else header wanted hs

-- `_signature_valid`
unfoldable pub signature_valid : Codec → ProviderObservation → Bool
signature_valid codec o = elim (header "x-provider-signature" o.headers) [
  | none ↦ false
  | some supplied ↦ same_string supplied (codec.hexdigest o.body)
]

-- `ProviderResult.model_validate_json`, `none` where it raises
unfoldable pub validate_result : Codec → Bytes → Option ProviderResult
validate_result codec body = elim (codec.parse_result body) [
  | none ↦ none
  | some r ↦ if outcome_is_consistent r then some r else none
]

abbrev pub classified :
    ProviderAction → Classification → Option Bool → Option String → ClassifiedProviderResult
classified action classification signature code = record {
  action = action;
  classification = classification;
  signature_valid = signature;
  safe_error_code = code;
  decline_code = none;
  effect_id = none;
}

-- `_classify_not_found`
unfoldable pub classify_not_found :
    Codec → ProviderRequest → ProviderObservation → Option ClassifiedProviderResult
unfolding signature_valid
classify_not_found codec expected o =
    if (elim o.body [ [] ↦ true | _ ∷ _ ↦ false ]) || not (signature_valid codec o)
    then none
    else elim (codec.parse_not_found o.body) [
      | none ↦ none
      | some answer ↦
          if answer.account_id == expected.account_id
            && same_key answer.stable_key expected.stable_key
          then some (
              classified ProviderAction.not_found verified_not_found (some true)
                (some "PROVIDER_EFFECT_NOT_FOUND"))
          else some (classified review mismatched_evidence (some true) (some "INVALID_EVIDENCE"))
    ]

abbrev pub transport_error_result : ClassifiedProviderResult
transport_error_result =
    classified lookup ambiguous_transport none (some "PROVIDER_TRANSPORT_ERROR")

-- What a signed answer of the expected identity means.
abbrev pub classify_outcome : ProviderResult → ClassifiedProviderResult
classify_outcome r = elim r.outcome [
  | ProviderOutcome.succeeded ↦
      record (classified finalize_success verified_success (some true) none) {
        effect_id = some r.effect_id;
      }
  | ProviderOutcome.declined ↦
      record (classified finalize_failure verified_business_decline (some true) none) {
        decline_code = r.decline_code;
        effect_id = some r.effect_id;
      }
  | ProviderOutcome.pending ↦ record (classified processing verified_pending (some true) none) {
    effect_id = some r.effect_id;
  }
]

-- The status is a success: the signature, the schema and the identity.
unfoldable pub classify_answer :
    Codec → ProviderRequest → ProviderObservation → ClassifiedProviderResult
unfolding signature_valid validate_result
classify_answer codec expected o =
    if not (signature_valid codec o)
    then classified review invalid_signature (some false) (some "INVALID_EVIDENCE")
    else elim (validate_result codec o.body) [
      | none ↦ classified review invalid_schema (some true) (some "INVALID_EVIDENCE")
      | some r ↦
          if same_identity r.identity expected
          then classify_outcome r
          else record (classified review mismatched_evidence (some true)
              (some "INVALID_EVIDENCE")) { effect_id = some r.effect_id }
    ]

-- Neither a server error nor an answer that is taken for a not-found.
abbrev pub classify_status :
    Codec → ProviderRequest → Bool → ProviderObservation → ClassifiedProviderResult
classify_status codec expected is_lookup o =
    if leb 200 o.status_code && ltb o.status_code 300
    then classify_answer codec expected o
    else classified (if is_lookup then processing else lookup) non_business_http_4xx none
        (some "PROVIDER_NON_BUSINESS_HTTP")

unfoldable pub classify_provider_observation :
    Codec → ProviderRequest → Bool → ProviderObservation → ClassifiedProviderResult
unfolding classify_not_found classify_answer
classify_provider_observation codec expected is_lookup o =
    if leb 500 o.status_code
    then classified (if is_lookup then processing else lookup) ambiguous_http_5xx none
        (some "PROVIDER_HTTP_5XX")
    else if is_lookup && o.status_code == 404
    then elim (classify_not_found codec expected o) [
      | none ↦ classify_status codec expected is_lookup o
      | some c ↦ c
    ]
    else classify_status codec expected is_lookup o
