-- ===== src/Payouts/Bank.antt =====
-- The reading of the bank's answer and the dispatch of an attempt: `_classify` and
-- `dispatch_payout_attempt` of payouts/service.py. The crash points do nothing.
use relaypay.Base.{
  ℕ, String, Option, none, some, List, [], ◌∷◌, Bool, true, false, not, ◌&&◌, ◌||◌, ◌==◌, Result,
  ok, err, attribute_error, ◌>>=◌, if◌then◌else◌, leb, any,
}
use relaypay.Base.Int.{ℤ}
use relaypay.Ledger.Posting.{equal_ℤ}
use relaypay.Operations.Validation.{Bytes, same_string, header, ProviderObservation}
use relaypay.Payouts.Tables.{
  StablePayoutKey, BankCode, transport_ambiguous, signature_invalid, response_invalid,
  response_mismatched, effect_not_found, outcome_pending, decline_code, BankRequest,
  BankClassification, Treasury,
}
use relaypay.Payouts.Send.{prepare_attempt_send}
use relaypay.Payouts.Settle.{record_bank_observation}

-- The value of `declineCode`, of any type: its truth, and `str` of it.
pub record DeclineValue : Type 0 where
  pub is_true : Bool
  pub printed : String

-- A JSON object, with `get` of the fields that are read; a field of another type is no value.
pub record BankResponse : Type 0 where
  pub keys : List String
  pub account_id : Option ℕ
  pub amount : Option ℤ
  pub beneficiary_reference : Option ℕ
  pub currency : Option String
  pub payout_reference : Option ℕ
  pub stable_key : Option StablePayoutKey
  pub outcome : Option String
  pub decline : Option DeclineValue

-- What `json.loads` makes of a body: it raises, or gives an object or another value.
pub data Loaded : Type 0 where
  not_json not_object : Loaded
  object : BankResponse → Loaded

-- The keyed hash under the bank's secret, and `json.loads`.
pub record BankCodec : Type 0 where
  pub hexdigest : Bytes → String
  pub loads : Bytes → Loaded

abbrev pub same_payout_key : StablePayoutKey → StablePayoutKey → Bool
same_payout_key k l = k.payout == l.payout && k.number == l.number

module _ {A : Type 0} where
  abbrev pub is_value : (A → A → Bool) → A → Option A → Bool
  is_value same a none = false
  is_value same a (some b) = same a b

-- `set(response) == {"accountId", "outcome", "stableKey"}`
abbrev pub not_found_keys : List String → Bool
not_found_keys keys =
    any (same_string "accountId") keys
    && any (same_string "outcome") keys
    && any (same_string "stableKey") keys
    && not (
        any
          (λ k.
            not (same_string k "accountId" || same_string k "outcome" || same_string k "stableKey"))
          keys)

-- `expected_fields`
abbrev pub is_expected : BankRequest → BankResponse → Bool
is_expected request r =
    is_value (λ x y. x == y) request.account_id r.account_id
    && is_value equal_ℤ request.amount r.amount
    && is_value (λ x y. x == y) request.beneficiary_reference r.beneficiary_reference
    && is_value same_string "INR" r.currency
    && is_value (λ x y. x == y) request.payout_reference r.payout_reference
    && is_value same_payout_key request.stable_key r.stable_key

-- The order of the fields is that of the dataclass.
abbrev pub undecided : Option Bool → BankCode → BankClassification
undecided signature code = record {
  terminal = false;
  succeeded = false;
  ambiguous = true;
  signature_valid = signature;
  code = some code;
}

abbrev pub definite : Bool → Option BankCode → BankClassification
definite succeeded code = record {
  terminal = true;
  succeeded = succeeded;
  ambiguous = false;
  signature_valid = some true;
  code = code;
}

abbrev pub is_signed : BankCodec → ProviderObservation → Bool
is_signed codec o = elim (header "x-bank-signature" o.headers) [
  | none ↦ false
  | some provided ↦ same_string provided (codec.hexdigest o.body)
]

abbrev pub decline_of : Option DeclineValue → BankClassification
decline_of none = undecided (some true) outcome_pending
decline_of (some code) =
    if code.is_true
    then definite false (some (decline_code code.printed))
    else undecided (some true) outcome_pending

-- A response that is signed and readable.
unfoldable pub classify_response : BankRequest → ℕ → BankResponse → BankClassification
classify_response request status_code r =
    if status_code == 404 && is_value same_string "NOT_FOUND" r.outcome
    then (if is_value (λ x y. x == y) request.account_id r.account_id
          && is_value same_payout_key request.stable_key r.stable_key
          && not_found_keys r.keys
        then undecided (some true) effect_not_found
        else undecided (some true) response_mismatched)
    else if not (is_expected request r)
    then undecided (some true) response_mismatched
    else if is_value same_string "SUCCEEDED" r.outcome
    then definite true none
    else if is_value same_string "DECLINED" r.outcome
    then decline_of r.decline
    else undecided (some true) outcome_pending

abbrev pub is_empty : Bytes → Bool
is_empty [] = true
is_empty (b ∷ bs) = false

-- A body that was loaded; `b""` is no request. The method `get` of another value than an object raises.
abbrev pub classify_loaded : Option BankRequest → ℕ → Loaded → Result BankClassification
classify_loaded expected status_code not_json = ok (undecided (some true) response_invalid)
classify_loaded none status_code _ = ok (undecided (some true) response_invalid)
classify_loaded (some request) status_code not_object = err attribute_error
classify_loaded (some request) status_code (object r) = ok (classify_response request status_code r)

-- An answer that came.
unfoldable pub classify_observation :
    BankCodec → Option BankRequest → ProviderObservation → Result BankClassification
unfolding classify_response
classify_observation codec expected o =
    if leb 500 o.status_code || is_empty o.body
    then ok (undecided none transport_ambiguous)
    else if not (is_signed codec o)
    then ok (undecided (some false) signature_invalid)
    else classify_loaded expected o.status_code (codec.loads o.body)

-- `_classify`
unfoldable pub classify_bank :
    BankCodec → Option BankRequest → Option ProviderObservation → Result BankClassification
unfolding classify_observation
classify_bank codec expected none = ok (undecided none transport_ambiguous)
classify_bank codec expected (some o) = classify_observation codec expected o

-- `BankTransport`, `none` where a call raises
pub record BankTransport : Type 0 where
  pub mutate : Option BankRequest → Option ProviderObservation
  pub look_up : ℕ → StablePayoutKey → Option ProviderObservation

-- `now` and `later` are the clocks of the two transactions.
unfoldable pub dispatch_payout_attempt :
    BankCodec → BankTransport → ℕ → ℕ → ℕ → ℕ → ℕ → ℕ → Treasury → Result Treasury
unfolding prepare_attempt_send record_bank_observation classify_bank
dispatch_payout_attempt codec transport payout_public_id bank_account_id grace now later journal_id
      t =
    do
      (prepared, t') ← prepare_attempt_send payout_public_id bank_account_id now t
      if prepared.terminal then ok t' else (do
        let observation =
            if prepared.lookup_only
            then transport.look_up bank_account_id prepared.stable_key
            else transport.mutate prepared.request
        classification ← classify_bank codec prepared.request observation
        record_bank_observation prepared classification grace later journal_id t')
