-- ===== src/Payouts/Verified.antt =====
-- What stands behind an answer that decides an attempt: `_classify` of payouts/service.py.
use relaypay.Base.{
  ok, ok-inj, ◌∙◌, ℕ, ◌≡◌, refl, sym, ap, inl, inr, Option, none, some, Bool, true, false, ◌&&◌,
  arith, Bool-cases, ==_iff, ◌==◌, ◌||◌, leb,
}
use relaypay.Operations.Validation.{same_string, ProviderObservation}
use relaypay.Base.Int.{ℤ}
use relaypay.Ledger.Posting.{equal_ℤ}
use relaypay.Payouts.{
  DeclineValue, Loaded, not_json, not_object, object, classify_loaded, StablePayoutKey,
  same_payout_key, BankRequest, BankResponse, BankCodec, BankClassification, is_value, is_expected,
  is_signed, decline_of, classify_response, classify_observation, classify_bank, is_empty,
}

module _ {A : Type 0} where
  is_value-some :
      (same : A → A → Bool) (a : A) (o : Option A)
      → ((b : A) → same a b ≡ true → a ≡ b)
      → is_value same a o ≡ true
      → o ≡ some a
  is_value-some same a none f h = cc
  is_value-some same a (some b) f h = ap some (sym (f b h))

equal_ℤ-eq : (a b : ℤ) → equal_ℤ a b ≡ true → a ≡ b
equal_ℤ-eq a b h = ground (arith, h)

both : (a b : Bool) → (a && b) ≡ true → (a ≡ true) × (b ≡ true)
both a b h = (ground (arith, h), ground (arith, h))

same_payout_key-eq : (k l : StablePayoutKey) → same_payout_key k l ≡ true → k ≡ l
same_payout_key-eq k l h = ground (arith, h)

-- The fields of a response are those of the request.
pub record SameFields (request : BankRequest) (r : BankResponse) : Type 0 where
  pub account_id : r.account_id ≡ some request.account_id
  pub amount : r.amount ≡ some request.amount
  pub beneficiary_reference : r.beneficiary_reference ≡ some request.beneficiary_reference
  pub currency : is_value same_string "INR" r.currency ≡ true
  pub payout_reference : r.payout_reference ≡ some request.payout_reference
  pub stable_key : r.stable_key ≡ some request.stable_key

is_expected-SameFields :
    (request : BankRequest) (r : BankResponse) → is_expected request r ≡ true → SameFields request r
is_expected-SameFields request r h =
    let (h', k) = both _ _ h in
    let (h'', p) = both _ _ h' in
    let (h₃, c) = both _ _ h'' in
    let (h₄, b) = both _ _ h₃ in
    let (a, m) = both _ _ h₄ in
    record {
      account_id =
          is_value-some (λ x y. x == y) request.account_id r.account_id
            (λ y e. (==_iff request.account_id y).0 e) a;
      amount = is_value-some equal_ℤ request.amount r.amount (equal_ℤ-eq request.amount) m;
      beneficiary_reference =
          is_value-some (λ x y. x == y) request.beneficiary_reference r.beneficiary_reference
            (λ y e. (==_iff request.beneficiary_reference y).0 e) b;
      currency = c;
      payout_reference =
          is_value-some (λ x y. x == y) request.payout_reference r.payout_reference
            (λ y e. (==_iff request.payout_reference y).0 e) p;
      stable_key =
          is_value-some same_payout_key request.stable_key r.stable_key
            (same_payout_key-eq request.stable_key) k;
    }

-- The evidence behind an answer that decides.
pub record IsVerified (codec : BankCodec) (request : BankRequest) (o : ProviderObservation)
    (c : BankClassification) : Type 0 where
  pub signed : is_signed codec o ≡ true
  pub response : BankResponse
  pub read : codec.loads o.body ≡ object response
  pub expected : SameFields request response
  pub outcome : c.succeeded ≡ is_value same_string "SUCCEEDED" response.outcome
  pub terminal : c.terminal ≡ true
  pub signature : c.signature_valid ≡ some true

module _ (request : BankRequest) (status_code : ℕ) (r : BankResponse) where
  classify_response-decided :
      (classify_response request status_code r).ambiguous ≡ false
      → (is_expected request r ≡ true)
        × ((classify_response request status_code r).succeeded
            ≡ is_value same_string "SUCCEEDED" r.outcome)
        × ((classify_response request status_code r).terminal ≡ true)
        × ((classify_response request status_code r).signature_valid ≡ some true)
  unfolding classify_response
  classify_response-decided h =
      elim (Bool-cases (status_code == 404 && is_value same_string "NOT_FOUND" r.outcome)) [
        | inl e ↦ let undecided_here = rw e at h in ground (arith, undecided_here)
        | inr e ↦ elim (Bool-cases (is_expected request r)) [
          | inr f ↦ let undecided_here = rw (e, f) at h in ground (arith, undecided_here)
          | inl f ↦ elim (Bool-cases (is_value same_string "SUCCEEDED" r.outcome)) [
            | inl g ↦ rw (e, f, g) (refl, refl, refl, refl)
            | inr g ↦ elim (Bool-cases (is_value same_string "DECLINED" r.outcome)) [
              | inl k ↦
                  let (x, y, z) = declined r.decline (rw (e, f, g, k) at h) in
                  rw (e, f, g, k) (refl, x, y, z)
              | inr k ↦ let undecided_here = rw (e, f, g, k) at h in ground (arith, undecided_here)
            ]
          ]
        ]
      ]
    where
      declined :
          (code : Option DeclineValue)
          → (decline_of code).ambiguous ≡ false
          → ((decline_of code).succeeded ≡ false)
            × ((decline_of code).terminal ≡ true)
            × ((decline_of code).signature_valid ≡ some true)
      declined none h = ground (arith, h)
      declined (some code) h = elim (Bool-cases code.is_true) [
        | inl e ↦ rw e (refl, refl, refl)
        | inr e ↦ let undecided_here = rw e at h in ground (arith, undecided_here)
      ]

-- A body that decides is an object.
classify_loaded-object :
    (request : BankRequest) (status_code : ℕ) (l : Loaded) (c : BankClassification)
    → classify_loaded (some request) status_code l ≡ ok c
    → c.ambiguous ≡ false
    → (r : BankResponse) × (l ≡ object r) × (classify_response request status_code r ≡ c)
classify_loaded-object request status_code not_json c h d = ground (arith, h, d)
classify_loaded-object request status_code not_object c h d = ground (arith, h)
classify_loaded-object request status_code (object r) c h d = (r, refl, ok-inj h)

-- What `_classify` makes of an answer is not ambiguous only if the answer came, its signature is that of
-- its body, its body is read, and the account, the amount, the beneficiary, the currency, the payout
-- and the stable key in it are those of the request; it is then a success exactly if the answer says
-- that it succeeded. (A not-found is ambiguous here; `record_bank_observation` fails the attempt on one
-- that is signed, once the grace period is over.)
pub classify_bank-IsVerified :
    (codec : BankCodec) (request : BankRequest) (observation : Option ProviderObservation)
    (c : BankClassification)
    → classify_bank codec (some request) observation ≡ ok c
    → c.ambiguous ≡ false
    → (o : ProviderObservation) × (observation ≡ some o) × IsVerified codec request o c
unfolding classify_bank classify_observation
classify_bank-IsVerified codec request none c h d = ground (arith, h, d)
classify_bank-IsVerified codec request (some o) c h d =
    elim (Bool-cases (leb 500 o.status_code || is_empty o.body)) [
      | inl e ↦ let undecided_here = ok-inj (rw e at h) in ground (arith, undecided_here, d)
      | inr e ↦ elim (Bool-cases (is_signed codec o)) [
        | inr f ↦ let undecided_here = ok-inj (rw (e, f) at h) in ground (arith, undecided_here, d)
        | inl f ↦
            let (r, g, same) =
              classify_loaded-object request o.status_code (codec.loads o.body) c (rw (e, f) at h)
                d in
            let (x, y, z, w) =
              classify_response-decided request o.status_code r (ap (λ v. v.ambiguous) same ∙ d) in
            (
              o,
              refl,
              record {
                signed = f;
                response = r;
                read = g;
                expected = is_expected-SameFields request r x;
                outcome = ap (λ v. v.succeeded) (sym same) ∙ y;
                terminal = ap (λ v. v.terminal) (sym same) ∙ z;
                signature = ap (λ v. v.signature_valid) (sym same) ∙ w;
              },
            )
      ]
    ]
