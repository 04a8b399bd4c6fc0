-- ===== src/Payouts/Send.antt =====
-- The send of an attempt: `prepare_attempt_send` of payouts/service.py.
use relaypay.Base.{
  ℕ, Option, none, some, List, [], ◌∷◌, ◌++◌, Bool, true, false, Result, ok, ◌>>=◌, or_raise,
  runtime_error, payout_not_found, ◌==◌, if◌then◌else◌, find, ltb, is_some,
}
use relaypay.Payouts.Tables.{
  StablePayoutKey, Payout, AttemptStatus, is_over, BankRequest, PayoutAttempt, mutation_send,
  Treasury, put_payout_attempt,
}

-- `order_by(attempt_number.desc()).limit(1)`
unfoldable pub latest_attempt : ℕ → List PayoutAttempt → Option PayoutAttempt
latest_attempt payout_id [] = none
latest_attempt payout_id (a ∷ as') =
    let rest = latest_attempt payout_id as' in
    if a.payout_id == payout_id
    then elim rest [
      | none ↦ some a
      | some b ↦ if ltb a.attempt_number b.attempt_number then some b else some a
    ]
    else rest

pub record PreparedAttempt : Type 0 where
  pub payout_id : ℕ
  pub attempt_id : ℕ
  pub stable_key : StablePayoutKey
  pub request : Option BankRequest
  pub lookup_only : Bool
  pub terminal : Bool

abbrev pub sent_attempt : BankRequest → ℕ → PayoutAttempt → PayoutAttempt
sent_attempt request now a = record a {
  request = some request;
  last_sent_at = some now;
  status = AttemptStatus.sent;
}

-- The first send of an attempt.
unfoldable pub send_attempt :
    Payout → PayoutAttempt → ℕ → ℕ → Treasury → Result (PreparedAttempt × Treasury)
send_attempt p a bank_account_id now t = do
  b ← or_raise (find (λ x. x.id == p.beneficiary_id) t.beneficiaries) runtime_error
  let request : BankRequest = record {
    account_id = bank_account_id;
    amount = p.amount;
    beneficiary_reference = b.bank_account_reference;
    payout_reference = p.public_id;
    stable_key = a.stable_provider_key;
  }
  ok (
    record {
      payout_id = p.id;
      attempt_id = a.id;
      stable_key = a.stable_provider_key;
      request = some request;
      lookup_only = false;
      terminal = false;
    },
    record t {
      attempts = put_payout_attempt (sent_attempt request now a) t.attempts;
      evidence =
          t.evidence
          ++ (record {
            payout_attempt_id = a.id;
            sequence = 1;
            evidence_kind = mutation_send;
            classification = none;
          })
            ∷ [];
    },
  )

unfoldable pub prepare_attempt_send : ℕ → ℕ → ℕ → Treasury → Result (PreparedAttempt × Treasury)
prepare_attempt_send payout_public_id bank_account_id now t = do
  p ← or_raise (find (λ q. q.public_id == payout_public_id) t.payouts) payout_not_found
  a ← or_raise (latest_attempt p.id t.attempts) runtime_error
  if is_over a.status
      then ok (
        record {
          payout_id = p.id;
          attempt_id = a.id;
          stable_key = a.stable_provider_key;
          request = none;
          lookup_only = true;
          terminal = true;
        },
        t,
      )
      else if is_some a.last_sent_at
      then (do
        request ← or_raise a.request runtime_error
        ok (
          record {
            payout_id = p.id;
            attempt_id = a.id;
            stable_key = a.stable_provider_key;
            request = some request;
            lookup_only = true;
            terminal = false;
          },
          t,
        ))
      else send_attempt p a bank_account_id now t
