-- ===== src/Payouts/Tests.antt =====
-- Payouts at concrete values.
mod Answers
use relaypay.Base.{
  ◌≡◌, refl, none, some, List, [], ◌∷◌, Bool, true, false, ok, err, Result, arith, ◌==◌,
}
use relaypay.Base.Int.{pos, ◌+ℤ◌, ◌-ℤ◌}
use relaypay.Ledger.Books.{
  debit, credit, platform, merchant, pending_payable_liability, available_payable_liability,
  merchant_receivable_asset, payout_clearing_asset, provider_clearing_asset, credit_balance,
  require, account,
}
use relaypay.Ledger.Posting.{moves_nothing, post_journal, total}
use relaypay.Ledger.Refund.{reservation_sum, reserved_payout_amount}
use relaypay.Rows.{OperationStatus}
use relaypay.Payouts.{
  Payout, Treasury, row_lock, PayoutRequest, NewPayout, CommandResult, PreparedAttempt,
  BankClassification, create_payout_in, create_retry, prepare_attempt_send, record_bank_observation,
  derive_balances, reservation, last_sequence, advance, advance_version, insert_payout,
  insert_attempt, latest_attempt, send_attempt, put_payout, put_payout_attempt, retry_payout,
  last_number, append_evidence, last_evidence, settle_payout, review_payout, fail_payout,
  pay_payout, payout_books,
}
use relaypay.Payouts.Solvent.{held, IsSolvent}
use relaypay.Payouts.Solvent.Answered.{IsDecided, record_bank_observation-IsDecided}
use relaypay.Payouts.Solvent.Runs.{
  create, try_again, send, observe, PayoutRun, stop, step, IsSound, PayoutRun-IsSound,
}

-- A merchant with 1000 available.
abbrev opening : Treasury
opening = record {
  beneficiaries =
      record { id = 4; public_id = 40; bank_account_reference = 400; is_active = true } ∷ [];
  merchants = record { id = 1; public_id = 10; balance_version = 0; is_active = true } ∷ [];
  payouts = [];
  attempts = [];
  evidence = [];
  history = [];
  events = [];
  books = record {
    accounts =
        merchant pending_payable_liability 1
        ∷ merchant available_payable_liability 1
        ∷ merchant merchant_receivable_asset 1
        ∷ merchant payout_clearing_asset 1
        ∷ [];
    journals = [];
    postings =
        (record {
          journal_id = 90;
          account = platform provider_clearing_asset;
          side = debit;
          amount = pos 1000;
        })
        ∷ (record {
          journal_id = 90;
          account = merchant available_payable_liability 1;
          side = credit;
          amount = pos 1000;
        })
        ∷ [];
    balance_transactions = [];
    settlement_items = [];
    reservations = [];
  };
}

abbrev payout_request : PayoutRequest
payout_request = record {
  merchant_public_id = 10;
  beneficiary_public_id = 40;
  amount = pos 700;
  key_digest = 7;
  fingerprint_sha256 = 8;
}

abbrev new_ids : NewPayout
new_ids = record { payout_id = 50; payout_public_id = 500; attempt_id = 60 }

abbrev declined : BankClassification
declined = record {
  terminal = true;
  succeeded = false;
  ambiguous = false;
  signature_valid = some true;
  code = none;
}

abbrev paid : BankClassification
paid = record declined { succeeded = true }

abbrev fallback : {A : Type 0} → A → Result A → A
fallback a (ok b) = b
fallback a (err e) = a

abbrev is_first : PreparedAttempt → Bool
is_first p = p.attempt_id == 60

abbrev is_second : PreparedAttempt → Bool
is_second p = p.attempt_id == 61

opening-IsSolvent : IsSolvent opening
unfolding credit_balance held reservation_sum ◌+ℤ◌
opening-IsSolvent = record {
  payouts_named = tt;
  attempts_named = tt;
  covered = λ m. ground arith;
  holds = λ p f. ground (arith, f);
  absent = λ id f. refl;
  owned = λ a f. ground (arith, f);
  under_way = λ a p l f. ground (arith, f);
  single = λ a b l k e. ground (arith, l);
}

opening-IsSound : IsSound (record { treasury = opening; prepared = [] })
opening-IsSound = record { solvent = opening-IsSolvent; sends = tt }

abbrev no_answer : CommandResult
no_answer = record {
  status_code = 0;
  body = record {
    amount = pos 0;
    attempt_number = 0;
    beneficiary_id = 0;
    failure_code = none;
    id = 0;
    review_reason = none;
    stable_provider_key = record { payout = 0; number = 0 };
    status = OperationStatus.failed;
  };
  replayed = false;
}

abbrev no_send : PreparedAttempt
no_send = record {
  payout_id = 0;
  attempt_id = 0;
  stable_key = record { payout = 0; number = 0 };
  request = none;
  lookup_only = true;
  terminal = true;
}

-- A payout is created, sent and declined, tried again, sent again and paid.
abbrev created : CommandResult × Treasury
created =
    fallback (no_answer, opening) (create_payout_in row_lock payout_request new_ids opening opening)

abbrev sent_once : PreparedAttempt × Treasury
sent_once = fallback (no_send, opening) (prepare_attempt_send 500 99 1000 created.1)

abbrev failed_once : Treasury
failed_once =
    fallback opening (record_bank_observation sent_once.0 declined 600 1010 91 sent_once.1)

abbrev tried_again : CommandResult × Treasury
tried_again = fallback (no_answer, opening) (create_retry 500 17 18 61 failed_once)

abbrev sent_twice : PreparedAttempt × Treasury
sent_twice = fallback (no_send, opening) (prepare_attempt_send 500 99 2000 tried_again.1)

abbrev paid_out : Treasury
paid_out = fallback opening (record_bank_observation sent_twice.0 paid 600 2010 91 sent_twice.1)

abbrev sends : List PreparedAttempt
sends = sent_twice.0 ∷ sent_once.0 ∷ []

payout_run :
    PayoutRun
      (record { treasury = opening; prepared = [] })
      (record { treasury = paid_out; prepared = sends })
unfolding moves_nothing create_payout_in create_retry prepare_attempt_send record_bank_observation
    derive_balances require account reserved_payout_amount reservation_sum ◌-ℤ◌ ◌+ℤ◌ credit_balance
    reservation last_sequence advance advance_version insert_payout insert_attempt latest_attempt
    send_attempt put_payout put_payout_attempt retry_payout last_number post_journal total
    append_evidence last_evidence settle_payout review_payout fail_payout pay_payout payout_books
payout_run =
    step _ _ _ (create row_lock payout_request new_ids opening opening created.1 created.0 [] refl)
      (step _ _ _ (send 500 99 1000 created.1 sent_once.1 sent_once.0 [] refl) (
        step _ _ _
          (observe is_first sent_once.0 declined 600 1010 91 sent_once.1 failed_once
            (sent_once.0 ∷ []) refl refl)
          (step _ _ _
            (try_again 500 17 18 61 failed_once tried_again.1 tried_again.0 (sent_once.0 ∷ []) refl)
            (step _ _ _
              (send 500 99 2000 tried_again.1 sent_twice.1 sent_twice.0 (sent_once.0 ∷ []) refl)
              (step _ _ _
                (observe is_second sent_twice.0 paid 600 2010 91 sent_twice.1 paid_out sends refl
                  refl)
                (stop _))))))

PayoutRun-IsSound_example : IsSound (record { treasury = paid_out; prepared = sends })
PayoutRun-IsSound_example =
    PayoutRun-IsSound (record { treasury = opening; prepared = [] })
      (record { treasury = paid_out; prepared = sends }) payout_run opening-IsSound

first_run :
    PayoutRun
      (record { treasury = opening; prepared = [] })
      (record { treasury = sent_once.1; prepared = sent_once.0 ∷ [] })
unfolding moves_nothing create_payout_in create_retry prepare_attempt_send record_bank_observation
    derive_balances require account reserved_payout_amount reservation_sum ◌-ℤ◌ ◌+ℤ◌ credit_balance
    reservation last_sequence advance advance_version insert_payout insert_attempt latest_attempt
    send_attempt put_payout put_payout_attempt retry_payout last_number post_journal total
    append_evidence last_evidence settle_payout review_payout fail_payout pay_payout payout_books
first_run =
    step _ _ _ (create row_lock payout_request new_ids opening opening created.1 created.0 [] refl)
      (step _ _ _ (send 500 99 1000 created.1 sent_once.1 sent_once.0 [] refl) (stop _))

abbrev payout_under_way : Payout
payout_under_way = record {
  id = 50;
  public_id = 500;
  merchant_account_id = 1;
  beneficiary_id = 4;
  amount = pos 700;
  status = OperationStatus.processing;
  failure_code = none;
  review_reason = none;
  journal_id = none;
  idempotency_key_digest = 7;
  fingerprint_sha256 = 8;
  response = some (202, created.0.body);
  completed_at = none;
}

-- The first send of the payout is answered with a success.
record_bank_observation-IsDecided_example :
    (t' : Treasury) × (record_bank_observation sent_once.0 paid 600 1010 91 sent_once.1 ≡ ok t')
    × IsDecided 50 OperationStatus.succeeded t'
    × (held 50 t'.books.reservations ≡ pos 0)
unfolding moves_nothing create_payout_in create_retry prepare_attempt_send record_bank_observation
    derive_balances require account reserved_payout_amount reservation_sum ◌-ℤ◌ ◌+ℤ◌ credit_balance
    reservation last_sequence advance advance_version insert_payout insert_attempt latest_attempt
    send_attempt put_payout put_payout_attempt retry_payout last_number post_journal total
    append_evidence last_evidence settle_payout review_payout fail_payout pay_payout payout_books
record_bank_observation-IsDecided_example =
    record_bank_observation-IsDecided sent_once.0 paid 600 1010 91 sent_once.1 payout_under_way _ _
      _
      (PayoutRun-IsSound (record { treasury = opening; prepared = [] })
        (record { treasury = sent_once.1; prepared = sent_once.0 ∷ [] }) first_run
        opening-IsSound).solvent
      refl refl refl refl refl refl (ground arith) refl refl refl refl
