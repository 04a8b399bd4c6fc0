-- ===== src/Payouts/Solvent/Retried.antt =====
-- What `create_retry` of payouts/service.py keeps.
use mathlib.Core.Path.{subst}
use relaypay.Base.{
  ℕ, ◌+◌, ◌≡◌, refl, ◌∙◌, inl, inr, some, [], ◌∷◌, ◌++◌, true, false, ok, arith, find, any,
  All-find, ◌==◌, Bool-cases, Option-cases, Result-cases,
}
use relaypay.Base.Int.{pos}
use relaypay.Ledger.Books.{reserved}
use relaypay.Ledger.Balances.{zero_add_ℤ}
use relaypay.Rows.{is_failed}
use relaypay.Payouts.{
  Payout, PayoutAttempt, Treasury, Beneficiary, CommandResult, reservation, check_coverage,
  attempt_row, attempt_collides_with, payout_body, find_payout, put_payout, last_number, is_command,
  restarted, insert_attempt, retry_payout, create_retry,
}
use relaypay.Payouts.Solvent.{held, IsSolvent, IsKept}
use relaypay.Payouts.Solvent.Reserved.{
  reservation-IsCovered, held_there-reservation, held_here-reservation, same-IsKept,
}
use relaypay.Payouts.Solvent.Retries.{Retry-IsKept}

-- The attempt that a retry makes.
abbrev retried : Payout → ℕ → ℕ → ℕ → Treasury → PayoutAttempt
retried p key_digest fingerprint attempt_id t =
    attempt_row attempt_id (restarted p) (last_number p.id t.attempts + 1)
      (some (key_digest, fingerprint))

module _ (p : Payout) (b : Beneficiary) (key_digest fingerprint attempt_id : ℕ) (t : Treasury)
    (result : CommandResult) (t' : Treasury)
    (h : insert_attempt p b key_digest fingerprint attempt_id t ≡ ok (result, t')) where
  abbrev a : PayoutAttempt
  a = retried p key_digest fingerprint attempt_id t

  insert_attempt-cases :
      (any (attempt_collides_with a) t.attempts ≡ false)
      × (check_coverage p.merchant_account_id (reservation (restarted p) reserved p.amount t.books)
          ≡ ok tt)
      × (t'.payouts ≡ put_payout (restarted p) t.payouts)
      × (t'.attempts
          ≡ t.attempts ++ record a { response = some (payout_body (restarted p) b a) } ∷ [])
      × (t'.books ≡ reservation (restarted p) reserved p.amount t.books)
  unfolding insert_attempt
  insert_attempt-cases = elim (Bool-cases (any (attempt_collides_with a) t.attempts)) [
    | inl f ↦ ground (arith, h, f)
    | inr f ↦
        elim (Result-cases (
          check_coverage p.merchant_account_id
            (reservation (restarted p) reserved p.amount t.books))) [
              | inl (_, k) ↦
                  (f, k, ground (arith, h, f, k), ground (arith, h, f, k), ground (arith, h, f, k))
              | inr (_, k) ↦ ground (arith, h, f, k)
            ]
  ]

  insert_attempt-IsKept :
      IsSolvent t → find_payout p.id t ≡ some p → is_failed p.status ≡ true → IsKept t t'
  insert_attempt-IsKept s found over =
      let (free, c, payouts, attempts, books) = insert_attempt-cases in
      let nothing : held p.id t.books.reservations ≡ pos 0 =
        s.holds p found ∙ ground (arith, over) in
      Retry-IsKept t t'
        (record {
          p = p;
          p' = restarted p;
          a = record a { response = some (payout_body (restarted p) b a) };
          found = found;
          same = refl;
          going = refl;
          of = refl;
          free = free;
          payouts = payouts;
          attempts = attempts;
          covered = λ n. rw books (
              reservation-IsCovered (restarted p) reserved p.amount t.books c (λ k _. s.covered k)
                n);
          held_here = rw books (
              held_here-reservation (restarted p) reserved p.amount (pos 0) p.amount t.books nothing
                (zero_add_ℤ p.amount));
          held_there = λ id e.
              rw books (held_there-reservation (restarted p) reserved p.amount t.books id e);
        })
        s

retry_payout-IsKept :
    (payout_public_id key_digest fingerprint attempt_id : ℕ) (t : Treasury) (result : CommandResult)
    (t' : Treasury)
    → IsSolvent t
    → retry_payout payout_public_id key_digest fingerprint attempt_id t ≡ ok (result, t')
    → IsKept t t'
unfolding retry_payout
retry_payout-IsKept payout_public_id key_digest fingerprint attempt_id t result t' s h =
    elim (Option-cases (find (λ q. q.public_id == payout_public_id) t.payouts)) [
      | inl e ↦ ground (arith, h, e)
      | inr (p, e) ↦
          let found =
            All-find (λ q. find_payout q.id t ≡ some q) (λ q. q.public_id == payout_public_id)
              t.payouts p e s.payouts_named in
          elim (Bool-cases (is_failed p.status)) [
            | inr f ↦ ground (arith, h, e, f)
            | inl f ↦ elim (Option-cases (find (λ x. x.id == p.beneficiary_id) t.beneficiaries)) [
              | inl u ↦ ground (arith, h, e, f, u)
              | inr (b, u) ↦
                  insert_attempt-IsKept p b key_digest fingerprint attempt_id t result t'
                    (ground (arith, h, e, f, u)) s found f
            ]
          ]
    ]

-- A retry that answers keeps the state solvent, whether it is made or is a replay.
pub create_retry-IsKept :
    (payout_public_id key_digest fingerprint attempt_id : ℕ) (t : Treasury) (result : CommandResult)
    (t' : Treasury)
    → IsSolvent t
    → create_retry payout_public_id key_digest fingerprint attempt_id t ≡ ok (result, t')
    → IsKept t t'
unfolding create_retry
create_retry-IsKept payout_public_id key_digest fingerprint attempt_id t result t' s h =
    elim (Option-cases (find (is_command key_digest) t.attempts)) [
      | inr (a, e) ↦
          let same : t ≡ t' = ground (arith, h, e) in subst (IsKept t) same (same-IsKept t s)
      | inl e ↦
          retry_payout-IsKept payout_public_id key_digest fingerprint attempt_id t result t' s
            (ground (arith, h, e))
    ]
