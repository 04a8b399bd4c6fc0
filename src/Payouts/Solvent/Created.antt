-- ===== src/Payouts/Solvent/Created.antt =====
-- What the writes of `create_payout` and `create_retry` of payouts/service.py keep.
use mathlib.Core.Path.{subst}
use relaypay.Base.{
  ◌≡◌, refl, inl, inr, none, some, List, [], ◌∷◌, ◌++◌, false, ok, arith, find, any, ◌==◌,
  Bool-cases, Option-cases, Result-cases,
}
use relaypay.Base.Int.{pos}
use relaypay.Ledger.Books.{reserved}
use relaypay.Ledger.Balances.{zero_add_ℤ}
use relaypay.Payouts.{
  Payout, PayoutAttempt, Treasury, MerchantAccount, Beneficiary, PayoutRequest, NewPayout,
  CommandResult, ReservationGuard, reservation, check_coverage, payout_row, attempt_row,
  payout_collides, attempt_collides_with, insert_payout, advance, payout_body, find_payout,
  find_beneficiary, find_merchant, create_payout_in,
}
use relaypay.Payouts.Solvent.{IsSolvent, IsKept}
use relaypay.Payouts.Solvent.Reserved.{
  reservation-IsCovered, held_there-reservation, held_here-reservation, same-IsKept,
}
use relaypay.Payouts.Solvent.Inserts.{Creation-IsKept}

not-payout_collides :
    (p : Payout) (ps : List Payout)
    → any (payout_collides p) ps ≡ false
    → find (λ q. q.id == p.id) ps ≡ none
not-payout_collides p [] h = refl
not-payout_collides p (q ∷ qs) h = ground (arith, h, not-payout_collides p qs)

module _ (guard : ReservationGuard) (request : PayoutRequest) (new : NewPayout)
    (read : MerchantAccount) (b : Beneficiary) (t : Treasury) where
  abbrev p : Payout
  p = payout_row request new read b

  abbrev a : PayoutAttempt
  a = attempt_row new.attempt_id p 1 none

  insert_payout-cases :
      (result : CommandResult) (t' : Treasury)
      → insert_payout guard request new read b t ≡ ok (result, t')
      → (any (payout_collides p) t.payouts ≡ false)
        × (any (attempt_collides_with a) t.attempts ≡ false)
        × (check_coverage p.merchant_account_id (reservation p reserved p.amount t.books) ≡ ok tt)
        × (t'.payouts ≡ t.payouts ++ record p { response = some (202, payout_body p b a) } ∷ [])
        × (t'.attempts ≡ t.attempts ++ a ∷ [])
        × (t'.books ≡ reservation p reserved p.amount t.books)
  unfolding insert_payout
  insert_payout-cases result t' h = elim (Bool-cases (any (payout_collides p) t.payouts)) [
    | inl e ↦ ground (arith, h, e)
    | inr e ↦ elim (Bool-cases (any (attempt_collides_with a) t.attempts)) [
      | inl f ↦ ground (arith, h, e, f)
      | inr f ↦ elim (Result-cases (advance guard read t.merchants)) [
        | inl (ms, g) ↦
            elim (Result-cases
              (check_coverage p.merchant_account_id (reservation p reserved p.amount t.books))) [
                | inl (_, k) ↦ (
                  e,
                  f,
                  k,
                  ground (arith, h, e, f, g, k),
                  ground (arith, h, e, f, g, k),
                  ground (arith, h, e, f, g, k),
                )
                | inr (_, k) ↦ ground (arith, h, e, f, g, k)
              ]
        | inr (_, g) ↦ ground (arith, h, e, f, g)
      ]
    ]
  ]

  insert_payout-IsKept :
      (result : CommandResult) (t' : Treasury)
      → IsSolvent t
      → insert_payout guard request new read b t ≡ ok (result, t')
      → IsKept t t'
  insert_payout-IsKept result t' s h =
      let (fresh, free, c, payouts, attempts, books) = insert_payout-cases result t' h in
      let none_yet : find_payout p.id t ≡ none = not-payout_collides p t.payouts fresh in
      Creation-IsKept t t'
        (record {
          p = record p { response = some (202, payout_body p b a) };
          a = a;
          new = none_yet;
          free = free;
          of = refl;
          going = refl;
          payouts = payouts;
          attempts = attempts;
          covered = λ n.
              rw books (reservation-IsCovered p reserved p.amount t.books c (λ k _. s.covered k) n);
          held_here = rw books (
              held_here-reservation p reserved p.amount (pos 0) p.amount t.books
                (s.absent p.id none_yet) (zero_add_ℤ p.amount));
          held_there = λ id e. rw books (held_there-reservation p reserved p.amount t.books id e);
        })
        s

-- A call of `_create_payout_transaction` that answers keeps the state solvent, a replay and every
-- guard included.
pub create_payout_in-IsKept :
    (guard : ReservationGuard) (request : PayoutRequest) (new : NewPayout) (seen t : Treasury)
    (result : CommandResult) (t' : Treasury)
    → IsSolvent t
    → create_payout_in guard request new seen t ≡ ok (result, t')
    → IsKept t t'
unfolding create_payout_in
create_payout_in-IsKept guard request new seen t result t' s h =
    elim (Option-cases (find (λ p. p.idempotency_key_digest == request.key_digest) t.payouts)) [
      | inr (p, e) ↦
          let same : t ≡ t' = ground (arith, h, e) in subst (IsKept t) same (same-IsKept t s)
      | inl e ↦ elim (Option-cases (find_beneficiary request.beneficiary_public_id t)) [
        | inl f ↦ ground (arith, h, e, f)
        | inr (b, f) ↦ elim (Option-cases (find_merchant request.merchant_public_id seen)) [
          | inl g ↦ ground (arith, h, e, f, g)
          | inr (read, g) ↦
              insert_payout-IsKept guard request new read b t result t' s
                (ground (arith, h, e, f, g))
        ]
      ]
    ]
