-- ===== src/Payouts/Solvent/Observed.antt =====
-- What `record_bank_observation` of payouts/service.py keeps.
use mathlib.Core.Path.{subst}
use relaypay.Base.{
  ℕ, ◌≡◌, refl, sym, ◌∙◌, inl, inr, none, some, List, Bool, false, ok, arith, find, ◌==◌,
  Bool-cases, Option-cases, Result-cases, ok-inj,
}
use relaypay.Base.Int.{ℤ, pos, neg, neg_parts, ◌+ℤ◌, int_laws}
use relaypay.Ledger.Books.{Books, released, consumed}
use relaypay.Ledger.Sources.{IsCovered}
use relaypay.Rows.{OperationStatus, is_terminal}
use relaypay.Payouts.{
  Payout, PayoutAttempt, is_over, PayoutAttemptEvidence, Treasury, Beneficiary, BankClassification,
  PreparedAttempt, reservation, check_coverage, find_payout, find_payout_attempt, payout_books,
  write_outcome, payout_body, append_evidence, settled_classification, review_payout, fail_payout,
  pay_payout, settle_payout, record_bank_observation,
}
use relaypay.Payouts.Solvent.{held, due, IsLive, IsSolvent, IsKept}
use relaypay.Payouts.Solvent.Reserved.{
  reservation-IsCovered, held_there-reservation, held_here-reservation, same-IsKept,
}
use relaypay.Payouts.Solvent.Outcomes.{OutcomeWrites-IsKept}
use relaypay.Payouts.Solvent.Named.{found_id}
use relaypay.Payouts.Solvent.Paid.{payout_books-IsCovered, payout_books-held}

add_neg : (a : ℤ) → a +ℤ neg a ≡ pos 0
add_neg a = omega (int_laws, neg_parts a)

-- The attempt that is written has the id and the payout of the one found, and `a'` and `p'` agree.
observed-IsKept :
    (p p' : Payout) (a a' : PayoutAttempt) (b : Beneficiary) (t t₁ : Treasury)
    → find_payout p.id t ≡ some p
    → IsLive a t
    → a.payout_id ≡ p.id
    → p'.id ≡ p.id
    → a'.id ≡ a.id
    → a'.payout_id ≡ a.payout_id
    → is_over a'.status ≡ is_terminal p'.status
    → t₁.payouts ≡ t.payouts
    → t₁.attempts ≡ t.attempts
    → ((m : ℕ) → IsCovered m t₁.books)
    → held p.id t₁.books.reservations ≡ due p'
    → ((id : ℕ)
        → (id == p.id) ≡ false
        → held id t₁.books.reservations ≡ held id t.books.reservations)
    → IsSolvent t
    → IsKept t (write_outcome p' a' b t₁)
observed-IsKept p p' a a' b t t₁ found live of same_payout same_attempt of' over payouts attempts
      covered here there s =
    OutcomeWrites-IsKept t (write_outcome p' a' b t₁)
      (record {
        p = p;
        p' = record p' { response = some (200, payout_body p' b a') };
        a = a;
        a' = a';
        found = found;
        live = live;
        of = of;
        same_payout = same_payout;
        same_attempt = same_attempt;
        of' = of';
        over = over;
        payouts = rw payouts refl;
        attempts = rw attempts refl;
        covered = covered;
        held_here = here;
        held_there = there;
      })
      s

module _ (p : Payout) (a : PayoutAttempt) (b : Beneficiary) (c : BankClassification)
    (now journal_id : ℕ) (t : Treasury) (evidence : List PayoutAttemptEvidence)
    (found : find_payout p.id t ≡ some p) (live : IsLive a t) (of : a.payout_id ≡ p.id)
    (s : IsSolvent t) where
  under_way_here : is_terminal p.status ≡ false
  under_way_here = s.under_way a p live (subst (λ k. find_payout k t ≡ some p) (sym of) found)

  held_amount : held p.id t.books.reservations ≡ p.amount
  held_amount = s.holds p found ∙ rw under_way_here refl

  abbrev t₁ : Treasury
  t₁ = record t { evidence = evidence }

  review_payout-IsKept : (t' : Treasury) → review_payout p a b c t₁ ≡ ok t' → IsKept t t'
  unfolding review_payout
  review_payout-IsKept t' h = subst (IsKept t) (ok-inj h) (
      observed-IsKept p
        (record p { status = OperationStatus.requires_review; review_reason = c.code }) a _ b t _
        found live of refl refl refl refl refl refl s.covered held_amount (λ _ _. refl) s)

  fail_payout-IsKept : (t' : Treasury) → fail_payout p a b c now t₁ ≡ ok t' → IsKept t t'
  unfolding fail_payout
  fail_payout-IsKept t' h =
      let books : Books = reservation p released (neg p.amount) t.books in
      elim (Result-cases (check_coverage p.merchant_account_id books)) [
        | inr (_, e) ↦ ground (arith, h, e)
        | inl (_, e) ↦ subst (IsKept t) (ok-inj (rw e at h)) (
            observed-IsKept p
              (record p {
                status = OperationStatus.failed;
                failure_code = c.code;
                review_reason = none;
                completed_at = some now;
              })
              a _ b t _ found live of refl refl refl refl refl refl
              (λ n.
                reservation-IsCovered p released (neg p.amount) t.books e (λ k _. s.covered k) n)
              (held_here-reservation p released (neg p.amount) p.amount (pos 0) t.books held_amount
                (add_neg p.amount))
              (λ id other. held_there-reservation p released (neg p.amount) t.books id other) s)
      ]

  pay_payout-IsKept : (t' : Treasury) → pay_payout p a b now journal_id t₁ ≡ ok t' → IsKept t t'
  unfolding pay_payout
  pay_payout-IsKept t' h = elim (Result-cases (payout_books p journal_id t.books)) [
    | inr (_, e) ↦ ground (arith, h, e)
    | inl ((journal, books), e) ↦ subst (IsKept t) (ok-inj (rw e at h)) (
        observed-IsKept p
          (record p {
            status = OperationStatus.succeeded;
            review_reason = none;
            journal_id = some journal;
            completed_at = some now;
          })
          a _ b t _ found live of refl refl refl refl refl refl
          (payout_books-IsCovered p journal_id t.books journal books e s.covered)
          (payout_books-held p journal_id t.books journal books p.id e
            ∙ held_here-reservation p consumed (neg p.amount) p.amount (pos 0) t.books held_amount
                (add_neg p.amount))
          (λ id other.
            payout_books-held p journal_id t.books journal books id e
            ∙ held_there-reservation p consumed (neg p.amount) t.books id other)
          s)
  ]

  settle_payout-IsKept :
      (t' : Treasury) → settle_payout p a b c now journal_id t₁ ≡ ok t' → IsKept t t'
  unfolding settle_payout
  settle_payout-IsKept t' h = elim (Bool-cases c.ambiguous) [
    | inl e ↦ review_payout-IsKept t' (rw e at h)
    | inr e ↦ elim (Bool-cases c.succeeded) [
      | inl f ↦ pay_payout-IsKept t' (rw (e, f) at h)
      | inr f ↦ fail_payout-IsKept t' (rw (e, f) at h)
    ]
  ]

pub append_evidence-cases :
    (a : PayoutAttempt) (lookup_only : Bool) (c : BankClassification) (t t' : Treasury)
    → append_evidence a lookup_only c t ≡ ok t'
    → (evidence : List PayoutAttemptEvidence) × (t' ≡ record t { evidence = evidence })
unfolding append_evidence
append_evidence-cases a lookup_only c t t' h = (t'.evidence, ground (arith, h))

-- An answer that is recorded keeps the state solvent, if the attempt that was prepared is one of the
-- payout that was prepared.
pub record_bank_observation-IsKept :
    (prepared : PreparedAttempt) (classification : BankClassification) (grace now journal_id : ℕ)
    (t t' : Treasury) (a : PayoutAttempt)
    → find_payout_attempt prepared.attempt_id t ≡ some a
    → a.payout_id ≡ prepared.payout_id
    → IsSolvent t
    → record_bank_observation prepared classification grace now journal_id t ≡ ok t'
    → IsKept t t'
unfolding record_bank_observation
record_bank_observation-IsKept prepared classification grace now journal_id t t' a f of s h =
    elim (Option-cases (find_payout prepared.payout_id t)) [
      | inl e ↦ ground (arith, h, e)
      | inr (p, e) ↦ elim (Bool-cases (is_over a.status)) [
        | inl g ↦
            let same : t ≡ t' = ground (arith, h, e, f, g) in
            subst (IsKept t) same (same-IsKept t s)
        | inr g ↦
            let c : BankClassification = settled_classification classification a grace now in
            elim (Result-cases (append_evidence a prepared.lookup_only c t)) [
              | inr (_, k) ↦ ground (arith, h, e, f, g, k)
              | inl (t₁, k) ↦
                  elim (Option-cases (find (λ x. x.id == p.beneficiary_id) t.beneficiaries)) [
                    | inl u ↦ ground (arith, h, e, f, g, k, u)
                    | inr (b, u) ↦
                        let same_id : p.id ≡ prepared.payout_id =
                          found_id (λ q. q.id) p prepared.payout_id t.payouts e in
                        let named : a.id ≡ prepared.attempt_id =
                          found_id (λ y. y.id) a prepared.attempt_id t.attempts f in
                        let (evidence, w) = append_evidence-cases a prepared.lookup_only c t t₁ k in
                        let settled : settle_payout p a b c now journal_id t₁ ≡ ok t' =
                          ground (arith, h, e, f, g, k, u) in
                        settle_payout-IsKept p a b c now journal_id t evidence
                          (subst (λ i. find_payout i t ≡ some p) (sym same_id) e)
                          (subst (λ i. find_payout_attempt i t ≡ some a) (sym named) f, g)
                          (of ∙ sym same_id) s t'
                          (subst (λ z. settle_payout p a b c now journal_id z ≡ ok t') w settled)
                  ]
            ]
      ]
    ]
