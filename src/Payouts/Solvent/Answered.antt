-- ===== src/Payouts/Solvent/Answered.antt =====
-- A verified answer of the bank is recorded while the attempt is under way: `record_bank_observation`
-- of payouts/service.py.
use mathlib.Core.Path.{subst}
use relaypay.Base.{
  ℕ, ◌≡◌, refl, sym, ◌∙◌, inl, inr, none, some, List, Bool, true, false, ok, arith, find, any, ◌==◌,
  Bool-cases, Result-cases, ok-inj, if◌then◌else◌,
}
use relaypay.Base.Int.{pos, neg, ◌≤ℤ◌}
use relaypay.Ledger.Books.{
  JournalType, released, merchant, available_payable_liability, payout_clearing_asset, require,
}
use relaypay.Ledger.Posting.{collides}
use relaypay.Ledger.Sources.{IsCovered}
use relaypay.Rows.{OperationStatus, is_terminal}
use relaypay.Payouts.{
  Payout, PayoutAttempt, is_over, Treasury, Beneficiary, BankRequest, BankClassification,
  PreparedAttempt, PayoutAttemptEvidence, reservation, find_payout, find_payout_attempt,
  append_evidence, settled_classification, settle_payout, fail_payout, pay_payout,
  record_bank_observation,
}
use relaypay.Payouts.Solvent.{held, IsSolvent}
use relaypay.Payouts.Solvent.Found.{find-put_payout_self}
use relaypay.Payouts.Solvent.Named.{found_id}
use relaypay.Payouts.Solvent.Observed.{append_evidence-cases, record_bank_observation-IsKept}
use relaypay.Payouts.Solvent.Booked.{check_coverage_lem, released-IsCovered, payout_books_lem}

settled_classification-decided :
    (c : BankClassification) (a : PayoutAttempt) (grace now : ℕ)
    → c.ambiguous ≡ false
    → (settled_classification c a grace now).ambiguous ≡ false
settled_classification-decided c a grace now h = ground (arith, h)

-- The payout is given the status.
abbrev pub IsDecided : ℕ → OperationStatus → Treasury → Type 0
IsDecided id status t = (q : Payout) × (find_payout id t ≡ some q) × (q.status ≡ status)

module _ (p : Payout) (a : PayoutAttempt) (b : Beneficiary) (c : BankClassification)
    (now journal_id : ℕ) (t : Treasury) (found : find_payout p.id t ≡ some p)
    (positive : pos 1 ≤ℤ p.amount) (covered : IsCovered p.merchant_account_id t.books) where
  fail_payout-IsDecided :
      (t' : Treasury) × (fail_payout p a b c now t ≡ ok t')
      × IsDecided p.id OperationStatus.failed t'
  unfolding fail_payout
  fail_payout-IsDecided =
      let f =
        check_coverage_lem p.merchant_account_id (reservation p released (neg p.amount) t.books)
          (released-IsCovered p t.books (omega (arith, positive)) covered) in
      elim (Result-cases (fail_payout p a b c now t)) [
        | inl (t', h) ↦ (
          t',
          h,
          subst (IsDecided p.id OperationStatus.failed) (ok-inj (rw f at h))
              (_, find-put_payout_self _ p t.payouts refl found, refl),
        )
        | inr (_, h) ↦ let refused = rw f at h in ground (arith, refused)
      ]

  pay_payout-IsDecided :
      any (collides none JournalType.payout p.id) t.books.journals ≡ false
      → require (merchant available_payable_liability p.merchant_account_id) t.books ≡ ok tt
      → require (merchant payout_clearing_asset p.merchant_account_id) t.books ≡ ok tt
      → (t' : Treasury) × (pay_payout p a b now journal_id t ≡ ok t')
        × IsDecided p.id OperationStatus.succeeded t'
  unfolding pay_payout
  pay_payout-IsDecided fresh r r' =
      let ((journal, books), f) =
        payout_books_lem p journal_id t.books positive fresh r r' covered in
      elim (Result-cases (pay_payout p a b now journal_id t)) [
        | inl (t', h) ↦ (
          t',
          h,
          subst (IsDecided p.id OperationStatus.succeeded) (ok-inj (rw f at h))
              (_, find-put_payout_self _ p t.payouts refl found, refl),
        )
        | inr (_, h) ↦ let refused = rw f at h in ground (arith, refused)
      ]

  settle_payout-IsDecided :
      c.ambiguous ≡ false
      → any (collides none JournalType.payout p.id) t.books.journals ≡ false
      → require (merchant available_payable_liability p.merchant_account_id) t.books ≡ ok tt
      → require (merchant payout_clearing_asset p.merchant_account_id) t.books ≡ ok tt
      → (t' : Treasury) × (settle_payout p a b c now journal_id t ≡ ok t')
        × IsDecided p.id
            (if c.succeeded then OperationStatus.succeeded else OperationStatus.failed)
            t'
  unfolding settle_payout
  settle_payout-IsDecided decided fresh r r' = elim (Bool-cases c.succeeded) [
    | inl e ↦ rw (decided, e) (pay_payout-IsDecided fresh r r')
    | inr e ↦ rw (decided, e) fail_payout-IsDecided
  ]

append_evidence-answers :
    (a : PayoutAttempt) (lookup_only : Bool) (c : BankClassification) (t : Treasury)
    (request : BankRequest)
    → a.request ≡ some request
    → (t₁ : Treasury) × (append_evidence a lookup_only c t ≡ ok t₁)
      × (evidence : List PayoutAttemptEvidence) × (t₁ ≡ record t { evidence = evidence })
unfolding append_evidence
append_evidence-answers a lookup_only c t request sent =
    elim (Result-cases (append_evidence a lookup_only c t)) [
      | inl (t₁, k) ↦
          let (evidence, w) = append_evidence-cases a lookup_only c t t₁ k in (t₁, k, evidence, w)
      | inr (_, k) ↦ ground (arith, sent, k)
    ]

-- Nothing is reserved for a payout that is decided.
nothing_held :
    (id : ℕ) (status : OperationStatus) (t : Treasury)
    → IsSolvent t
    → IsDecided id status t
    → is_terminal status ≡ true
    → held id t.books.reservations ≡ pos 0
nothing_held id status t s (q, f, e) over =
    let same : q.id ≡ id = found_id (λ x. x.id) q id t.payouts f in
    let there = subst (λ i. find_payout i t ≡ some q) (sym same) f in
    subst (λ i. held i t.books.reservations ≡ pos 0) same (s.holds q there ∙ rw (e, over) refl)

-- In a solvent state, an answer that decides is recorded for an attempt that was sent and is not over, if
-- the attempt is one of the payout, the payout's amount is positive and has no journal yet, and its
-- accounts and its beneficiary are there: neither the ledger nor the check on the covered balance
-- refuses it. Afterwards the payout has succeeded or has failed, as the answer says, and nothing is
-- reserved for it.
pub record_bank_observation-IsDecided :
    (prepared : PreparedAttempt) (answer : BankClassification) (grace now journal_id : ℕ)
    (t : Treasury) (p : Payout) (a : PayoutAttempt) (b : Beneficiary) (request : BankRequest)
    → IsSolvent t
    → find_payout prepared.payout_id t ≡ some p
    → find_payout_attempt prepared.attempt_id t ≡ some a
    → a.payout_id ≡ prepared.payout_id
    → is_over a.status ≡ false
    → a.request ≡ some request
    → find (λ x. x.id == p.beneficiary_id) t.beneficiaries ≡ some b
    → pos 1 ≤ℤ p.amount
    → any (collides none JournalType.payout p.id) t.books.journals ≡ false
    → require (merchant available_payable_liability p.merchant_account_id) t.books ≡ ok tt
    → require (merchant payout_clearing_asset p.merchant_account_id) t.books ≡ ok tt
    → answer.ambiguous ≡ false
    → let c = settled_classification answer a grace now in
      (t' : Treasury) × (record_bank_observation prepared answer grace now journal_id t ≡ ok t')
      × IsDecided p.id
          (if c.succeeded then OperationStatus.succeeded else OperationStatus.failed)
          t'
      × (held p.id t'.books.reservations ≡ pos 0)
unfolding record_bank_observation
record_bank_observation-IsDecided prepared answer grace now journal_id t p a b request s e f of
      open' sent u positive fresh r r' decided =
    let c : BankClassification = settled_classification answer a grace now in
    let same_id : p.id ≡ prepared.payout_id =
      found_id (λ q. q.id) p prepared.payout_id t.payouts e in
    let found = subst (λ i. find_payout i t ≡ some p) (sym same_id) e in
    let (t₁, k, evidence, w) = append_evidence-answers a prepared.lookup_only c t request sent in
    let (t', h, d) =
      settle_payout-IsDecided p a b c now journal_id (record t { evidence = evidence }) found
        positive (s.covered p.merchant_account_id)
        (settled_classification-decided answer a grace now decided) fresh r r' in
    let recorded : record_bank_observation prepared answer grace now journal_id t ≡ ok t' =
      rw (e, f, open', k, u, w) h in
    let kept =
      record_bank_observation-IsKept prepared answer grace now journal_id t t' a f of s recorded in
    (t', recorded, d, nothing_held p.id _ t' kept.solvent d (over c.succeeded))
  where
    over :
        (b : Bool)
        → is_terminal (if b then OperationStatus.succeeded else OperationStatus.failed) ≡ true
    over b = ground arith
