-- ===== src/Payouts/Solvent/Paid.antt =====
-- The books after a payout that succeeds: `record_bank_observation` of payouts/service.py.
use mathlib.Core.Path.{subst}
use relaypay.Base.{ℕ, ◌≡◌, refl, sym, inl, inr, none, map, false, ok, arith, ◌==◌, Result-cases}
use relaypay.Base.Int.{pos, neg, int_laws}
use relaypay.Ledger.Books.{
  Books, JournalType, consumed, merchant, available_payable_liability, credit_balance,
}
use relaypay.Ledger.Posting.{JournalResult, to_posting, post_journal, add_balance_transaction}
use relaypay.Ledger.Balances.{add_zero_ℤ, credit_balance-append, post_journal-IsPosted}
use relaypay.Ledger.Sources.{IsCovered, available_of}
use relaypay.Payouts.{
  Payout, reservation, check_coverage, payout_entries, payout_transaction, payout_books,
}
use relaypay.Payouts.Solvent.{held}
use relaypay.Payouts.Solvent.Reserved.{reservation-IsCovered}

-- A payout posts to the accounts of its own merchant only.
payout_entries_elsewhere :
    (p : Payout) (j n : ℕ)
    → (p.merchant_account_id == n) ≡ false
    → credit_balance
        (merchant available_payable_liability n)
        (map (to_posting j) (payout_entries p))
      ≡ pos 0
unfolding credit_balance
payout_entries_elsewhere p j n e =
    let other : (n == p.merchant_account_id) ≡ false = ground (arith, e) in
    rw other (omega int_laws)

payout_books-cases :
    (p : Payout) (journal_id : ℕ) (books : Books) (journal : ℕ) (books' : Books)
    → payout_books p journal_id books ≡ ok (journal, books')
    → (result : JournalResult) × (posted : Books) × (post_journal journal_id p.merchant_account_id
          none JournalType.payout p.id
          (payout_entries p)
          books
        ≡ ok (result, posted))
      × (check_coverage p.merchant_account_id books' ≡ ok tt)
      × (books'
          ≡ reservation p consumed
              (neg p.amount)
              (add_balance_transaction (payout_transaction p result.journal_id) posted))
unfolding payout_books
payout_books-cases p journal_id books journal books' h =
    elim (Result-cases (
      post_journal journal_id p.merchant_account_id none JournalType.payout p.id (payout_entries p)
        books)) [
          | inr (_, e) ↦ ground (arith, h, e)
          | inl ((result, posted), e) ↦
              elim (Result-cases (
                check_coverage p.merchant_account_id (
                  reservation p consumed (neg p.amount)
                    (add_balance_transaction (payout_transaction p result.journal_id) posted)))) [
                      | inr (_, f) ↦ ground (arith, h, e, f)
                      | inl (_, f) ↦
                          let same : reservation p consumed (neg p.amount) (
                                add_balance_transaction (payout_transaction p result.journal_id)
                                  posted)
                              ≡ books' =
                            ground (arith, h, e, f) in
                          (
                            result,
                            posted,
                            e,
                            subst (λ z. check_coverage p.merchant_account_id z ≡ ok tt) same f,
                            sym same,
                          )
                    ]
        ]

pub payout_books-IsCovered :
    (p : Payout) (journal_id : ℕ) (books : Books) (journal : ℕ) (books' : Books)
    → payout_books p journal_id books ≡ ok (journal, books')
    → ((n : ℕ) → IsCovered n books)
    → (n : ℕ) → IsCovered n books'
payout_books-IsCovered p journal_id books journal books' h c n =
    let (result, posted, e, check, same) = payout_books-cases p journal_id books journal books' h in
    let entries = payout_entries p in
    let q =
      post_journal-IsPosted journal_id p.merchant_account_id none JournalType.payout p.id entries
        books result posted e in
    let middle : Books = add_balance_transaction (payout_transaction p result.journal_id) posted in
    subst (IsCovered n) (sym same) (
      reservation-IsCovered p consumed (neg p.amount) middle
        (subst (λ z. check_coverage p.merchant_account_id z ≡ ok tt) same check)
        (λ k other.
          rw
            (
              q.postings,
              q.reservations,
              credit_balance-append (merchant available_payable_liability k) books.postings
                  (map (to_posting journal_id) entries),
              payout_entries_elsewhere p journal_id k other,
            )
            (rw (add_zero_ℤ (available_of k books)) (c k)))
        n)

pub payout_books-held :
    (p : Payout) (journal_id : ℕ) (books : Books) (journal : ℕ) (books' : Books) (id : ℕ)
    → payout_books p journal_id books ≡ ok (journal, books')
    → held id books'.reservations
      ≡ held id (reservation p consumed (neg p.amount) books).reservations
unfolding reservation
payout_books-held p journal_id books journal books' id h =
    let (result, posted, e, check, same) = payout_books-cases p journal_id books journal books' h in
    let q =
      post_journal-IsPosted journal_id p.merchant_account_id none JournalType.payout p.id
        (payout_entries p) books result posted e in
    rw (same, q.reservations) refl
