-- ===== src/Payouts/Solvent/Booked.antt =====
-- What is covered is booked: the ledger's part of `record_bank_observation` of payouts/service.py.
use relaypay.Base.{
  ℕ, ◌≡◌, refl, inl, inr, none, map, true, false, ok, arith, any, ◌==◌, ==_refl, Result-cases,
}
use relaypay.Base.Int.{ℤ, pos, neg, neg_parts, ◌+ℤ◌, ◌≤ℤ◌, int_laws}
use relaypay.Ledger.Books.{
  Books, JournalType, debit, credit, released, consumed, merchant, available_payable_liability,
  payout_clearing_asset, credit_balance, require,
}
use relaypay.Ledger.Posting.{
  JournalResult, to_posting, collides, total, post_journal, moves_nothing, add_balance_transaction,
}
use relaypay.Ledger.Balances.{credit_balance-append, post_journal-IsPosted}
use relaypay.Ledger.Sources.{IsCovered}
use relaypay.Payouts.{
  Payout, reservation, check_coverage, payout_entries, payout_transaction, payout_books,
}
use relaypay.Payouts.Solvent.Found.{reservation_sum-append}

pub check_coverage_lem :
    (m : ℕ) (books : Books) → IsCovered m books → check_coverage m books ≡ ok tt
check_coverage_lem m books c = ground (arith, c)

covered_of_less : (r b x : ℤ) → r ≤ℤ b → pos 0 ≤ℤ x → r +ℤ neg x ≤ℤ b
covered_of_less r b x c p = omega (int_laws, neg_parts x, c, p)

covered_of_both : (r b x : ℤ) → r ≤ℤ b → r +ℤ neg x ≤ℤ b +ℤ neg x
covered_of_both r b x c = omega (int_laws, c)

-- To give a reservation back is never refused.
pub released-IsCovered :
    (p : Payout) (books : Books)
    → pos 0 ≤ℤ p.amount
    → IsCovered p.merchant_account_id books
    → IsCovered p.merchant_account_id (reservation p released (neg p.amount) books)
unfolding reservation
released-IsCovered p books positive c =
    let same : (p.merchant_account_id == p.merchant_account_id) ≡ true =
      ==_refl p.merchant_account_id in
    rw (reservation_sum-append p.merchant_account_id books.reservations _, same)
      (covered_of_less _ _ p.amount c positive)

payout_entries_here :
    (p : Payout) (j : ℕ)
    → credit_balance
        (merchant available_payable_liability p.merchant_account_id)
        (map (to_posting j) (payout_entries p))
      ≡ neg p.amount
unfolding credit_balance
payout_entries_here p j =
    let same : (p.merchant_account_id == p.merchant_account_id) ≡ true =
      ==_refl p.merchant_account_id in
    rw same (omega int_laws)

payout_totals :
    (p : Payout)
    → (total debit (payout_entries p) ≡ p.amount) × (total credit (payout_entries p) ≡ p.amount)
unfolding total
payout_totals p = (omega int_laws, omega int_laws)

post_payout :
    (p : Payout) (journal_id : ℕ) (books : Books)
    → pos 1 ≤ℤ p.amount
    → any (collides none JournalType.payout p.id) books.journals ≡ false
    → (r : JournalResult × Books) × (post_journal journal_id p.merchant_account_id none
          JournalType.payout p.id
          (payout_entries p)
          books
        ≡ ok r)
unfolding post_journal
post_payout p journal_id books positive fresh =
    let (debits, credits) = payout_totals p in
    elim (Result-cases (
      post_journal journal_id p.merchant_account_id none JournalType.payout p.id (payout_entries p)
        books)) [
          | inl r ↦ r
          | inr (failure, e) ↦
              let refused = rw (debits, credits, fresh) at e in ground (arith, refused, positive)
        ]

payout_transaction-moves :
    (p : Payout) (j : ℕ) → pos 1 ≤ℤ p.amount → moves_nothing (payout_transaction p j) ≡ false
unfolding moves_nothing
payout_transaction-moves p j positive = ground (arith, positive)

-- A payout that is covered is booked.
pub payout_books_lem :
    (p : Payout) (journal_id : ℕ) (books : Books)
    → pos 1 ≤ℤ p.amount
    → any (collides none JournalType.payout p.id) books.journals ≡ false
    → require (merchant available_payable_liability p.merchant_account_id) books ≡ ok tt
    → require (merchant payout_clearing_asset p.merchant_account_id) books ≡ ok tt
    → IsCovered p.merchant_account_id books
    → (r : ℕ × Books) × (payout_books p journal_id books ≡ ok r)
unfolding payout_books reservation
payout_books_lem p journal_id books positive fresh r r' c =
    let ((result, posted), e) = post_payout p journal_id books positive fresh in
    let m = p.merchant_account_id in
    let q =
      post_journal-IsPosted journal_id m none JournalType.payout p.id (payout_entries p) books
        result posted e in
    let books' : Books =
      reservation p consumed (neg p.amount)
        (add_balance_transaction (payout_transaction p result.journal_id) posted) in
    let same : (m == m) ≡ true = ==_refl m in
    let covered : IsCovered m books' =
      rw
        (
          q.postings,
          q.reservations,
          credit_balance-append (merchant available_payable_liability m) books.postings
              (map (to_posting journal_id) (payout_entries p)),
          payout_entries_here p journal_id,
          reservation_sum-append m books.reservations _,
          same,
        )
        (covered_of_both _ _ p.amount c) in
    (
      (result.journal_id, books'),
      rw
          (
            r,
            r',
            e,
            payout_transaction-moves p result.journal_id positive,
            check_coverage_lem m books' covered,
          )
          refl,
    )
