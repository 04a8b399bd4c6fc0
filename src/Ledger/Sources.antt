-- ===== src/Ledger/Sources.antt =====
-- Where a refund is drawn from: `_refund_sources` of ledger/service.py.
use mathlib.Core.Path.{subst}
use relaypay.Base.{
  ==_iff, List, sym, ℕ, ◌≡◌, Option, some, none, ok, arith, inl, inr, map, ◌==◌, if◌then◌else◌,
  Bool-cases,
}
use relaypay.Base.Int.{neg_parts, ℤ, pos, neg, ◌+ℤ◌, ◌-ℤ◌, ◌≤ℤ◌, int_laws}
use relaypay.Ledger.Books.{
  JournalType, Books, merchant, available_payable_liability, credit_balance,
}
use relaypay.Ledger.Posting.{JournalResult, to_posting}
use relaypay.Ledger.Refund.{
  max_ℤ, settled_sum, refunded_from_pending, Sources, RefundRow, draw, reservation_sum,
  refund_sources, refund_entries, post_refund_journal,
}
use relaypay.Ledger.Balances.{credit_balance-append, post_journal-IsPosted}
use relaypay.Ledger.Reconciled.{refund_entries-delta}
use relaypay.Ledger.Keeps.{post_refund_journal-IsPosted}

draw_lem :
    (amount pending unreserved : ℤ)
    → pos 0 ≤ℤ amount
    → pos 0 ≤ℤ pending
    → pos 0 ≤ℤ unreserved
    → let s = draw amount pending unreserved in
      (s.pending_use +ℤ s.available_use +ℤ s.receivable_use ≡ amount)
      × (pos 0 ≤ℤ s.pending_use)
      × (pos 0 ≤ℤ s.available_use)
      × (pos 0 ≤ℤ s.receivable_use)
      × (s.pending_use ≤ℤ pending)
      × (s.available_use ≤ℤ unreserved)
unfolding draw
draw_lem amount pending unreserved a p u = grind int_laws

-- The merchant's AVAILABLE balance.
abbrev pub available_of : ℕ → Books → ℤ
available_of m books = credit_balance (merchant available_payable_liability m) books.postings

refund_sources-draw :
    (amount : ℤ) (capture_id : ℕ) (net : Option ℤ) (refunds : List ℕ) (m : ℕ) (books : Books)
    (s : Sources)
    → refund_sources amount capture_id net refunds m books ≡ ok s
    → (pending : ℤ) × (pos 0 ≤ℤ pending)
      × (pos 0 ≤ℤ reservation_sum m books.reservations)
      × (s
          ≡ draw amount pending
              (max_ℤ (available_of m books -ℤ reservation_sum m books.reservations) (pos 0)))
unfolding refund_sources
refund_sources-draw amount capture_id none refunds m books s h = ground arith
refund_sources-draw amount capture_id (some net) refunds m books s h = (
  max_ℤ
      (net
        -ℤ settled_sum capture_id books.settlement_items
        -ℤ refunded_from_pending m refunds books.journals books.balance_transactions)
      (pos 0),
  ground arith,
  ground arith,
  ground arith,
)

-- A refund that is not negative is drawn from the pending payable, the available payable and the
-- receivable: the parts are not negative, they add up to the refund, and what is drawn from the
-- available payable is at most what payouts have not reserved of it.
pub refund_sources_split :
    (amount : ℤ) (capture_id : ℕ) (net : Option ℤ) (refunds : List ℕ) (m : ℕ) (books : Books)
    (s : Sources)
    → refund_sources amount capture_id net refunds m books ≡ ok s
    → pos 0 ≤ℤ amount
    → (s.pending_use +ℤ s.available_use +ℤ s.receivable_use ≡ amount)
      × (pos 0 ≤ℤ s.pending_use)
      × (pos 0 ≤ℤ s.available_use)
      × (pos 0 ≤ℤ s.receivable_use)
      × (s.available_use
          ≤ℤ max_ℤ (available_of m books -ℤ reservation_sum m books.reservations) (pos 0))
refund_sources_split amount capture_id net refunds m books s h a =
    let (pending, p, r, e) = refund_sources-draw amount capture_id net refunds m books s h in
    let unreserved = max_ℤ (available_of m books -ℤ reservation_sum m books.reservations) (pos 0) in
    let (all, u, v, w, _, x) = draw_lem amount pending unreserved a p (ground arith) in
    rw e (all, u, v, w, x)

-- Reservations never exceed what is available.
abbrev pub IsCovered : ℕ → Books → Type 0
IsCovered m books = reservation_sum m books.reservations ≤ℤ available_of m books

-- Taking from one merchant's balance no more than is not reserved leaves every merchant covered.
covered_of_draw :
    (reserved balance : ℕ → ℤ) (n m : ℕ) (x : ℤ)
    → reserved n ≤ℤ balance n
    → x ≤ℤ max_ℤ (balance m -ℤ reserved m) (pos 0)
    → reserved n ≤ℤ balance n +ℤ (if n == m then neg x else pos 0)
covered_of_draw reserved balance n m x c d = elim (Bool-cases (n == m)) [
  | inl same ↦ rw same (
      taken (balance n) (reserved n) x c
        (subst (λ k. x ≤ℤ max_ℤ (balance k -ℤ reserved k) (pos 0)) (sym ((==_iff n m).0 same)) d))
  | inr other ↦ rw other (omega int_laws)
]
  where
    taken : (b r x : ℤ) → r ≤ℤ b → x ≤ℤ max_ℤ (b -ℤ r) (pos 0) → r ≤ℤ b +ℤ neg x
    taken b r x c d = grind (int_laws, neg_parts x)

-- After a refund, whose amount is not negative, the payouts reserved for each merchant are still
-- covered by its available balance, if they were before.
pub post_refund_journal-IsCovered :
    (j : ℕ) (refund : RefundRow) (owner : Option ℕ) (operation refund_id : ℕ) (amount : ℤ)
    (books : Books) (result : JournalResult) (books' : Books) (n : ℕ)
    → post_refund_journal j (some refund) owner operation refund_id amount books
      ≡ ok (result, books')
    → pos 0 ≤ℤ refund.amount
    → IsCovered n books
    → IsCovered n books'
post_refund_journal-IsCovered j refund owner operation refund_id amount books result books' n h a
      c =
    let (m, s, posted, known, src, e, same) =
      post_refund_journal-IsPosted j operation refund_id refund amount books result books' owner
        h in
    let p =
      post_journal-IsPosted j m (some operation) JournalType.refund refund_id
        (refund_entries m amount s) books result posted e in
    let split =
      refund_sources_split refund.amount refund.capture_id refund.captured_net
        refund.payment_refunds m books s src a in
    rw
      (
        same,
        p.postings,
        p.reservations,
        credit_balance-append (merchant available_payable_liability n) books.postings
            (map (to_posting j) (refund_entries m amount s)),
        refund_entries-delta j j m amount s available_payable_liability n,
      )
      (covered_of_draw (λ k. reservation_sum k books.reservations) (λ k. available_of k books) n m
        s.available_use c split.4)
