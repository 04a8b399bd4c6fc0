-- ===== src/Operations/Finalizer/Effects.antt =====
-- What a finalization does to the ledger and to the payment: provider_operations/finalizer.py.
use mathlib.Core.Path.{subst}
use relaypay.Base.{
  ℕ, ◌≡◌, sym, Option, some, true, false, ok, arith, Result-cases, Bool-cases, inl, inr, map,
}
use relaypay.Ledger.Books.{Books}
use relaypay.Ledger.Posting.{JournalResult}
use relaypay.Ledger.Capture.{post_capture_journal}
use relaypay.Ledger.Refund.{RefundRow, post_refund_journal}
use relaypay.Ledger.Balanced.{IsBalanced}
use relaypay.Ledger.Reconciled.{IsReconciled}
use relaypay.Ledger.Keeps.{post_capture_journal-keeps, post_refund_journal-keeps}
use relaypay.Payments.Transitions.Chain.{IsChained, transition-IsChained}
use relaypay.Rows.{
  is_terminal, Actor, Operation, Authorization, Capture, Void, Refund, World, find_operation,
}
use relaypay.Operations.Resources.{
  Resource, authorization, capture, void, refund, FinalizedResult, Outcome, finalize_authorization,
  finalize_capture, capture_books, refund_books, finalize_void, finalize_refund, finalize_resource,
  net_of,
}
use relaypay.Operations.Frame.{transition-SameTables}
use relaypay.Operations.Finalizer.{finalize_verified_attempt}
use relaypay.Operations.Finalizer.Once.{finalize-split, finalize_open-split}

-- The books balance, and each balance transaction agrees with the postings of its journal.
abbrev pub IsSound : Books → Type 0
IsSound books = IsBalanced books × IsReconciled books

capture_books-posts :
    (o : Outcome) (op : Operation) (c : Capture) (w : World) (j : Option ℕ) (books : Books)
    → o.succeeded ≡ true
    → capture_books o op c w ≡ ok (j, books)
    → (result : JournalResult) × (post_capture_journal o.journal_id
          (some w.payment.merchant_account_id)
          op.id
          c.id
          c.amount
          c.fee_amount
          c.gst_amount
          w.books
        ≡ ok (result, books))
unfolding capture_books
capture_books-posts o op c w j books s h =
    elim (Result-cases (
      post_capture_journal o.journal_id (some w.payment.merchant_account_id) op.id c.id c.amount
        c.fee_amount c.gst_amount w.books)) [
          | inl ((result, b), e) ↦ (result, ground arith)
          | inr (x, e) ↦ ground arith
        ]

capture_books-IsSound :
    (o : Outcome) (op : Operation) (c : Capture) (w : World) (j : Option ℕ) (books : Books)
    → capture_books o op c w ≡ ok (j, books)
    → IsSound w.books
    → IsSound books
unfolding capture_books
capture_books-IsSound o op c w j books h s = elim (Bool-cases o.succeeded) [
  | inl y ↦
      let (result, e) = capture_books-posts o op c w j books y h in
      post_capture_journal-keeps o.journal_id (some w.payment.merchant_account_id) op.id c.id
        c.amount c.fee_amount c.gst_amount w.books result books e s.0 s.1
  | inr n ↦ subst IsSound (ground arith) s
]

-- The row of the refund that the ledger reads.
abbrev refund_row : Refund → World → RefundRow
refund_row r w = record {
  amount = r.amount;
  capture_id = r.capture_id;
  captured_net = net_of r.capture_id w.capture;
  payment_refunds = map (λ s. s.id) w.refunds;
}

refund_books-posts :
    (o : Outcome) (op : Operation) (r : Refund) (w : World) (j : Option ℕ) (books : Books)
    → o.succeeded ≡ true
    → refund_books o op r w ≡ ok (j, books)
    → (result : JournalResult) × (post_refund_journal o.journal_id
          (some (refund_row r w))
          (some w.payment.merchant_account_id)
          op.id
          r.id
          r.amount
          w.books
        ≡ ok (result, books))
unfolding refund_books
refund_books-posts o op r w j books s h =
    elim (Result-cases (
      post_refund_journal o.journal_id (some (refund_row r w)) (some w.payment.merchant_account_id)
        op.id r.id r.amount w.books)) [
          | inl ((result, b), e) ↦ (result, ground arith)
          | inr (x, e) ↦ ground arith
        ]

refund_books-IsSound :
    (o : Outcome) (op : Operation) (r : Refund) (w : World) (j : Option ℕ) (books : Books)
    → refund_books o op r w ≡ ok (j, books)
    → IsSound w.books
    → IsSound books
unfolding refund_books
refund_books-IsSound o op r w j books h s = elim (Bool-cases o.succeeded) [
  | inl y ↦
      let (result, e) = refund_books-posts o op r w j books y h in
      post_refund_journal-keeps o.journal_id (refund_row r w) (some w.payment.merchant_account_id)
        op.id r.id r.amount w.books result books e s.0 s.1
  | inr n ↦ subst IsSound (ground arith) s
]

-- The two invariants of a state.
abbrev pub IsCoherent : World → Type 0
IsCoherent w = IsChained w × IsSound w.books

authorization-IsCoherent :
    (o : Outcome) (a : Authorization) (w v : World)
    → finalize_authorization o a w ≡ ok v
    → IsCoherent w
    → IsCoherent v
unfolding finalize_authorization
authorization-IsCoherent o a w v h (c, s) = (
  transition-IsChained _ _ _ _ _ v h c,
  subst IsSound (sym ((transition-SameTables _ _ _ _ _ v h).1)) s,
)

capture-IsCoherent :
    (o : Outcome) (op : Operation) (c : Capture) (w v : World)
    → finalize_capture o op c w ≡ ok v
    → IsCoherent w
    → IsCoherent v
unfolding finalize_capture
capture-IsCoherent o op c w v h (i, s) = elim (Result-cases (capture_books o op c w)) [
  | inl ((j, books), e) ↦
      let rest = rw e at h in
      (
        transition-IsChained _ _ _ _ _ v rest i,
        subst IsSound (sym ((transition-SameTables _ _ _ _ _ v rest).1))
            (capture_books-IsSound o op c w j books e s),
      )
  | inr (x, e) ↦ ground arith
]

void-IsCoherent :
    (o : Outcome) (x : Void) (w v : World)
    → finalize_void o x w ≡ ok v
    → IsCoherent w
    → IsCoherent v
unfolding finalize_void
void-IsCoherent o x w v h (i, s) = elim (Bool-cases o.succeeded) [
  | inl y ↦
      let rest = rw y at h in
      (
        transition-IsChained _ _ _ _ _ v rest i,
        subst IsSound (sym ((transition-SameTables _ _ _ _ _ v rest).1)) s,
      )
  | inr n ↦ (ground arith, ground arith)
]

refund-IsCoherent :
    (o : Outcome) (op : Operation) (r : Refund) (w v : World)
    → finalize_refund o op r w ≡ ok v
    → IsCoherent w
    → IsCoherent v
unfolding finalize_refund
refund-IsCoherent o op r w v h (i, s) = elim (Result-cases (refund_books o op r w)) [
  | inl ((j, books), e) ↦
      let sound = refund_books-IsSound o op r w j books e s in
      elim (Bool-cases o.succeeded) [
        | inl y ↦
            let rest = rw y at (rw e at h) in
            (
              transition-IsChained _ _ _ _ _ v rest i,
              subst IsSound (sym ((transition-SameTables _ _ _ _ _ v rest).1)) sound,
            )
        | inr n ↦ (ground arith, ground arith)
      ]
  | inr (x, e) ↦ ground arith
]

finalize_resource-IsCoherent :
    (o : Outcome) (op : Operation) (r : Resource) (w v : World)
    → finalize_resource o op r w ≡ ok v
    → IsCoherent w
    → IsCoherent v
unfolding finalize_resource
finalize_resource-IsCoherent o op (authorization a) w v h c = authorization-IsCoherent o a w v h c
finalize_resource-IsCoherent o op (capture x) w v h c = capture-IsCoherent o op x w v h c
finalize_resource-IsCoherent o op (void x) w v h c = void-IsCoherent o x w v h c
finalize_resource-IsCoherent o op (refund r) w v h c = refund-IsCoherent o op r w v h c

-- A finalization that succeeds keeps the payment's history a chain of allowed moves, the ledger
-- balanced, and its balance transactions reconciled with its postings.
pub finalize_verified_attempt-IsCoherent :
    (id evidence : ℕ) (actor : Actor) (now journal : ℕ) (w w' : World) (result : FinalizedResult)
    (operation : Operation)
    → find_operation id w ≡ some operation
    → is_terminal operation.status ≡ false
    → finalize_verified_attempt id evidence actor now journal w ≡ ok (result, w')
    → IsCoherent w
    → IsCoherent w'
finalize_verified_attempt-IsCoherent id evidence actor now journal w w' result operation found live
      h c =
    let (resource, _, opened) =
      finalize-split id evidence actor now journal w w' result operation found live h in
    let (attempt, o, v, _, done, _, e) =
      finalize_open-split operation resource evidence actor now journal w w' result opened in
    subst IsCoherent (sym e) (finalize_resource-IsCoherent o operation resource w v done c)
