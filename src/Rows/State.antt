-- ===== src/Rows/State.antt =====
-- The state, and how a row is found and written.
use mathlib.Core.Path.{subst}
use relaypay.Base.{
  ℕ, ◌≡◌, refl, sym, ◌≢◌, Option, some, List, [], ◌∷◌, arith, ◌==◌, if◌then◌else◌, find,
}
use relaypay.Ledger.Books.{Books}
use relaypay.Rows.Tables.{
  Payment, PaymentStatusHistory, Authorization, Capture, Void, Refund, Operation, Attempt,
  IdempotencyRecord, OperationHistory, MerchantEvent,
}

pub record World : Type 0 where
  pub payment : Payment
  pub authorization : Option Authorization
  pub capture : Option Capture
  pub void : Option Void
  pub refunds : List Refund
  pub operations : List Operation
  pub attempts : List Attempt
  pub keys : List IdempotencyRecord
  pub status_history : List PaymentStatusHistory
  pub operation_history : List OperationHistory
  pub events : List MerchantEvent
  pub books : Books

abbrev pub find_operation : ℕ → World → Option Operation
find_operation id w = find (λ o. o.id == id) w.operations

abbrev pub find_attempt : ℕ → World → Option Attempt
find_attempt id w = find (λ a. a.id == id) w.attempts

abbrev pub find_refund : ℕ → World → Option Refund
find_refund id w = find (λ r. r.id == id) w.refunds

-- The row with the id of `o` becomes `o`.
unfoldable pub put_operation : Operation → List Operation → List Operation
put_operation o [] = []
put_operation o (p ∷ ps) = (if p.id == o.id then o else p) ∷ put_operation o ps

unfoldable pub put_attempt : Attempt → List Attempt → List Attempt
put_attempt a [] = []
put_attempt a (b ∷ bs) = (if b.id == a.id then a else b) ∷ put_attempt a bs

unfoldable pub put_refund : Refund → List Refund → List Refund
put_refund r [] = []
put_refund r (s ∷ ss) = (if s.id == r.id then r else s) ∷ put_refund r ss

-- A row that is written is found again, and no other row has changed.
pub find-put_operation :
    (o : Operation) (id : ℕ) (ps : List Operation) (p : Operation)
    → find (λ x. x.id == id) ps ≡ some p
    → find (λ x. x.id == id) (put_operation o ps) ≡ some (if p.id == o.id then o else p)
unfolding put_operation
find-put_operation o id [] p h = cc
find-put_operation o id (q ∷ qs) p h = ground (arith, find-put_operation o id qs p)

pub find-put_operation_self :
    (o : Operation) (ps : List Operation) (p : Operation)
    → find (λ x. x.id == o.id) ps ≡ some p
    → find (λ x. x.id == o.id) (put_operation o ps) ≡ some o
unfolding put_operation
find-put_operation_self o [] p h = cc
find-put_operation_self o (q ∷ qs) p h = ground (arith, find-put_operation_self o qs p)

pub find-put_operation_ne :
    (o : Operation) (id : ℕ) (ps : List Operation)
    → id ≢ o.id
    → find (λ x. x.id == id) (put_operation o ps) ≡ find (λ x. x.id == id) ps
unfolding put_operation
find-put_operation_ne o id [] h = refl
find-put_operation_ne o id (q ∷ qs) h = ground (arith, find-put_operation_ne o id qs)

pub find-operation_id :
    (id : ℕ) (ps : List Operation) (p : Operation) → find (λ x. x.id == id) ps ≡ some p → p.id ≡ id
find-operation_id id [] p h = cc
find-operation_id id (q ∷ qs) p h = ground (arith, find-operation_id id qs p)

-- A row found by an id is found by its own.
pub find-own_id :
    (id : ℕ) (w : World) (o : Operation)
    → find_operation id w ≡ some o
    → find_operation o.id w ≡ some o
find-own_id id w o f =
    subst (λ k. find_operation k w ≡ some o) (sym (find-operation_id id w.operations o f)) f
