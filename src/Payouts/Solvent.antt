-- ===== src/Payouts/Solvent.antt =====
-- What holds of payouts, their attempts and the reservations: payouts/service.py.
pub mod Found
pub mod Named
pub mod Outcomes
pub mod Inserts
pub mod Retries
pub mod Reserved
pub mod Created
pub mod Retried
pub mod Paid
pub mod Observed
pub mod Sent
pub mod Runs
pub mod Booked
pub mod Answered
use relaypay.Base.{
  ℕ, ◌≡◌, Option, none, some, List, [], ◌∷◌, Bool, true, false, All, ◌==◌, if◌then◌else◌,
}
use relaypay.Base.Int.{ℤ, pos, ◌+ℤ◌, ◌≤ℤ◌}
use relaypay.Ledger.Books.{Reservation}
use relaypay.Ledger.Sources.{IsCovered}
use relaypay.Rows.{OperationStatus, is_terminal}
use relaypay.Payouts.{Payout, PayoutAttempt, is_over, Treasury, find_payout, find_payout_attempt}

-- What is reserved for one payout.
unfoldable pub held : ℕ → List Reservation → ℤ
held payout_id [] = pos 0
held payout_id (r ∷ rs) =
    (if r.payout_id == payout_id then r.amount_delta else pos 0) +ℤ held payout_id rs

-- The amount of a payout under way, and nothing for one that is over.
abbrev pub due : Payout → ℤ
due p = if is_terminal p.status then pos 0 else p.amount

-- An attempt that is not over.
abbrev pub IsLive : PayoutAttempt → Treasury → Type 0
IsLive a t = (find_payout_attempt a.id t ≡ some a) × (is_over a.status ≡ false)

-- Ids are unique; every merchant's available balance covers what is reserved of it; what is reserved for a payout is
-- its amount while it is under way and nothing once it has succeeded or failed; and one attempt of a
-- payout at most is not over, and then the payout is not.
pub record IsSolvent (t : Treasury) : Type 0 where
  pub payouts_named : All (λ p. find_payout p.id t ≡ some p) t.payouts
  pub attempts_named : All (λ a. find_payout_attempt a.id t ≡ some a) t.attempts
  pub covered : (m : ℕ) → IsCovered m t.books
  pub holds : (p : Payout) → find_payout p.id t ≡ some p → held p.id t.books.reservations ≡ due p
  pub absent : (id : ℕ) → find_payout id t ≡ none → held id t.books.reservations ≡ pos 0
  pub owned :
      (a : PayoutAttempt)
      → find_payout_attempt a.id t ≡ some a
      → (p : Payout) × (find_payout a.payout_id t ≡ some p)
  pub under_way :
      (a : PayoutAttempt) (p : Payout)
      → IsLive a t
      → find_payout a.payout_id t ≡ some p
      → is_terminal p.status ≡ false
  pub single :
      (a b : PayoutAttempt) → IsLive a t → IsLive b t → a.payout_id ≡ b.payout_id → a.id ≡ b.id

-- A transaction keeps the state solvent, and every attempt with its payout.
pub record IsKept (t t' : Treasury) : Type 0 where
  pub solvent : IsSolvent t'
  pub attempts :
      (id : ℕ) (a : PayoutAttempt)
      → find_payout_attempt id t ≡ some a
      → (b : PayoutAttempt) × (find_payout_attempt id t' ≡ some b) × (b.payout_id ≡ a.payout_id)
