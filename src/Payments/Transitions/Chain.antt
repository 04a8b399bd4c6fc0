-- ===== src/Payments/Transitions/Chain.antt =====
-- The status history: payments/transitions.py. A parent's names are used through its path.
use relaypay.Base.{
  ℕ, ◌+◌, ◌≡◌, refl, ◌⊎◌, inl, inr, none, some, List, [], ◌∷◌, ◌++◌, Bool, true, false, ok, err,
  payment_state_stale, illegal_payment_transition, any, ◌||◌, ◌≢◌, arith,
}
use relaypay.Payments.Status.{
  PaymentStatus, created, captured, partially_refunded, refunded, is_allowed, same_status,
}
use relaypay.Rows.{Payment, Actor, StatusReason, payment_created, PaymentStatusHistory, World}
use relaypay.Payments.Transitions.{record_creation, moved, transition}

-- A chain of history rows: the first is the creation, numbered 0; each further one starts where
-- the one before it ended, is a move of the table, and is numbered one more. The last one ends
-- at the status and the version given. A first row of the migration that introduced the table, which
-- stands for the earlier history of an older payment, is left out.
pub data Chain : List PaymentStatusHistory → PaymentStatus → ℕ → Type 0 where
  birth :
      (h : PaymentStatusHistory)
      → h.from_status ≡ none
      → h.to_status ≡ created
      → h.status_version ≡ 0
      → Chain (h ∷ []) created 0
  move :
      {hs : List PaymentStatusHistory} {s : PaymentStatus} {v : ℕ}
      → Chain hs s v
      → (h : PaymentStatusHistory) → (t : PaymentStatus) → h.from_status ≡ some s
      → h.to_status ≡ t
      → h.status_version ≡ v + 1
      → is_allowed s t ≡ true
      → Chain (hs ++ h ∷ []) t (v + 1)

-- The history of a payment leads from its creation to its present status and version.
abbrev pub IsChained : World → Type 0
IsChained w = Chain w.status_history w.payment.status w.payment.status_version

record_creation-IsChained :
    (actor : Actor) (w : World) → w.status_history ≡ [] → IsChained (record_creation actor w)
unfolding record_creation
record_creation-IsChained actor w e = rw e (
    birth
      (record {
        from_status = none;
        to_status = created;
        reason = payment_created;
        actor = actor;
        status_version = 0;
      })
      refl refl refl)

same_status_cases :
    (s t : PaymentStatus) → (s ≡ t) × (same_status s t ≡ true) ⊎ (s ≢ t) × (same_status s t ≡ false)
same_status_cases s t = ground arith

-- A transition is refused as stale if the session's view differs from the row, and as illegal if
-- the table does not hold the pair; otherwise it writes the status, the next version and a row of
-- history, and nothing else.
pub transition_cases :
    (seen : Payment) (to : PaymentStatus) (reason : StatusReason) (actor : Actor) (w : World)
    → (transition seen to reason actor w ≡ err payment_state_stale)
        × ((w.payment.status ≢ seen.status) ⊎ (w.payment.status_version ≢ seen.status_version))
      ⊎ (transition seen to reason actor w ≡ err illegal_payment_transition)
        × (w.payment.status ≡ seen.status)
        × (w.payment.status_version ≡ seen.status_version)
        × (is_allowed w.payment.status to ≡ false)
      ⊎ (transition seen to reason actor w ≡ ok (moved to reason actor w))
        × (w.payment.status ≡ seen.status)
        × (w.payment.status_version ≡ seen.status_version)
        × (is_allowed w.payment.status to ≡ true)
unfolding transition
transition_cases seen to reason actor w = elim (same_status_cases w.payment.status seen.status) [
  | inl (same, e) ↦ ground (arith, e)
  | inr (other, e) ↦ inl (rw e refl, inl other)
]

transition_lem :
    (seen : Payment) (to : PaymentStatus) (reason : StatusReason) (actor : Actor) (w w' : World)
    → transition seen to reason actor w ≡ ok w'
    → (is_allowed w.payment.status to ≡ true) × (w' ≡ moved to reason actor w)
unfolding transition
transition_lem seen to reason actor w w' h = ground arith

-- A transition that succeeds keeps the history a chain of allowed moves from the creation.
pub transition-IsChained :
    (seen : Payment) (to : PaymentStatus) (reason : StatusReason) (actor : Actor) (w w' : World)
    → transition seen to reason actor w ≡ ok w'
    → IsChained w
    → IsChained w'
transition-IsChained seen to reason actor w w' h c =
    let (allowed, same) = transition_lem seen to reason actor w w' h in
    rw same (move c _ to refl refl refl allowed)

abbrev pub is_captured : PaymentStatus → Bool
is_captured captured = true
is_captured partially_refunded = true
is_captured refunded = true
is_captured _ = false

abbrev pub holds_capture : List PaymentStatusHistory → Bool
holds_capture = any (λ h. is_captured h.to_status)

any-append {ℓ} :
    {A : Type ℓ} (p : A → Bool) (xs ys : List A) → any p (xs ++ ys) ≡ (any p xs || any p ys)
any-append p [] ys = refl
any-append p (x ∷ xs) ys = ground (arith, any-append p xs ys)

captured-stays :
    (s t : PaymentStatus) → is_allowed s t ≡ true → is_captured s ≡ true → is_captured t ≡ true
captured-stays s t a c = ground arith

-- A payment that was captured at any time is captured, or refunded in part or in full, now: it is
-- never failed, cancelled, expired or authorised again.
pub Chain-captured :
    {hs : List PaymentStatusHistory} {s : PaymentStatus} {v : ℕ}
    → Chain hs s v
    → holds_capture hs ≡ true
    → is_captured s ≡ true
Chain-captured (birth h a b c) e = ground arith
Chain-captured (move {hs} {s} c h t a b d e) q = ground (
  arith,
  any-append (λ (x : PaymentStatusHistory). is_captured x.to_status) hs (h ∷ []),
  Chain-captured c,
  captured-stays s t e,
)
