-- ===== src/Commands/Orderly/Settled.antt =====
-- An operation that is not terminal and its resource are given a status: finalizer.py.
use mathlib.Core.Path.{subst}
use relaypay.Base.{
  ℕ, ◌≡◌, refl, sym, ap, ◌∙◌, ◌⊎◌, inl, inr, some, List, [], ◌∷◌, map, true, false, All, arith,
  find, ◌==◌, ==_refl, Bool-cases, Option-cases, if◌then◌else◌,
}
use relaypay.Base.Int.{ℤ, pos, ◌≤ℤ◌, +ℤ_mono, ≤ℤ_refl}
use relaypay.Rows.{
  is_failed, ResourceType, Authorization, Capture, Void, Refund, World, find_refund, put_refund,
}
use relaypay.Operations.Resources.{Resource, authorization, capture, void, refund, find_resource}
use relaypay.Operations.Finalizer.Twice.{find-refund_id}
use relaypay.Operations.Trace.Keys.{Keyed}
use relaypay.Commands.{reserved_sum}
use relaypay.Commands.Repeat.{find-refund_resource}

-- The row of the resource becomes `r`.
abbrev pub put_resource : Resource → World → World
put_resource (authorization a) w = record w { authorization = some a }
put_resource (capture c) w = record w { capture = some c }
put_resource (void v) w = record w { void = some v }
put_resource (refund r) w = record w { refunds = put_refund r w.refunds }

abbrev pub type_of : Resource → ResourceType
type_of (authorization a) = ResourceType.authorization
type_of (capture c) = ResourceType.capture
type_of (void v) = ResourceType.void
type_of (refund r) = ResourceType.refund

abbrev pub id_of : Resource → ℕ
id_of (authorization a) = a.id
id_of (capture c) = c.id
id_of (void v) = v.id
id_of (refund r) = r.id

-- One row, but for its status and what goes with it.
pub data SameRow : Resource → Resource → Type 0 where
  same_authorization :
      {a b : Authorization}
      → b.id ≡ a.id
      → b.provider_operation_id ≡ a.provider_operation_id
      → b.amount ≡ a.amount
      → SameRow (authorization a) (authorization b)
  same_capture :
      {a b : Capture}
      → b.id ≡ a.id
      → b.provider_operation_id ≡ a.provider_operation_id
      → b.amount ≡ a.amount
      → SameRow (capture a) (capture b)
  same_void :
      {a b : Void}
      → b.id ≡ a.id
      → b.provider_operation_id ≡ a.provider_operation_id
      → b.amount ≡ a.amount
      → SameRow (void a) (void b)
  same_refund :
      {a b : Refund}
      → b.id ≡ a.id
      → b.provider_operation_id ≡ a.provider_operation_id
      → b.amount ≡ a.amount
      → SameRow (refund a) (refund b)

pub find_resource-place :
    (t : ResourceType) (id : ℕ) (w : World) (r : Resource)
    → find_resource t id w ≡ some r
    → (t ≡ type_of r) × (id ≡ id_of r)
find_resource-place ResourceType.authorization id w r h = ground arith
find_resource-place ResourceType.capture id w r h = ground arith
find_resource-place ResourceType.void id w r h = ground arith
find_resource-place ResourceType.refund id w r h = elim (Option-cases (find_refund id w)) [
  | inl n ↦ ground arith
  | inr (x, e) ↦
      let same : r ≡ refund x = ground (arith, h, e) in
      (ap type_of (sym same), sym (find-refund_id id w.refunds x e) ∙ ap id_of (sym same))
]

find-put_refund-cases :
    (r y : Refund) (id : ℕ) (rs : List Refund)
    → find (λ x. x.id == id) (put_refund r rs) ≡ some y
    → (id ≡ r.id) × (y ≡ r) ⊎ (find (λ x. x.id == id) rs ≡ some y)
unfolding put_refund
find-put_refund-cases r y id [] h = cc
find-put_refund-cases r y id (s ∷ ss) h = elim (Bool-cases (s.id == id)) [
  | inl e ↦ elim (Bool-cases (s.id == r.id)) [
    | inl f ↦ inl (ground arith)
    | inr f ↦ inr (ground arith)
  ]
  | inr e ↦ elim (find-put_refund-cases r y id ss (ground (arith, h, e))) [
    | inl k ↦ inl k
    | inr k ↦ inr (ground (arith, e, k))
  ]
]

pub put_resource-places :
    (r : Resource) (w : World) (t : ResourceType) (id : ℕ) (x : Resource)
    → find_resource t id (put_resource r w) ≡ some x
    → (t ≡ type_of r) × (id ≡ id_of r) × (x ≡ r) ⊎ (find_resource t id w ≡ some x)
put_resource-places (authorization a) w ResourceType.authorization id x h = inl (ground arith)
put_resource-places (authorization a) w ResourceType.capture id x h = inr h
put_resource-places (authorization a) w ResourceType.void id x h = inr h
put_resource-places (authorization a) w ResourceType.refund id x h = inr h
put_resource-places (capture c) w ResourceType.authorization id x h = inr h
put_resource-places (capture c) w ResourceType.capture id x h = inl (ground arith)
put_resource-places (capture c) w ResourceType.void id x h = inr h
put_resource-places (capture c) w ResourceType.refund id x h = inr h
put_resource-places (void v) w ResourceType.authorization id x h = inr h
put_resource-places (void v) w ResourceType.capture id x h = inr h
put_resource-places (void v) w ResourceType.void id x h = inl (ground arith)
put_resource-places (void v) w ResourceType.refund id x h = inr h
put_resource-places (refund r) w ResourceType.authorization id x h = inr h
put_resource-places (refund r) w ResourceType.capture id x h = inr h
put_resource-places (refund r) w ResourceType.void id x h = inr h
put_resource-places (refund r) w ResourceType.refund id x h =
    elim (Option-cases (find_refund id (put_resource (refund r) w))) [
      | inl n ↦ ground (arith, h, n)
      | inr (y, e) ↦
          let same : x ≡ refund y = ground (arith, h, e) in
          elim (find-put_refund-cases r y id w.refunds e) [
            | inl (f, g) ↦ inl (refl, f, same ∙ ap refund g)
            | inr g ↦ inr (find-refund_resource id y w g ∙ ap some (sym same))
          ]
    ]

find-put_refund_own :
    (r s : Refund) (rs : List Refund)
    → r.id ≡ s.id
    → find (λ x. x.id == s.id) rs ≡ some s
    → find (λ x. x.id == r.id) (put_refund r rs) ≡ some r
unfolding put_refund
find-put_refund_own r s [] e h = cc
find-put_refund_own r s (t ∷ ts) e h = ground (arith, find-put_refund_own r s ts)

pub put_resource-found :
    (r r' : Resource) (w : World)
    → SameRow r r'
    → find_resource (type_of r) (id_of r) w ≡ some r
    → find_resource (type_of r) (id_of r) (put_resource r' w) ≡ some r'
put_resource-found _ _ w (same_authorization {a} {b} i o m) h = rw (i, ==_refl a.id) refl
put_resource-found _ _ w (same_capture {a} {b} i o m) h = rw (i, ==_refl a.id) refl
put_resource-found _ _ w (same_void {a} {b} i o m) h = rw (i, ==_refl a.id) refl
put_resource-found _ _ w (same_refund {a} {b} i o m) h =
    let found : find_refund a.id w ≡ some a = ground (arith, h) in
    find-refund_resource a.id b (put_resource (refund b) w) (
      subst (λ k. find (λ x. x.id == k) (put_refund b w.refunds) ≡ some b) i
        (find-put_refund_own b a w.refunds i found))

-- The sums of the refunds before and after: a refund that had not failed is given a status.
put_refund-absent :
    (r : Refund) (rs : List Refund)
    → All (λ k. (k == r.id) ≡ false) (map (λ x. x.id) rs)
    → put_refund r rs ≡ rs
unfolding put_refund
put_refund-absent r [] h = refl
put_refund-absent r (s ∷ ss) h = rw (h.0, put_refund-absent r ss h.1) refl

-- What a refund counts for.
abbrev counted : Refund → ℤ
counted r = if is_failed r.status then pos 0 else r.amount

counted-le :
    (r s : Refund)
    → r.amount ≡ s.amount
    → is_failed s.status ≡ false
    → pos 0 ≤ℤ s.amount
    → counted r ≤ℤ counted s
counted-le r s a live p = elim (Bool-cases (is_failed r.status)) [
  | inl f ↦ rw (f, live) p
  | inr f ↦ rw (f, live, a) (≤ℤ_refl s.amount)
]

pub reserved_sum-put_refund :
    (r s : Refund) (rs : List Refund)
    → Keyed (map (λ x. x.id) rs)
    → find (λ x. x.id == s.id) rs ≡ some s
    → r.id ≡ s.id
    → r.amount ≡ s.amount
    → is_failed s.status ≡ false
    → pos 0 ≤ℤ s.amount
    → reserved_sum (put_refund r rs) ≤ℤ reserved_sum rs
unfolding put_refund reserved_sum
reserved_sum-put_refund r s [] k f e a live p = cc
reserved_sum-put_refund r s (t ∷ ts) k f e a live p = elim (Bool-cases (t.id == s.id)) [
  | inl same ↦
      let head : t ≡ s = ground (arith, f, same) in
      let rest = put_refund-absent r ts (rw (e, ap (λ x. x.id) (sym head)) k.0) in
      let here : (t.id == r.id) ≡ true = ground (arith, same, e) in
      rw (here, rest)
        (+ℤ_mono (counted r) (counted t) (reserved_sum ts) (reserved_sum ts)
          (subst (λ z. counted r ≤ℤ counted z) (sym head) (counted-le r s a live p))
          (≤ℤ_refl (reserved_sum ts)))
  | inr apart ↦
      let other : (t.id == r.id) ≡ false = rw e apart in
      let tail : find (λ x. x.id == s.id) ts ≡ some s = ground (arith, f, apart) in
      let below = reserved_sum-put_refund r s ts k.1 tail e a live p in
      rw other (
        +ℤ_mono (counted t) (counted t) (reserved_sum (put_refund r ts)) (reserved_sum ts)
          (≤ℤ_refl (counted t)) below)
]
