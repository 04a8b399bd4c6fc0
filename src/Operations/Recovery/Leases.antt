-- ===== src/Operations/Recovery/Leases.antt =====
-- No two pollers hold one operation: provider_operations/recovery.py.
use relaypay.Base.{
  ℕ, zero, suc, ◌+◌, ◌<◌, ◌≡◌, refl, sym, ap, some, List, [], ◌∷◌, map, Bool, true, false, ok, err,
  lookup_in_progress, arith, All, Bool-cases, Option-cases, inl, inr, elem, find, ◌==◌, where_rows,
  is_none, not, ◌&&◌,
}
use mathlib.Core.Path.{subst}
use relaypay.Rows.{Operation, is_terminal, is_in_review, put_operation}
use relaypay.Operations.Service.Sending.{find-put_public, find-public_id}
use relaypay.Operations.Recovery.{
  RecoveryClaim, leased, is_due, is_free, is_unsent, precedes, insert, order_by, limit, due_at,
  due_rows, unsent_rows, lease_rows, ids_of, claim_of, claim_due_operations,
  claim_unsent_operations, claim_specific_operation, has_live_lease,
}

module _ (P : Operation → Type 0) where
  All-insert :
      (key : Operation → ℕ) (o : Operation) (os : List Operation)
      → P o
      → All P os
      → All P (insert key o os)
  unfolding insert
  All-insert key o [] h a = (h, tt)
  All-insert key o (p ∷ ps) h a = elim (Bool-cases (precedes key o p)) [
    | inl e ↦ rw e (h, a)
    | inr e ↦ rw e (a.0, All-insert key o ps h a.1)
  ]

  All-order_by : (key : Operation → ℕ) (os : List Operation) → All P os → All P (order_by key os)
  unfolding order_by
  All-order_by key [] a = tt
  All-order_by key (o ∷ os) a = All-insert key o (order_by key os) a.0 (All-order_by key os a.1)

  All-limit : (n : ℕ) (os : List Operation) → All P os → All P (limit n os)
  unfolding limit
  All-limit zero os a = tt
  All-limit (suc n) [] a = tt
  All-limit (suc n) (o ∷ os) a = (a.0, All-limit n os a.1)

  All-where_rows :
      (p : Operation → Bool) (os : List Operation)
      → All (λ o. p o ≡ true → P o) os
      → All P (where_rows p os)
  All-where_rows p [] a = tt
  All-where_rows p (o ∷ os) a = elim (Bool-cases (p o)) [
    | inl e ↦ rw e (a.0 e, All-where_rows p os a.1)
    | inr e ↦ rw e (All-where_rows p os a.1)
  ]

-- What a poller selects passes any test that due rows pass.
due_rows-All :
    (P : Operation → Type 0) (now n : ℕ) (os : List Operation)
    → All (λ o. is_due now o ≡ true → P o) os
    → All P (due_rows now n os)
unfolding due_rows
due_rows-All P now n os a =
    All-limit P n (order_by due_at (where_rows (is_due now) os))
      (All-order_by P due_at (where_rows (is_due now) os) (All-where_rows P (is_due now) os a))

unsent_rows-All :
    (P : Operation → Type 0) (now grace n : ℕ) (os : List Operation)
    → All (λ o. is_unsent now grace o ≡ true → P o) os
    → All P (unsent_rows now grace n os)
unfolding unsent_rows
unsent_rows-All P now grace n os a =
    All-limit P n (order_by (λ o. o.created_at) (where_rows (is_unsent now grace) os)) (
      All-order_by P (λ o. o.created_at) (where_rows (is_unsent now grace) os)
        (All-where_rows P (is_unsent now grace) os a))

-- Until the leases end, no row that took one is free.
lease_rows-free :
    (token : ℕ → ℕ) (expires now : ℕ) (ids : List ℕ) (os : List Operation)
    → now < expires
    → All (λ o. is_free now o ≡ true → elem o.id ids ≡ false) (lease_rows token expires ids os)
unfolding lease_rows
lease_rows-free token expires now ids [] h = tt
lease_rows-free token expires now ids (o ∷ os) h = elim (Bool-cases (elem o.id ids)) [
  | inl e ↦ rw e ((λ f. ground (arith, f, h)), lease_rows-free token expires now ids os h)
  | inr e ↦ rw e ((λ f. e), lease_rows-free token expires now ids os h)
]

All-weaken :
    (P Q : Operation → Type 0) (os : List Operation)
    → ((o : Operation) → P o → Q o)
    → All P os
    → All Q os
All-weaken P Q [] f a = tt
All-weaken P Q (o ∷ os) f a = (f o a.0, All-weaken P Q os f a.1)

All-map {ℓ} :
    {A : Type ℓ} (P : A → Type 0) (f : Operation → A) (os : List Operation)
    → All (λ o. P (f o)) os
    → All P (map f os)
All-map P f [] a = tt
All-map P f (o ∷ os) a = (a.0, All-map P f os a.1)

is_due-is_free : (now : ℕ) (o : Operation) → is_due now o ≡ true → is_free now o ≡ true
is_due-is_free now o d = ground (arith, d)

is_unsent-is_free :
    (now grace : ℕ) (o : Operation) → is_unsent now grace o ≡ true → is_free now o ≡ true
is_unsent-is_free now grace o d = ground (arith, d)

ids_of-claims :
    (token : ℕ → ℕ) (os : List Operation)
    → map (λ c. c.operation_id) (map (claim_of token) os) ≡ ids_of os
ids_of-claims token [] = refl
ids_of-claims token (o ∷ os) = ap (λ ids. o.id ∷ ids) (ids_of-claims token os)

-- While the leases of one batch last, another poller's batch, of whatever size and with whatever
-- tokens, holds none of the operations that the first one holds.
pub claim_due_operations-exclusive :
    (now now' n n' lease lease' : ℕ) (token token' : ℕ → ℕ) (os : List Operation)
    → now' < now + lease
    → All
        (λ c.
          elem c.operation_id
            (map (λ d. d.operation_id) ((claim_due_operations now n lease token os).0))
          ≡ false)
        ((claim_due_operations now' n' lease' token'
          ((claim_due_operations now n lease token os).1)).0)
unfolding claim_due_operations
claim_due_operations-exclusive now now' n n' lease lease' token token' os h =
    let rows = due_rows now n os in
    let after = lease_rows token (now + lease) (ids_of rows) os in
    rw (ids_of-claims token rows) (
      All-map (λ c. elem c.operation_id (ids_of rows) ≡ false) (claim_of token')
        (due_rows now' n' after)
        (due_rows-All (λ o. elem o.id (ids_of rows) ≡ false) now' n' after
          (All-weaken (λ o. is_free now' o ≡ true → elem o.id (ids_of rows) ≡ false)
            (λ o. is_due now' o ≡ true → elem o.id (ids_of rows) ≡ false) after
            (λ o f d. f (is_due-is_free now' o d))
            (lease_rows-free token (now + lease) now' (ids_of rows) os h))))

-- While the leases on a batch of unsent operations last, another batch of them, of whatever size and
-- grace, selects no row that the first one leased.
pub claim_unsent_operations-exclusive :
    (now now' grace grace' n n' lease : ℕ) (token : ℕ → ℕ) (os : List Operation)
    → now' < now + lease
    → All
        (λ o. elem o.id (ids_of (unsent_rows now grace n os)) ≡ false)
        (unsent_rows now' grace' n' ((claim_unsent_operations now grace n lease token os).1))
unfolding claim_unsent_operations
claim_unsent_operations-exclusive now now' grace grace' n n' lease token os h =
    let rows = unsent_rows now grace n os in
    let after = lease_rows token (now + lease) (ids_of rows) os in
    unsent_rows-All (λ o. elem o.id (ids_of rows) ≡ false) now' grace' n' after
      (All-weaken (λ o. is_free now' o ≡ true → elem o.id (ids_of rows) ≡ false)
        (λ o. is_unsent now' grace' o ≡ true → elem o.id (ids_of rows) ≡ false) after
        (λ o f d. f (is_unsent-is_free now' grace' o d))
        (lease_rows-free token (now + lease) now' (ids_of rows) os h))

claim_specific-split :
    (public_id now lease : ℕ) (review : Bool) (token : ℕ → ℕ) (os os' : List Operation)
    (c : RecoveryClaim)
    → claim_specific_operation public_id now lease review token os ≡ ok (c, os')
    → (o : Operation) × (find (λ x. x.public_id == public_id) os ≡ some o)
      × (is_none o.last_sent_at ≡ false)
      × ((review && not (is_in_review o.status)) ≡ false)
      × (is_terminal o.status ≡ false)
      × (os' ≡ put_operation (leased (token o.id) (now + lease) o) os)
unfolding claim_specific_operation
claim_specific-split public_id now lease review token os os' c h =
    elim (Option-cases (find (λ (x : Operation). x.public_id == public_id) os)) [
      | inl n ↦ ground arith
      | inr (o, f) ↦ (o, f, ground arith, ground arith, ground arith, ground arith)
    ]

claim_specific-busy :
    (public_id now lease : ℕ) (review : Bool) (token : ℕ → ℕ) (os : List Operation) (o : Operation)
    → find (λ x. x.public_id == public_id) os ≡ some o
    → is_none o.last_sent_at ≡ false
    → (review && not (is_in_review o.status)) ≡ false
    → is_terminal o.status ≡ false
    → has_live_lease now o ≡ true
    → claim_specific_operation public_id now lease review token os ≡ err lookup_in_progress
unfolding claim_specific_operation
claim_specific-busy public_id now lease review token os o f s r t l = rw (f, s, r, t, l) refl

-- A single lookup that is under way keeps a second one out until its lease ends.
pub claim_specific_operation-exclusive :
    (public_id now now' lease lease' : ℕ) (review : Bool) (token token' : ℕ → ℕ)
    (os os' : List Operation) (c : RecoveryClaim)
    → claim_specific_operation public_id now lease review token os ≡ ok (c, os')
    → now' < now + lease
    → claim_specific_operation public_id now' lease' review token' os' ≡ err lookup_in_progress
claim_specific_operation-exclusive public_id now now' lease lease' review token token' os os' c h
      before =
    let (o, f, s, r, t, same) = claim_specific-split public_id now lease review token os os' c h in
    let held = leased (token o.id) (now + lease) o in
    let named = find-public_id public_id os o f in
    let stored : find (λ x. x.public_id == public_id) os' ≡ some held = rw same (
      subst (λ k. find (λ x. x.public_id == k) (put_operation held os) ≡ some held) named
        (find-put_public held os o
          (subst (λ k. find (λ x. x.public_id == k) os ≡ some o) (sym named) f) refl)) in
    claim_specific-busy public_id now' lease' review token' os' held stored s r t
      (ground (arith, before))
