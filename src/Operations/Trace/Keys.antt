-- ===== src/Operations/Trace/Keys.antt =====
-- Rows by their primary key, and writes that keep the identity of a row: provider_operations/models.py.
use mathlib.Core.Path.{subst}
use relaypay.Base.{
  ℕ, ◌≡◌, refl, sym, ◌∙◌, ap, inl, inr, some, List, [], ◌∷◌, map, Bool, true, false, arith,
  Bool-cases, All, find, elem, is_some, ◌==◌, ==_refl,
}
use relaypay.Rows.{Operation, put_operation}
use relaypay.Operations.Recovery.{leased, lease_rows}

-- The primary key: no row has the id of another.
abbrev pub Keyed : List ℕ → Type 0
Keyed [] = Unit
Keyed (i ∷ is) = All (λ k. (k == i) ≡ false) is × Keyed is

abbrev pub ids : List Operation → List ℕ
ids = map (λ o. o.id)

-- The row of this public id is there, and is as `P` says.
abbrev pub IsRow : (Operation → Type 0) → ℕ → List Operation → Type 0
IsRow P public_id os = (o : Operation) × (find (λ x. x.public_id == public_id) os ≡ some o) × P o

abbrev pub IsSent : ℕ → List Operation → Type 0
IsSent = IsRow (λ o. is_some o.last_sent_at ≡ true)

-- A row that is written keeps its identity, and once it was sent, that and its request.
pub record Written (o o' : Operation) : Type 0 where
  pub id : o'.id ≡ o.id
  pub public_id : o'.public_id ≡ o.public_id
  pub key : o'.stable_provider_key ≡ o.stable_provider_key
  pub sent :
      is_some o.last_sent_at ≡ true
      → (is_some o'.last_sent_at ≡ true) × (o'.provider_request ≡ o.provider_request)

pub data Touched (os os' : List Operation) : Type 0 where
  untouched : os' ≡ os → Touched os os'
  written :
      (o o' : Operation)
      → Written o o'
      → find (λ x. x.id == o.id) os ≡ some o
      → os' ≡ put_operation o' os
      → Touched os os'
  all_leased :
      (token : ℕ → ℕ) (expires : ℕ) (chosen : List ℕ)
      → os' ≡ lease_rows token expires chosen os
      → Touched os os'

ids-put_operation : (o' : Operation) (os : List Operation) → ids (put_operation o' os) ≡ ids os
unfolding put_operation
ids-put_operation o' [] = refl
ids-put_operation o' (p ∷ ps) = elim (Bool-cases (p.id == o'.id)) [
  | inl e ↦ rw (e, ids-put_operation o' ps) (ground (arith, e))
  | inr e ↦ rw (e, ids-put_operation o' ps) refl
]

-- A list without the id is not written.
put_operation-absent :
    (o' : Operation) (os : List Operation)
    → All (λ k. (k == o'.id) ≡ false) (ids os)
    → put_operation o' os ≡ os
unfolding put_operation
put_operation-absent o' [] a = refl
put_operation-absent o' (p ∷ ps) a = rw (a.0, put_operation-absent o' ps a.1) refl

-- With one row of an id, a row found by it is the first of its public id that is written.
find-head :
    (p o : Operation) (ps : List Operation)
    → (p.id == o.id) ≡ true
    → find (λ x. x.id == o.id) (p ∷ ps) ≡ some o
    → p ≡ o
find-head p o ps e f = ground (arith, e, f)

find-tail :
    (p o : Operation) (ps : List Operation)
    → (p.id == o.id) ≡ false
    → find (λ x. x.id == o.id) (p ∷ ps) ≡ some o
    → find (λ x. x.id == o.id) ps ≡ some o
find-tail p o ps e f = ground (arith, e, f)

find-public_head :
    (p q : Operation) (public_id : ℕ) (ps : List Operation)
    → (p.public_id == public_id) ≡ true
    → find (λ x. x.public_id == public_id) (p ∷ ps) ≡ some q
    → p ≡ q
find-public_head p q public_id ps e f = ground (arith, e, f)

find-public_tail :
    (p q : Operation) (public_id : ℕ) (ps : List Operation)
    → (p.public_id == public_id) ≡ false
    → find (λ x. x.public_id == public_id) (p ∷ ps) ≡ some q
    → find (λ x. x.public_id == public_id) ps ≡ some q
find-public_tail p q public_id ps e f = ground (arith, e, f)

put_operation-IsRow :
    (P : Operation → Type 0) (o o' : Operation) (public_id : ℕ) (os : List Operation)
    → Written o o'
    → Keyed (ids os)
    → find (λ x. x.id == o.id) os ≡ some o
    → (P o → P o')
    → IsRow P public_id os
    → IsRow P public_id (put_operation o' os)
unfolding put_operation
put_operation-IsRow P o o' public_id [] w k f kept (q, g, s) = ground arith
put_operation-IsRow P o o' public_id (p ∷ ps) w k f kept (q, g, s) =
    elim (Bool-cases (p.id == o.id)) [
      | inl e ↦
          let same = find-head p o ps e f in
          let absent : All (λ k. (k == o'.id) ≡ false) (ids ps) =
            subst (λ j. All (λ k. (k == j) ≡ false) (ids ps)) (ap (λ x. x.id) same ∙ sym w.id)
              k.0 in
          let hit : (p.id == o'.id) ≡ true = subst (λ j. (p.id == j) ≡ true) (sym w.id) e in
          let named : p.public_id ≡ o'.public_id = ap (λ x. x.public_id) same ∙ sym w.public_id in
          elim (Bool-cases (p.public_id == public_id)) [
            | inl m ↦
                let m' : (o'.public_id == public_id) ≡ true =
                  subst (λ j. (j == public_id) ≡ true) named m in
                let first = find-public_head p q public_id ps m g in
                (o', rw (hit, m') refl, kept (subst P (sym first ∙ same) s))
            | inr m ↦
                let m' : (o'.public_id == public_id) ≡ false =
                  subst (λ j. (j == public_id) ≡ false) named m in
                (
                  q,
                  rw (hit, m', put_operation-absent o' ps absent)
                      (find-public_tail p q public_id ps m g),
                  s,
                )
          ]
      | inr e ↦
          let miss : (p.id == o'.id) ≡ false = subst (λ j. (p.id == j) ≡ false) (sym w.id) e in
          elim (Bool-cases (p.public_id == public_id)) [
            | inl m ↦
                (p, rw (miss, m) refl, subst P (sym (find-public_head p q public_id ps m g)) s)
            | inr m ↦
                let (r, h, t) =
                  put_operation-IsRow P o o' public_id ps w k.1 (find-tail p o ps e f) kept
                    (q, find-public_tail p q public_id ps m g, s) in
                (r, rw (miss, m) h, t)
          ]
    ]

ids-lease_rows :
    (token : ℕ → ℕ) (expires : ℕ) (chosen : List ℕ) (os : List Operation)
    → ids (lease_rows token expires chosen os) ≡ ids os
unfolding lease_rows
ids-lease_rows token expires chosen [] = refl
ids-lease_rows token expires chosen (p ∷ ps) = elim (Bool-cases (elem p.id chosen)) [
  | inl e ↦ rw (e, ids-lease_rows token expires chosen ps) refl
  | inr e ↦ rw (e, ids-lease_rows token expires chosen ps) refl
]

leased-Written : (token expires : ℕ) (o : Operation) → Written o (leased token expires o)
leased-Written token expires o = record {
  id = refl;
  public_id = refl;
  key = refl;
  sent = λ t. (t, refl);
}

lease_rows-IsRow :
    (P : Operation → Type 0) (token : ℕ → ℕ) (expires : ℕ) (chosen : List ℕ) (public_id : ℕ)
    (os : List Operation)
    → ((o o' : Operation) → Written o o' → P o → P o')
    → IsRow P public_id os
    → IsRow P public_id (lease_rows token expires chosen os)
unfolding lease_rows
lease_rows-IsRow P token expires chosen public_id [] kept (q, g, s) = ground arith
lease_rows-IsRow P token expires chosen public_id (p ∷ ps) kept (q, g, s) =
    elim (Bool-cases (p.public_id == public_id)) [
      | inl m ↦
          let here = subst P (sym (find-public_head p q public_id ps m g)) s in
          elim (Bool-cases (elem p.id chosen)) [
            | inl e ↦
                let p' = leased (token p.id) expires p in
                (p', rw (e, m) refl, kept p p' (leased-Written (token p.id) expires p) here)
            | inr e ↦ (p, rw (e, m) refl, here)
          ]
      | inr m ↦
          let (r, h, t) =
            lease_rows-IsRow P token expires chosen public_id ps kept
              (q, find-public_tail p q public_id ps m g, s) in
          elim (Bool-cases (elem p.id chosen)) [
            | inl e ↦ (r, rw (e, m) h, t)
            | inr e ↦ (r, rw (e, m) h, t)
          ]
    ]

-- What every write of a row keeps, a transaction keeps.
pub Touched-IsRow :
    (P : Operation → Type 0) (public_id : ℕ) (os os' : List Operation)
    → ((o o' : Operation) → Written o o' → P o → P o')
    → Touched os os'
    → Keyed (ids os)
    → IsRow P public_id os
    → IsRow P public_id os'
Touched-IsRow P public_id os os' kept (untouched e) k s = subst (IsRow P public_id) (sym e) s
Touched-IsRow P public_id os os' kept (written o o' w f e) k s =
    subst (IsRow P public_id) (sym e)
      (put_operation-IsRow P o o' public_id os w k f (kept o o' w) s)
Touched-IsRow P public_id os os' kept (all_leased t x is e) k s =
    subst (IsRow P public_id) (sym e) (lease_rows-IsRow P t x is public_id os kept s)

pub Touched-IsSent :
    (public_id : ℕ) (os os' : List Operation)
    → Touched os os'
    → Keyed (ids os)
    → IsSent public_id os
    → IsSent public_id os'
Touched-IsSent public_id os os' t k s =
    Touched-IsRow (λ o. is_some o.last_sent_at ≡ true) public_id os os' (λ o o' w h. (w.sent h).0) t
      k s

pub Touched-Keyed : (os os' : List Operation) → Touched os os' → Keyed (ids os) → Keyed (ids os')
Touched-Keyed os os' (untouched e) k = subst (λ x. Keyed (ids x)) (sym e) k
Touched-Keyed os os' (written o o' w f e) k =
    subst (λ x. Keyed (ids x)) (sym e) (subst Keyed (sym (ids-put_operation o' os)) k)
Touched-Keyed os os' (all_leased t x is e) k =
    subst (λ z. Keyed (ids z)) (sym e) (subst Keyed (sym (ids-lease_rows t x is os)) k)

All-found :
    (P : ℕ → Type 0) (p : Operation → Bool) (os : List Operation) (o : Operation)
    → find p os ≡ some o
    → All P (ids os)
    → P o.id
All-found P p [] o f a = cc
All-found P p (q ∷ qs) o f a = elim (Bool-cases (p q)) [
  | inl e ↦ let same : q ≡ o = ground (arith, e, f) in subst (λ x. P x.id) same a.0
  | inr e ↦ All-found P p qs o (rw e at f) a.1
]

-- With keys, a row that is found by its public id is found by its id.
pub find-id_of_public :
    (public_id : ℕ) (os : List Operation) (o : Operation)
    → Keyed (ids os)
    → find (λ x. x.public_id == public_id) os ≡ some o
    → find (λ x. x.id == o.id) os ≡ some o
find-id_of_public public_id [] o k f = cc
find-id_of_public public_id (q ∷ qs) o k f = elim (Bool-cases (q.public_id == public_id)) [
  | inl e ↦
      let same = find-public_head q o public_id qs e f in
      subst (λ x. find (λ y. y.id == x.id) (q ∷ qs) ≡ some x) same (rw (==_refl q.id) refl)
  | inr e ↦
      let tail = find-public_tail q o public_id qs e f in
      let apart =
        All-found (λ k. (k == q.id) ≡ false) (λ x. x.public_id == public_id) qs o tail k.0 in
      let apart' : (q.id == o.id) ≡ false = ground (arith, apart) in
      rw apart' (find-id_of_public public_id qs o k.1 tail)
]
