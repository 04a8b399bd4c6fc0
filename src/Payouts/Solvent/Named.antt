-- ===== src/Payouts/Solvent/Named.antt =====
-- Rows that their ids find, after a write: the primary keys of payouts/models.py.
use mathlib.Core.Path.{subst}
use relaypay.Base.{
  ℕ, ◌≡◌, refl, sym, ap, ◌∙◌, inl, inr, none, some, List, [], ◌∷◌, ◌++◌, Bool, true, false, arith,
  find, ◌==◌, ==_refl, Bool-cases, All, All-append,
}
use relaypay.Payouts.{Payout, PayoutAttempt, put_payout, put_payout_attempt}
use relaypay.Payouts.Solvent.Found.{find-put_payout_self}

module _ {ℓ κ} {A : Type ℓ} (P Q : A → Type κ) where
  All_mono : (xs : List A) → ((x : A) → P x → Q x) → All P xs → All Q xs
  All_mono [] f h = tt
  All_mono (x ∷ xs) f h = (f x h.0, All_mono xs f h.1)

module _ {A : Type 0} where
  pub find-append :
      (q : A → Bool) (x : A) (xs ys : List A) → find q xs ≡ some x → find q (xs ++ ys) ≡ some x
  find-append q x [] ys h = cc
  find-append q x (y ∷ xs) ys h = elim (Bool-cases (q y)) [
    | inl e ↦ ground (arith, h, e)
    | inr e ↦ let rest = find-append q x xs ys (rw e at h) in rw e rest
  ]

  pub find-append_last :
      (q : A → Bool) (x : A) (xs : List A)
      → find q xs ≡ none
      → q x ≡ true
      → find q (xs ++ x ∷ []) ≡ some x
  find-append_last q x [] h e = rw e refl
  find-append_last q x (y ∷ xs) h e = elim (Bool-cases (q y)) [
    | inl f ↦ ground (arith, h, f)
    | inr f ↦ let rest = find-append_last q x xs (rw f at h) e in rw f rest
  ]

  pub found_id :
      (id_of : A → ℕ) (x : A) (id : ℕ) (xs : List A)
      → find (λ y. id_of y == id) xs ≡ some x
      → id_of x ≡ id
  found_id id_of x id [] f = cc
  found_id id_of x id (y ∷ ys) f = elim (Bool-cases (id_of y == id)) [
    | inl e ↦
        let here : id_of y ≡ id = ground (arith, e) in
        let same : y ≡ x = ground (arith, e, f) in sym (ap id_of same) ∙ here
    | inr e ↦ found_id id_of x id ys (rw e at f)
  ]

  pub All-append_named :
      (id_of : A → ℕ) (x : A) (xs : List A)
      → find (λ y. id_of y == id_of x) xs ≡ none
      → All (λ z. find (λ y. id_of y == id_of z) xs ≡ some z) xs
      → All (λ z. find (λ y. id_of y == id_of z) (xs ++ x ∷ []) ≡ some z) (xs ++ x ∷ [])
  All-append_named id_of x xs fresh h =
      All-append _ xs (x ∷ [])
        (All_mono _ _ xs (λ z e. find-append (λ y. id_of y == id_of z) z xs (x ∷ []) e) h)
        (find-append_last (λ y. id_of y == id_of x) x xs fresh (==_refl (id_of x)), tt)

module _ (P Q : Payout → Type 0) where
  All-put_payout :
      (p : Payout) (ps : List Payout)
      → Q p
      → ((x : Payout) → (x.id == p.id) ≡ false → P x → Q x)
      → All P ps
      → All Q (put_payout p ps)
  unfolding put_payout
  All-put_payout p [] here there h = tt
  All-put_payout p (x ∷ xs) here there h =
      let rest = All-put_payout p xs here there h.1 in
      elim (Bool-cases (x.id == p.id)) [
        | inl e ↦ rw e (here, rest)
        | inr e ↦ rw e (there x e h.0, rest)
      ]

find-put_payout_other :
    (p x : Payout) (ps : List Payout)
    → (x.id == p.id) ≡ false
    → find (λ y. y.id == x.id) ps ≡ some x
    → find (λ y. y.id == x.id) (put_payout p ps) ≡ some x
unfolding put_payout
find-put_payout_other p x [] e h = cc
find-put_payout_other p x (y ∷ ys) e h = ground (arith, e, h, find-put_payout_other p x ys)

pub All-put_payout_named :
    (p p' : Payout) (ps : List Payout)
    → p'.id ≡ p.id
    → find (λ y. y.id == p.id) ps ≡ some p
    → All (λ z. find (λ y. y.id == z.id) ps ≡ some z) ps
    → All (λ z. find (λ y. y.id == z.id) (put_payout p' ps) ≡ some z) (put_payout p' ps)
All-put_payout_named p p' ps same found h =
    All-put_payout _ _ p' ps
      (subst (λ k. find (λ y. y.id == k) (put_payout p' ps) ≡ some p') (sym same)
        (find-put_payout_self p' p ps same found))
      (λ x e f. find-put_payout_other p' x ps e f) h

module _ (P Q : PayoutAttempt → Type 0) where
  All-put_payout_attempt :
      (a : PayoutAttempt) (xs : List PayoutAttempt)
      → Q a
      → ((x : PayoutAttempt) → (x.id == a.id) ≡ false → P x → Q x)
      → All P xs
      → All Q (put_payout_attempt a xs)
  unfolding put_payout_attempt
  All-put_payout_attempt a [] here there h = tt
  All-put_payout_attempt a (x ∷ xs) here there h =
      let rest = All-put_payout_attempt a xs here there h.1 in
      elim (Bool-cases (x.id == a.id)) [
        | inl e ↦ rw e (here, rest)
        | inr e ↦ rw e (there x e h.0, rest)
      ]

find-put_payout_attempt_other :
    (a x : PayoutAttempt) (xs : List PayoutAttempt)
    → (x.id == a.id) ≡ false
    → find (λ y. y.id == x.id) xs ≡ some x
    → find (λ y. y.id == x.id) (put_payout_attempt a xs) ≡ some x
unfolding put_payout_attempt
find-put_payout_attempt_other a x [] e h = cc
find-put_payout_attempt_other a x (y ∷ ys) e h =
    ground (arith, e, h, find-put_payout_attempt_other a x ys)

pub find-put_payout_attempt_self :
    (a b : PayoutAttempt) (xs : List PayoutAttempt)
    → a.id ≡ b.id
    → find (λ x. x.id == b.id) xs ≡ some b
    → find (λ x. x.id == b.id) (put_payout_attempt a xs) ≡ some a
unfolding put_payout_attempt
find-put_payout_attempt_self a b [] e h = cc
find-put_payout_attempt_self a b (s ∷ ss) e h =
    ground (arith, e, h, find-put_payout_attempt_self a b ss)

pub All-put_payout_attempt_named :
    (a a' : PayoutAttempt) (xs : List PayoutAttempt)
    → a'.id ≡ a.id
    → find (λ y. y.id == a.id) xs ≡ some a
    → All (λ z. find (λ y. y.id == z.id) xs ≡ some z) xs
    → All
        (λ z. find (λ y. y.id == z.id) (put_payout_attempt a' xs) ≡ some z)
        (put_payout_attempt a' xs)
All-put_payout_attempt_named a a' xs same found h =
    All-put_payout_attempt _ _ a' xs
      (subst (λ k. find (λ y. y.id == k) (put_payout_attempt a' xs) ≡ some a') (sym same)
        (find-put_payout_attempt_self a' a xs same found))
      (λ x e f. find-put_payout_attempt_other a' x xs e f) h

-- Every attempt is still found, with its payout, after another version of one is put.
pub found-put_payout_attempt :
    (a a' x : PayoutAttempt) (id : ℕ) (xs : List PayoutAttempt)
    → a'.id ≡ a.id
    → a'.payout_id ≡ a.payout_id
    → find (λ y. y.id == a.id) xs ≡ some a
    → find (λ y. y.id == id) xs ≡ some x
    → (b : PayoutAttempt) × (find (λ y. y.id == id) (put_payout_attempt a' xs) ≡ some b)
      × (b.payout_id ≡ x.payout_id)
found-put_payout_attempt a a' x id xs same of found f = elim (Bool-cases (id == a.id)) [
  | inl e ↦
      let here : id ≡ a.id = ground (arith, e) in
      let is_a : x ≡ a =
        some-inj (sym f ∙ subst (λ k. find (λ y. y.id == k) xs ≡ some a) (sym here) found) in
      (
        a',
        subst (λ k. find (λ y. y.id == k) (put_payout_attempt a' xs) ≡ some a') (sym here)
            (find-put_payout_attempt_self a' a xs same found),
        of ∙ ap (λ z. z.payout_id) (sym is_a),
      )
  | inr e ↦
      let named : x.id ≡ id = found_id (λ y. y.id) x id xs f in
      let other : (x.id == a'.id) ≡ false = ground (arith, e, named, same) in
      (
        x,
        subst (λ k. find (λ y. y.id == k) (put_payout_attempt a' xs) ≡ some x) named
            (find-put_payout_attempt_other a' x xs other
              (subst (λ k. find (λ y. y.id == k) xs ≡ some x) (sym named) f)),
        refl,
      )
]
  where
    some-inj : {x y : PayoutAttempt} → some x ≡ some y → x ≡ y
    some-inj e = ground (arith, e)

put_all_same :
    (p : Payout) (xs : List Payout)
    → All (λ x. (x.id == p.id) ≡ true → x ≡ p) xs
    → put_payout p xs ≡ xs
unfolding put_payout
put_all_same p [] h = refl
put_all_same p (x ∷ xs) h =
    let rest = put_all_same p xs h.1 in
    elim (Bool-cases (x.id == p.id)) [
      | inl e ↦ let same : x ≡ p = h.0 e in rw (e, rest) (ap (λ z. z ∷ xs) (sym same))
      | inr e ↦ rw (e, rest) refl
    ]

-- To put a row that is there changes nothing.
pub put_payout_same :
    (p : Payout) (ps : List Payout)
    → find (λ y. y.id == p.id) ps ≡ some p
    → All (λ z. find (λ y. y.id == z.id) ps ≡ some z) ps
    → put_payout p ps ≡ ps
put_payout_same p ps found h = put_all_same p ps (All_mono _ _ ps is_p h)
  where
    is_p : (x : Payout) → find (λ y. y.id == x.id) ps ≡ some x → (x.id == p.id) ≡ true → x ≡ p
    is_p x f e =
        let here : x.id ≡ p.id = ground (arith, e) in
        let both = sym (subst (λ k. find (λ y. y.id == k) ps ≡ some x) here f) ∙ found in
        ground (arith, both)
