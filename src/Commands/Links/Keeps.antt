-- ===== src/Commands/Links/Keeps.antt =====
-- The links after a row is added, after an operation's row is written, and after an operation and its
-- resource are: payments/service.py, provider_operations/service.py and finalizer.py.
use mathlib.Core.Path.{subst}
use relaypay.Base.{
  ℕ, ◌≡◌, sym, ap, ◌∙◌, ◌⊎◌, inl, inr, some, List, [], ◌∷◌, ◌++◌, false, arith, find, any, ◌==◌,
  Bool-cases,
}
use relaypay.Rows.{
  ResourceType, World, Operation, find_operation, put_operation, find-put_operation_self,
  find-put_operation_ne, find-own_id,
}
use relaypay.Operations.Frame.{SameResources}
use relaypay.Operations.Resources.{Resource, find_resource}
use relaypay.Commands.{operation_collides}
use relaypay.Commands.Splits.{find-operation_append}
use relaypay.Commands.Links.{
  IsLinked, operation_of, status_of, kind_of, find_resource-same, find-found_append,
  find-append-cases, not-collides, same-place-collides,
}

-- The resource at `t` and `id` is the one at the place of `o`, and is `r`; or it was there before.
abbrev pub Placed : Operation → Resource → World → World → Type 0
Placed o r w v =
    (t : ResourceType) (id : ℕ) (x : Resource)
    → find_resource t id v ≡ some x
    → (t ≡ o.resource_type) × (id ≡ o.resource_id) × (x ≡ r) ⊎ (find_resource t id w ≡ some x)

pub IsLinked-added :
    (o : Operation) (r : Resource) (w v : World)
    → any (operation_collides o) w.operations ≡ false
    → v.operations ≡ w.operations ++ o ∷ []
    → operation_of r ≡ o.id
    → status_of r ≡ o.status
    → o.kind ≡ kind_of o.resource_type
    → Placed o r w v
    → IsLinked w
    → IsLinked v
IsLinked-added o r w v free same owner status kind placed linked = record {
  forward = λ t id x f. elim (placed t id x f) [
    | inl (p, q, e) ↦ (
      o,
      rw (e, owner, same) (find-operation_append o w.operations free),
      sym p,
      sym q,
      rw e (sym status),
    )
    | inr g ↦
        let (p, found, a, b, c) = linked.forward t id x g in
        (p, rw same (find-found_append (operation_of x) o p w.operations found), a, b, c)
  ];
  backward = λ p x f g. elim (find-append-cases p.id o p w.operations (rw same at f)) [
    | inl h ↦ elim (placed p.resource_type p.resource_id x g) [
      | inl (a, b, e) ↦ cc (
        same-place-collides o p p.resource_type (linked.kinds p h) (rw a kind) b,
        not-collides o p w.operations free h,
      )
      | inr g' ↦ linked.backward p x h g'
    ]
    | inr e ↦ elim (placed p.resource_type p.resource_id x g) [
      | inl (a, b, e') ↦ ap operation_of e' ∙ owner ∙ ap (λ z. z.id) (sym e)
      | inr g' ↦
          let (q, found, a, b, _) = linked.forward p.resource_type p.resource_id x g' in
          cc (
            same-place-collides o q o.resource_type
                (linked.kinds q (find-own_id (operation_of x) w q found)
                  ∙ ap kind_of (a ∙ ap (λ z. z.resource_type) e))
                kind (b ∙ ap (λ z. z.resource_id) e),
            not-collides o q w.operations free (find-own_id (operation_of x) w q found),
          )
    ]
  ];
  kinds = λ p f. elim (find-append-cases p.id o p w.operations (rw same at f)) [
    | inl h ↦ linked.kinds p h
    | inr e ↦ rw e kind
  ];
}

-- The row of an operation is written, in what no resource depends on.
pub record SameOperation (o o' : Operation) : Type 0 where
  pub id : o'.id ≡ o.id
  pub resource_type : o'.resource_type ≡ o.resource_type
  pub resource_id : o'.resource_id ≡ o.resource_id
  pub kind : o'.kind ≡ o.kind

-- A row found after a write is the row written, or another that was there before.
pub find-put-cases :
    (o o' p : Operation) (id : ℕ) (os : List Operation)
    → o'.id ≡ o.id
    → find (λ x. x.id == o.id) os ≡ some o
    → find (λ x. x.id == id) (put_operation o' os) ≡ some p
    → (p ≡ o') × (id ≡ o.id) ⊎ (find (λ x. x.id == id) os ≡ some p)
find-put-cases o o' p id os e f g = elim (Bool-cases (id == o.id)) [
  | inl same ↦
      let same' : id ≡ o.id = ground (arith, same) in
      inl (ground (arith, g, find-put_operation_self o' os o (rw e f), same', e), same')
  | inr apart ↦ inr (sym (find-put_operation_ne o' id os (λ h. ground (arith, apart, h, e))) ∙ g)
]

-- The row found before is found after, or the row written is.
pub found-put :
    (o o' p : Operation) (id : ℕ) (os : List Operation)
    → o'.id ≡ o.id
    → find (λ x. x.id == o.id) os ≡ some o
    → find (λ x. x.id == id) os ≡ some p
    → (find (λ x. x.id == id) (put_operation o' os) ≡ some p)
      ⊎ (find (λ x. x.id == id) (put_operation o' os) ≡ some o') × (p ≡ o)
found-put o o' p id os e f g = elim (Bool-cases (id == o.id)) [
  | inl same ↦
      let same' : id ≡ o.id = ground (arith, same) in
      let here : find (λ x. x.id == id) os ≡ some o =
        subst (λ k. find (λ x. x.id == k) os ≡ some o) (sym same') f in
      inr (
        subst (λ k. find (λ x. x.id == k) (put_operation o' os) ≡ some o') (e ∙ sym same')
            (find-put_operation_self o' os o
              (subst (λ k. find (λ x. x.id == k) os ≡ some o) (sym e) f)),
        ground (arith, here, g),
      )
  | inr apart ↦ inl (find-put_operation_ne o' id os (λ h. ground (arith, apart, h, e)) ∙ g)
]

-- A write that changes neither the status nor what the operation is of.
pub IsLinked-written :
    (o o' : Operation) (w v : World)
    → SameOperation o o'
    → o'.status ≡ o.status
    → find_operation o.id w ≡ some o
    → v.operations ≡ put_operation o' w.operations
    → SameResources w v
    → IsLinked w
    → IsLinked v
IsLinked-written o o' w v s status found written same linked = record {
  forward = λ t id x f.
      let (p, here, a, b, c) = linked.forward t id x (sym (find_resource-same t id w v same) ∙ f) in
      elim (found-put o o' p (operation_of x) w.operations s.id found here) [
        | inl g ↦ (p, rw written g, a, b, c)
        | inr (g, e) ↦ (
          o',
          rw written g,
          s.resource_type ∙ ap (λ z. z.resource_type) (sym e) ∙ a,
          s.resource_id ∙ ap (λ z. z.resource_id) (sym e) ∙ b,
          status ∙ ap (λ z. z.status) (sym e) ∙ c,
        )
      ];
  backward = λ p x f g.
      let g' = sym (find_resource-same p.resource_type p.resource_id w v same) ∙ g in
      elim (find-put-cases o o' p p.id w.operations s.id found (rw written at f)) [
        | inl (e, e') ↦
            linked.backward o x found (
              subst (λ t. find_resource t o.resource_id w ≡ some x)
                (ap (λ z. z.resource_type) e ∙ s.resource_type)
                (subst (λ i. find_resource p.resource_type i w ≡ some x)
                  (ap (λ z. z.resource_id) e ∙ s.resource_id) g'))
            ∙ sym e'
        | inr h ↦ linked.backward p x h g'
      ];
  kinds = λ p f. elim (find-put-cases o o' p p.id w.operations s.id found (rw written at f)) [
    | inl (e, e') ↦
        ap (λ z. z.kind) e
        ∙ s.kind
        ∙ linked.kinds o found
        ∙ ap kind_of (sym (ap (λ z. z.resource_type) e ∙ s.resource_type))
    | inr h ↦ linked.kinds p h
  ];
}
