-- ===== src/Commands/Links/Leases.antt =====
-- The links when leases are taken: provider_operations/recovery.py.
use mathlib.Core.Path.{subst}
use relaypay.Base.{
  ℕ, ◌≡◌, refl, sym, ap, ◌∙◌, inl, inr, some, List, [], ◌∷◌, arith, find, ◌==◌, Bool-cases, elem,
}
use relaypay.Rows.{World, Operation}
use relaypay.Operations.Frame.{SameResources}
use relaypay.Operations.Resources.{find_resource}
use relaypay.Operations.Recovery.{leased, lease_rows}
use relaypay.Commands.Links.{IsLinked, kind_of, find_resource-same}
use relaypay.Commands.Links.Keeps.{SameOperation}

-- A row with or without a new lease.
record Alike (o o' : Operation) : Type 0 where
  same : SameOperation o o'
  status : o'.status ≡ o.status

Alike-refl : (o : Operation) → Alike o o
Alike-refl o = record {
  same = record { id = refl; resource_type = refl; resource_id = refl; kind = refl };
  status = refl;
}

leased-Alike : (token expires : ℕ) (o : Operation) → Alike o (leased token expires o)
leased-Alike token expires o = record {
  same = record { id = refl; resource_type = refl; resource_id = refl; kind = refl };
  status = refl;
}

module _ (token : ℕ → ℕ) (expires : ℕ) (chosen : List ℕ) where
  find-lease_rows :
      (id : ℕ) (o : Operation) (os : List Operation)
      → find (λ x. x.id == id) os ≡ some o
      → (o' : Operation) × (find (λ x. x.id == id) (lease_rows token expires chosen os) ≡ some o')
        × Alike o o'
  unfolding lease_rows
  find-lease_rows id o [] f = cc
  find-lease_rows id o (p ∷ ps) f = elim (Bool-cases (p.id == id)) [
    | inl m ↦
        let same : p ≡ o = ground (arith, f, m) in
        elim (Bool-cases (elem p.id chosen)) [
          | inl e ↦ (
            leased (token p.id) expires p,
            rw (e, m) refl,
            subst (λ x. Alike x (leased (token p.id) expires p)) same
                (leased-Alike (token p.id) expires p),
          )
          | inr e ↦ (p, rw (e, m) refl, subst (λ x. Alike x p) same (Alike-refl p))
        ]
    | inr m ↦
        let (o', g, s) = find-lease_rows id o ps (ground (arith, f, m)) in
        elim (Bool-cases (elem p.id chosen)) [
          | inl e ↦ (o', rw (e, m) g, s)
          | inr e ↦ (o', rw (e, m) g, s)
        ]
  ]

  found-lease_rows :
      (id : ℕ) (o' : Operation) (os : List Operation)
      → find (λ x. x.id == id) (lease_rows token expires chosen os) ≡ some o'
      → (o : Operation) × (find (λ x. x.id == id) os ≡ some o) × Alike o o'
  unfolding lease_rows
  found-lease_rows id o' [] f = cc
  found-lease_rows id o' (p ∷ ps) f = elim (Bool-cases (elem p.id chosen)) [
    | inl e ↦ elim (Bool-cases (p.id == id)) [
      | inl m ↦
          let same : leased (token p.id) expires p ≡ o' = ground (arith, f, e, m) in
          (p, rw m refl, subst (Alike p) same (leased-Alike (token p.id) expires p))
      | inr m ↦
          let (o, g, s) = found-lease_rows id o' ps (ground (arith, f, e, m)) in (o, rw m g, s)
    ]
    | inr e ↦ elim (Bool-cases (p.id == id)) [
      | inl m ↦
          let same : p ≡ o' = ground (arith, f, e, m) in
          (p, rw m refl, subst (Alike p) same (Alike-refl p))
      | inr m ↦
          let (o, g, s) = found-lease_rows id o' ps (ground (arith, f, e, m)) in (o, rw m g, s)
    ]
  ]

  pub IsLinked-leased :
      (w v : World)
      → SameResources w v
      → v.operations ≡ lease_rows token expires chosen w.operations
      → IsLinked w
      → IsLinked v
  IsLinked-leased w v s e h = record {
    forward = λ t id r f.
        let (o, g, a, b, c) = h.forward t id r (sym (find_resource-same t id w v s) ∙ f) in
        let (o', g', k) = find-lease_rows _ o w.operations g in
        (o', rw e g', k.same.resource_type ∙ a, k.same.resource_id ∙ b, k.status ∙ c);
    backward = λ o r f g.
        let (p, f', k) = found-lease_rows o.id o w.operations (rw e at f) in
        let own = subst (λ i. find (λ x. x.id == i) w.operations ≡ some p) k.same.id f' in
        let there = sym (find_resource-same o.resource_type o.resource_id w v s) ∙ g in
        h.backward p r own (
          subst (λ t. find_resource t p.resource_id w ≡ some r) k.same.resource_type
            (subst (λ i. find_resource o.resource_type i w ≡ some r) k.same.resource_id there))
        ∙ sym k.same.id;
    kinds = λ o f.
        let (p, f', k) = found-lease_rows o.id o w.operations (rw e at f) in
        let own = subst (λ i. find (λ x. x.id == i) w.operations ≡ some p) k.same.id f' in
        k.same.kind ∙ h.kinds p own ∙ sym (ap kind_of k.same.resource_type);
  }
