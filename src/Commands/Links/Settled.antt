-- ===== src/Commands/Links/Settled.antt =====
-- The links after an operation and its resource are given a status: finalizer.py.
use mathlib.Core.Path.{subst}
use mathlib.Core.Option.{some-injective}
use relaypay.Base.{ℕ, ◌≡◌, sym, ap, ◌∙◌, inl, inr, some}
use relaypay.Rows.{
  ResourceType, World, Operation, find_operation, put_operation, find-put_operation_self,
}
use relaypay.Operations.Resources.{Resource, find_resource}
use relaypay.Commands.Links.{IsLinked, operation_of, status_of, kind_of}
use relaypay.Commands.Links.Keeps.{Placed, SameOperation, find-put-cases, found-put}

pub at_place :
    (t u : ResourceType) (id jd : ℕ) (w : World) (r : Resource)
    → t ≡ u
    → id ≡ jd
    → find_resource t id w ≡ some r
    → find_resource u jd w ≡ some r
at_place t u id jd w r e f h =
    subst (λ z. find_resource z jd w ≡ some r) e (subst (λ z. find_resource t z w ≡ some r) f h)

one_at :
    (t u : ResourceType) (id jd : ℕ) (w : World) (x r : Resource)
    → t ≡ u
    → id ≡ jd
    → find_resource t id w ≡ some x
    → find_resource u jd w ≡ some r
    → x ≡ r
one_at t u id jd w x r e f h g = some-injective x r (sym (at_place t u id jd w x e f h) ∙ g)

-- An operation and the resource that it names have one status.
pub linked-status :
    (o : Operation) (r : Resource) (w : World)
    → IsLinked w
    → find_operation o.id w ≡ some o
    → find_resource o.resource_type o.resource_id w ≡ some r
    → o.status ≡ status_of r
linked-status o r w linked found there =
    let (p, here, _, _, same) = linked.forward o.resource_type o.resource_id r there in
    let named : find_operation (operation_of r) w ≡ some o =
      subst (λ k. find_operation k w ≡ some o) (sym (linked.backward o r found there)) found in
    ap (λ z. z.status) (some-injective o p (sym named ∙ here)) ∙ same

-- The operation and its resource are given a status.
pub IsLinked-settled :
    (o o' : Operation) (r r' : Resource) (w v : World)
    → SameOperation o o'
    → operation_of r' ≡ operation_of r
    → status_of r' ≡ o'.status
    → find_operation o.id w ≡ some o
    → find_resource o.resource_type o.resource_id w ≡ some r
    → find_resource o.resource_type o.resource_id v ≡ some r'
    → v.operations ≡ put_operation o' w.operations
    → Placed o r' w v
    → IsLinked w
    → IsLinked v
IsLinked-settled o o' r r' w v s owner status found there after written placed linked =
    let named = owner ∙ linked.backward o r found there in
    record {
      forward = λ t id x f. elim (placed t id x f) [
        | inl (a, b, e) ↦ (
          o',
          rw (written, e, named, sym s.id)
              (find-put_operation_self o' w.operations o (rw s.id found)),
          s.resource_type ∙ sym a,
          s.resource_id ∙ sym b,
          sym status ∙ ap status_of (sym e),
        )
        | inr g ↦
            let (p, here, a, b, c) = linked.forward t id x g in
            elim (found-put o o' p (operation_of x) w.operations s.id found here) [
              | inl h ↦ (p, rw written h, a, b, c)
              | inr (h, e) ↦ (
                o',
                rw written h,
                s.resource_type ∙ ap (λ z. z.resource_type) (sym e) ∙ a,
                s.resource_id ∙ ap (λ z. z.resource_id) (sym e) ∙ b,
                sym status
                    ∙ ap status_of (
                        sym (
                          one_at t o.resource_type id o.resource_id v x r'
                            (sym a ∙ ap (λ z. z.resource_type) e)
                            (sym b ∙ ap (λ z. z.resource_id) e) f after)),
              )
            ]
      ];
      backward = λ p x f g.
          elim (find-put-cases o o' p p.id w.operations s.id found (rw written at f)) [
            | inl (e, e') ↦
                ap operation_of (
                  one_at p.resource_type o.resource_type p.resource_id o.resource_id v x r'
                    (ap (λ z. z.resource_type) e ∙ s.resource_type)
                    (ap (λ z. z.resource_id) e ∙ s.resource_id) g after)
                ∙ named
                ∙ sym e'
            | inr h ↦ elim (placed p.resource_type p.resource_id x g) [
              | inl (a, b, e) ↦
                  ap operation_of e
                  ∙ owner
                  ∙ linked.backward p r h (
                      at_place o.resource_type p.resource_type o.resource_id p.resource_id w r
                        (sym a) (sym b) there)
              | inr g' ↦ linked.backward p x h g'
            ]
          ];
      kinds = λ p f. elim (find-put-cases o o' p p.id w.operations s.id found (rw written at f)) [
        | inl (e, e') ↦
            ap (λ z. z.kind) e
            ∙ s.kind
            ∙ linked.kinds o found
            ∙ ap kind_of (sym (ap (λ z. z.resource_type) e ∙ s.resource_type))
        | inr h ↦ linked.kinds p h
      ];
    }
