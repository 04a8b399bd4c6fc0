-- ===== src/Commands/Links.antt =====
-- Operations and resources name each other: the foreign keys of payments/models.py and the
-- (resource_type, resource_id) of provider_operations/models.py.
pub mod Keeps
pub mod Leases
pub mod Settled
use mathlib.Core.Path.{subst}
use relaypay.Base.{
  ℕ, ◌≡◌, refl, sym, ap, ◌∙◌, ◌⊎◌, inl, inr, some, List, [], ◌∷◌, ◌++◌, true, false, arith, find,
  any, ◌==◌, Bool-cases, if◌then◌else◌,
}
use relaypay.Rows.{
  OperationStatus, ResourceType, CommandKind, World, Operation, find_operation, put_operation,
  find-put_operation, find-put_operation_self,
}
use relaypay.Operations.Frame.{SameResources}
use relaypay.Operations.Resources.{
  Resource, authorization, capture, void, refund, find_resource, resource_of,
}
use relaypay.Operations.Finalizer.Twice.{resource_of-find}
use relaypay.Commands.{operation_collides}
use relaypay.Commands.Splits.{find-operation_append}

abbrev pub operation_of : Resource → ℕ
operation_of (authorization a) = a.provider_operation_id
operation_of (capture c) = c.provider_operation_id
operation_of (void v) = v.provider_operation_id
operation_of (refund r) = r.provider_operation_id

abbrev pub status_of : Resource → OperationStatus
status_of (authorization a) = a.status
status_of (capture c) = c.status
status_of (void v) = v.status
status_of (refund r) = r.status

abbrev pub kind_of : ResourceType → CommandKind
kind_of ResourceType.authorization = CommandKind.authorize
kind_of ResourceType.capture = CommandKind.capture
kind_of ResourceType.void = CommandKind.void
kind_of ResourceType.refund = CommandKind.refund

-- The operation that a resource names is there, and names the resource, and both have one status;
-- a resource that an operation names is there only if it names the operation; and the kind of an
-- operation goes with the type of its resource.
pub record IsLinked (w : World) : Type 0 where
  pub forward :
      (t : ResourceType) (id : ℕ) (r : Resource)
      → find_resource t id w ≡ some r
      → (o : Operation) × (find_operation (operation_of r) w ≡ some o)
        × (o.resource_type ≡ t)
        × (o.resource_id ≡ id)
        × (o.status ≡ status_of r)
  pub backward :
      (o : Operation) (r : Resource)
      → find_operation o.id w ≡ some o
      → find_resource o.resource_type o.resource_id w ≡ some r
      → operation_of r ≡ o.id
  pub kinds : (o : Operation) → find_operation o.id w ≡ some o → o.kind ≡ kind_of o.resource_type

pub find_resource-same :
    (t : ResourceType) (id : ℕ) (w w' : World)
    → SameResources w w'
    → find_resource t id w' ≡ find_resource t id w
find_resource-same ResourceType.authorization id w w' s = rw s.authorization refl
find_resource-same ResourceType.capture id w w' s = rw s.capture refl
find_resource-same ResourceType.void id w w' s = rw s.void refl
find_resource-same ResourceType.refund id w w' s = rw s.refunds refl

pub find-found_append :
    (id : ℕ) (o p : Operation) (os : List Operation)
    → find (λ x. x.id == id) os ≡ some p
    → find (λ x. x.id == id) (os ++ o ∷ []) ≡ some p
find-found_append id o p [] h = cc
find-found_append id o p (q ∷ qs) h = ground (arith, find-found_append id o p qs)

pub find-append-cases :
    (id : ℕ) (o p : Operation) (os : List Operation)
    → find (λ x. x.id == id) (os ++ o ∷ []) ≡ some p
    → (find (λ x. x.id == id) os ≡ some p) ⊎ (p ≡ o)
find-append-cases id o p [] h = inr (ground arith)
find-append-cases id o p (q ∷ qs) h = elim (Bool-cases (q.id == id)) [
  | inl e ↦ inl (ground (arith, h, e))
  | inr e ↦ elim (find-append-cases id o p qs (ground (arith, h, e))) [
    | inl f ↦ inl (ground (arith, e, f))
    | inr f ↦ inr f
  ]
]

pub not-collides :
    (o p : Operation) (os : List Operation)
    → any (operation_collides o) os ≡ false
    → find (λ x. x.id == p.id) os ≡ some p
    → operation_collides o p ≡ false
not-collides o p [] h f = cc
not-collides o p (q ∷ qs) h f = ground (arith, not-collides o p qs)

pub same-place-collides :
    (o p : Operation) (t : ResourceType)
    → p.kind ≡ kind_of t
    → o.kind ≡ kind_of t
    → p.resource_id ≡ o.resource_id
    → operation_collides o p ≡ true
same-place-collides o p ResourceType.authorization k l e = ground arith
same-place-collides o p ResourceType.capture k l e = ground arith
same-place-collides o p ResourceType.void k l e = ground arith
same-place-collides o p ResourceType.refund k l e = ground arith
