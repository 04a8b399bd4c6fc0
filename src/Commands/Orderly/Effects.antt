-- ===== src/Commands/Orderly/Effects.antt =====
-- What each transaction on a payment's operations does to the operations and to their resources:
-- provider_operations/service.py and finalizer.py.
use relaypay.Base.{
  ℕ, ◌+◌, ◌≡◌, refl, sym, ap, List, ◌∙◌, inl, inr, Option, none, some, not, ◌||◌, ok, arith, find,
  is_some, Bool-cases, Option-cases, Result-cases, if◌then◌else◌,
}
use relaypay.Rows.{is_terminal, Operation, World, find_operation, put_operation, find-own_id}
use relaypay.Operations.Frame.{SameResources}
use relaypay.Operations.Validation.{ProviderObservation, Codec, ClassifiedProviderResult}
use relaypay.Operations.Service.Sends.{insert_attempt}
use relaypay.Operations.Service.Records.{
  RecordedOutcome, complete_mutation, decide_lookup, record_open_lookup, record_lookup_observation,
  next_lookup, is_lookup_action, is_mutation_of, holds_lease, count_lookups,
}
use relaypay.Operations.Recovery.{lease_rows}
use relaypay.Commands.Links.{IsLinked, find_resource-same}
use relaypay.Commands.Links.Keeps.{SameOperation, IsLinked-written}
use relaypay.Commands.Links.Leases.{IsLinked-leased}
use relaypay.Commands.Orderly.{IsOrderly, IsOrderly-of_links}
use relaypay.Commands.Orderly.Keeps.{Settles, Settles-IsOrderly}

pub data Effect (w v : World) : Type 0 where
  quiet : SameResources w v → v.operations ≡ w.operations → Effect w v
  rewritten :
      (o o' : Operation)
      → SameOperation o o'
      → o'.status ≡ o.status
      → find_operation o.id w ≡ some o
      → v.operations ≡ put_operation o' w.operations
      → SameResources w v
      → Effect w v
  settled : Settles w v → Effect w v
  leases :
      (token : ℕ → ℕ) (expires : ℕ) (chosen : List ℕ)
      → v.operations ≡ lease_rows token expires chosen w.operations
      → SameResources w v
      → Effect w v

pub IsLinked-quiet :
    (w v : World) → SameResources w v → v.operations ≡ w.operations → IsLinked w → IsLinked v
IsLinked-quiet w v s e h = record {
  forward = λ t id r f.
      let (o, g, a, b, c) = h.forward t id r (sym (find_resource-same t id w v s) ∙ f) in
      (o, rw e g, a, b, c);
  backward = λ o r f g.
      h.backward o r (rw e at f) (sym (find_resource-same o.resource_type o.resource_id w v s) ∙ g);
  kinds = λ o f. h.kinds o (rw e at f);
}

pub Effect-IsOrderly : (w v : World) → Effect w v → IsOrderly w → IsOrderly v
Effect-IsOrderly w v (quiet s e) h = IsOrderly-of_links w v s (IsLinked-quiet w v s e h.linked) h
Effect-IsOrderly w v (rewritten o o' i t f e s) h =
    IsOrderly-of_links w v s (IsLinked-written o o' w v i t f e s h.linked) h
Effect-IsOrderly w v (settled s) h = Settles-IsOrderly w v s h
Effect-IsOrderly w v (leases t x is e s) h =
    IsOrderly-of_links w v s (IsLinked-leased t x is w v s e h.linked) h

-- A write of a row that was found, with its status as it was.
pub same_row :
    (id : ℕ) (w v : World) (o o' : Operation)
    → find_operation id w ≡ some o
    → o'.id ≡ o.id
    → o'.resource_type ≡ o.resource_type
    → o'.resource_id ≡ o.resource_id
    → o'.kind ≡ o.kind
    → o'.status ≡ o.status
    → v.operations ≡ put_operation o' w.operations
    → SameResources w v
    → Effect w v
same_row id w v o o' f i t r k s e rows =
    rewritten o o' (record { id = i; resource_type = t; resource_id = r; kind = k }) s
      (find-own_id id w o f) e rows

pub unchanged : (w v : World) → v ≡ w → Effect w v
unchanged w v e =
    quiet
      (record {
        authorization = ap (λ x. x.authorization) e;
        capture = ap (λ x. x.capture) e;
        void = ap (λ x. x.void) e;
        refunds = ap (λ x. x.refunds) e;
      })
      (ap (λ x. x.operations) e)

pub complete_mutation-Effect :
    (codec : Codec) (id : ℕ) (o : Option ProviderObservation) (c : ClassifiedProviderResult)
    (now : ℕ) (w w' : World) (out : Option RecordedOutcome)
    → complete_mutation codec id o c now w ≡ ok (out, w')
    → Effect w w'
unfolding complete_mutation
complete_mutation-Effect codec id o c now w w' out h =
    let rows : SameResources w w' = record {
      authorization = ground (arith, h);
      capture = ground (arith, h);
      void = ground (arith, h);
      refunds = ground (arith, h);
    } in
    elim (Option-cases (find_operation id w)) [
      | inl n ↦ ground arith
      | inr (operation, f) ↦ elim (Option-cases (find (is_mutation_of id) w.attempts)) [
        | inl n ↦ quiet rows (ground (arith, h, f, n))
        | inr (attempt, g) ↦ elim (Bool-cases (is_some attempt.completed_at)) [
          | inl s ↦ quiet rows (ground (arith, h, f, g, s))
          | inr s ↦
              same_row id w w' operation
                (record operation {
                  next_lookup_at = some (
                      if is_lookup_action c.action
                      then now
                      else next_lookup now operation.attempt_count);
                })
                f refl refl refl refl refl (ground (arith, h, f, g, s)) rows
        ]
      ]
    ]

record_open_lookup-Effect :
    (codec : Codec) (operation : Operation) (o : Option ProviderObservation)
    (c : ClassifiedProviderResult) (id limit grace now attempt : ℕ) (w w' : World)
    (out : Option RecordedOutcome)
    → find_operation id w ≡ some operation
    → record_open_lookup codec operation o c limit grace now attempt w ≡ ok (out, w')
    → Effect w w'
unfolding record_open_lookup insert_attempt
record_open_lookup-Effect codec operation o c id limit grace now attempt w w' out f h =
    elim (Result-cases (
      decide_lookup c operation.last_sent_at now grace (1 + count_lookups operation.id w.attempts)
        limit (next_lookup now (operation.attempt_count + 1)))) [
          | inl (d, e) ↦
              same_row id w w' operation
                (record operation {
                  attempt_count = operation.attempt_count + 1;
                  lookup_lease_token = none;
                  lookup_lease_expires_at = none;
                  next_lookup_at = some d.next_lookup_at;
                })
                f refl refl refl refl refl (ground (arith, h, e))
                (record {
                  authorization = ground (arith, h);
                  capture = ground (arith, h);
                  void = ground (arith, h);
                  refunds = ground (arith, h);
                })
          | inr (x, e) ↦ ground (arith, h, e)
        ]

pub record_lookup_observation-Effect :
    (codec : Codec) (id : ℕ) (lease : Option ℕ) (o : Option ProviderObservation)
    (c : ClassifiedProviderResult) (limit grace now attempt : ℕ) (w w' : World)
    (out : Option RecordedOutcome)
    → record_lookup_observation codec id lease o c limit grace now attempt w ≡ ok (out, w')
    → Effect w w'
unfolding record_lookup_observation
record_lookup_observation-Effect codec id lease o c limit grace now attempt w w' out h =
    elim (Option-cases (find_operation id w)) [
      | inl n ↦ unchanged w w' (ground (arith, h, n))
      | inr (operation, f) ↦
          elim (Bool-cases (is_terminal operation.status || not (holds_lease lease operation))) [
            | inl t ↦ unchanged w w' (ground (arith, h, f, t))
            | inr t ↦
                record_open_lookup-Effect codec operation o c id limit grace now attempt w w' out f
                  (ground (arith, h, f, t))
          ]
    ]
