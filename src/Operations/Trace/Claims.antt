-- ===== src/Operations/Trace/Claims.antt =====
-- In any run one dispatcher at most claims the send of an operation: provider_operations/service.py.
use mathlib.Core.Path.{subst}
use relaypay.Base.{
  ℕ, ◌+◌, ◌≤◌, ◌≡◌, refl, sym, ap, ◌⊎◌, inl, inr, none, some, Bool, true, false, not, ◌&&◌, ok,
  arith, Option-cases, Bool-cases, Result-cases, is_some, find, List, ◌==◌, if◌then◌else◌, leb,
}
use relaypay.Rows.{
  is_terminal, requires_review, World, find_operation, Operation, Attempt, apply_failure,
}
use relaypay.Operations.Resources.{resource_of}
use relaypay.Operations.Finalizer.{record_apply_failure}
use relaypay.Operations.Service.Sends.{
  PreparedOperation, insert_attempt, first_send, prepare_first_send, find_public,
}
use relaypay.Operations.Recovery.{RecoveryClaim, leased, claim_specific_operation}
use relaypay.Operations.Service.Sending.{
  sent_row, first_send-split, find-public_id, find-put_public,
}
use relaypay.Operations.Trace.{
  Step, prepare, complete, look_up, claim_batch, claim_one, receive, finalize, mark, count_failure,
  Run, start, next,
}
use relaypay.Operations.Trace.Keys.{
  Keyed, ids, IsSent, Touched, untouched, written, all_leased, find-id_of_public, Touched-IsSent,
  Touched-Keyed,
}
use relaypay.Operations.Trace.Rows.{
  same_row, complete_mutation-Touched, record_lookup_observation-Touched,
  mark_operation_for_review-Touched, finalize_verified_attempt-Touched,
}

pub record_apply_failure-Touched :
    (id evidence limit count : ℕ) (w w' : World)
    → record_apply_failure id evidence limit w ≡ ok (count, w')
    → Touched w.operations w'.operations
unfolding record_apply_failure
record_apply_failure-Touched id evidence limit count w w' h =
    elim (Option-cases (find_operation id w)) [
      | inl n ↦ ground arith
      | inr (o, f) ↦ elim (Result-cases (resource_of o w)) [
        | inl (r, e) ↦ elim (Bool-cases (is_terminal o.status)) [
          | inl t ↦ untouched (ground arith)
          | inr t ↦ elim (Bool-cases (leb limit (o.apply_failure_count + 1))) [
            | inl m ↦
                same_row id w o
                  (record o {
                    apply_failure_count = o.apply_failure_count + 1;
                    status = requires_review;
                    review_reason = some apply_failure;
                    next_lookup_at = none;
                  })
                  w'.operations f refl refl refl refl refl (ground arith)
            | inr m ↦
                same_row id w o (record o { apply_failure_count = o.apply_failure_count + 1 })
                  w'.operations f refl refl refl refl refl (ground arith)
          ]
        ]
        | inr (x, e) ↦ ground arith
      ]
    ]

-- A single claim leases the row that it finds.
claim_specific_operation-Touched :
    (public_id now seconds : ℕ) (in_review : Bool) (token : ℕ → ℕ) (os os' : List Operation)
    (c : RecoveryClaim)
    → Keyed (ids os)
    → claim_specific_operation public_id now seconds in_review token os ≡ ok (c, os')
    → Touched os os'
unfolding claim_specific_operation
claim_specific_operation-Touched public_id now seconds in_review token os os' c k h =
    elim (Option-cases (find (λ o. o.public_id == public_id) os)) [
      | inl n ↦ ground (arith, h, n)
      | inr (o, f) ↦
          written o (leased (token o.id) (now + seconds) o)
            (record { id = refl; public_id = refl; key = refl; sent = λ t. (t, refl) })
            (find-id_of_public public_id os o k f) (ground (arith, h, f))
    ]

receive-Touched :
    (a : Attempt) (w w' : World) → insert_attempt a w ≡ ok w' → Touched w.operations w'.operations
unfolding insert_attempt
receive-Touched a w w' h = untouched (ground (arith, h))

-- The cases of a preparation: it writes nothing, or it claims the send of a row that was not sent.
pub prepare_first_send-cases :
    (public_id account now attempt : ℕ) (w w' : World) (p : PreparedOperation)
    → prepare_first_send public_id account now attempt w ≡ ok (p, w')
    → (w' ≡ w) × (p.already_sent ≡ true)
      ⊎ ((o : Operation) × (find_public public_id w ≡ some o)
          × (is_some o.last_sent_at ≡ false)
          × (first_send o account now attempt w ≡ ok (p, w')))
unfolding prepare_first_send
prepare_first_send-cases public_id account now attempt w w' p h =
    elim (Option-cases (find_public public_id w)) [
      | inl n ↦ ground arith
      | inr (o, f) ↦ elim (Bool-cases (is_terminal o.status)) [
        | inl t ↦ inl (ground arith, ground arith)
        | inr t ↦ elim (Bool-cases (is_some o.last_sent_at)) [
          | inl s ↦ elim (Option-cases o.provider_request) [
            | inl n ↦ ground arith
            | inr (request, r) ↦ inl (ground arith, ground arith)
          ]
          | inr s ↦ inr (o, f, s, ground arith)
        ]
      ]
    ]

first_send-Touched :
    (public_id account now attempt : ℕ) (w w' : World) (p : PreparedOperation) (o : Operation)
    → Keyed (ids w.operations)
    → find_public public_id w ≡ some o
    → is_some o.last_sent_at ≡ false
    → first_send o account now attempt w ≡ ok (p, w')
    → Touched w.operations w'.operations × IsSent public_id w'.operations
first_send-Touched public_id account now attempt w w' p o k f u h =
    let (request, same, rows) = first_send-split o account now attempt w w' p h in
    let named = find-public_id public_id w.operations o f in
    let row = sent_row o request now in
    (
      written o row
          (record { id = refl; public_id = refl; key = refl; sent = λ t. ground (arith, t, u) })
          (find-id_of_public public_id w.operations o k f) rows,
      subst (λ k. IsSent k w'.operations) named
          (
            row,
            rw rows (
                find-put_public row w.operations o
                  (subst (λ k. find_public k w ≡ some o) (sym named) f) refl),
            refl,
          ),
    )

pub Step-Touched :
    {w w' : World} → Keyed (ids w.operations) → Step w w' → Touched w.operations w'.operations
Step-Touched k (prepare i a n t {w} {w'} p h) = elim (prepare_first_send-cases i a n t w w' p h) [
  | inl (same, _) ↦ untouched (ap (λ x. x.operations) same)
  | inr (o, f, u, e) ↦ (first_send-Touched i a n t w w' p o k f u e).0
]
Step-Touched k (complete c i o x n {w} {w'} out h) = complete_mutation-Touched c i o x n w w' out h
Step-Touched k (look_up c i l o x m g n t {w} {w'} out h) =
    record_lookup_observation-Touched c i l o x m g n t w w' out h
Step-Touched k (claim_batch t e is {w}) = all_leased t e is refl
Step-Touched k (claim_one p n s r t {w} x os h) =
    claim_specific_operation-Touched p n s r t w.operations os x k h
Step-Touched k (receive a {w} {w'} e h) = receive-Touched a w w' h
Step-Touched k (finalize i e a n j {w} {w'} r h) =
    finalize_verified_attempt-Touched i e a n j w w' r h
Step-Touched k (mark i r e a {w} {w'} h) = mark_operation_for_review-Touched i r e a w w' h
Step-Touched k (count_failure i e l n {w} {w'} h) = record_apply_failure-Touched i e l n w w' h

-- Whether a step claims the send of the operation.
abbrev pub claims_send : ℕ → {w w' : World} → Step w w' → Bool
claims_send public_id (prepare i a n t p h) = i == public_id && not p.already_sent
claims_send public_id _ = false

-- How many steps of a run claim it.
abbrev pub sends : ℕ → {w w' : World} → Run w w' → ℕ
sends public_id start = 0
sends public_id (next r s) = sends public_id r + (if claims_send public_id s then 1 else 0)

claims_send-unsent :
    (public_id : ℕ) {w w' : World} (s : Step w w')
    → Keyed (ids w.operations)
    → claims_send public_id s ≡ true
    → IsSent public_id w'.operations
      × ((o : Operation) × (find_public public_id w ≡ some o) × (is_some o.last_sent_at ≡ false))
claims_send-unsent public_id (prepare i a n t {w} {w'} p h) k c =
    elim (prepare_first_send-cases i a n t w w' p h) [
      | inl (_, sent) ↦ ground (arith, c, sent)
      | inr (o, f, u, e) ↦
          let same : i ≡ public_id = ground (arith, c) in
          subst
            (λ j.
              IsSent j w'.operations
              × ((x : Operation) × (find_public j w ≡ some x) × (is_some x.last_sent_at ≡ false)))
            same ((first_send-Touched i a n t w w' p o k f u e).1, (o, f, u))
    ]
claims_send-unsent public_id s k c = ground arith

-- A row that was sent is not one that was not.
IsSent-unsent :
    (public_id : ℕ) (w : World) (o : Operation)
    → IsSent public_id w.operations
    → find_public public_id w ≡ some o
    → is_some o.last_sent_at ≡ false
    → ⊥
IsSent-unsent public_id w o (q, g, s) f u = ground (arith, f, g, s, u)

pub Run-Keyed : {w w' : World} → Run w w' → Keyed (ids w.operations) → Keyed (ids w'.operations)
Run-Keyed start k = k
Run-Keyed (next {u} {v} {w} r s) k =
    let kept = Run-Keyed r k in Touched-Keyed v.operations w.operations (Step-Touched kept s) kept

sends-cases :
    (public_id : ℕ) {w w' : World} (r : Run w w')
    → Keyed (ids w.operations)
    → (sends public_id r ≡ 0) ⊎ ((sends public_id r ≡ 1) × IsSent public_id w'.operations)
sends-cases public_id start k = inl refl
sends-cases public_id (next {u} {v} {w} r s) k = elim (Bool-cases (claims_send public_id s)) [
  | inl c ↦
      let (sent, (o, f, n)) = claims_send-unsent public_id s (Run-Keyed r k) c in
      elim (sends-cases public_id r k) [
        | inl z ↦ inr (rw (z, c) refl, sent)
        | inr (_, before) ↦ elim (IsSent-unsent public_id v o before f n) [ ]
      ]
  | inr c ↦ elim (sends-cases public_id r k) [
    | inl z ↦ inl (rw (z, c) refl)
    | inr (z, before) ↦
        let kept = Run-Keyed r k in
        inr (
          rw (z, c) refl,
          Touched-IsSent public_id v.operations w.operations (Step-Touched kept s) kept before,
        )
  ]
]

-- In whatever order and number the transactions of a run are (sends and their answers, lookups, claims
-- of leases, evidence of webhooks, finalizations, reviews and counts of failed finalizations), one
-- preparation at most claims the send of an operation, if no two rows have one id at the start.
pub sends_at_most_once :
    (public_id : ℕ) {w w' : World} (r : Run w w') → Keyed (ids w.operations) → sends public_id r ≤ 1
sends_at_most_once public_id r k = elim (sends-cases public_id r k) [
  | inl z ↦ rw z (omega arith)
  | inr (z, _) ↦ rw z (omega arith)
]
