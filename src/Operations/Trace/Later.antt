-- ===== src/Operations/Trace/Later.antt =====
-- Every later preparation of a send gets the same request: provider_operations/service.py.
use mathlib.Core.Path.{subst}
use relaypay.Base.{
  ℕ, ◌≡◌, refl, sym, ap, ◌∙◌, ◌⊎◌, inl, inr, some, none, true, false, ok, arith, is_some,
  Bool-cases,
}
use relaypay.Rows.{is_terminal, ProviderRequest, World, Operation}
use relaypay.Operations.Service.Sends.{PreparedOperation, find_public, prepare_first_send}
use relaypay.Operations.Service.Sending.{
  sent_row, first_send-split, find-put_public, find-public_id, prepare_first_send-sent,
  prepare-cases,
}
use relaypay.Operations.Trace.{Run, prepare, start, next}
use relaypay.Operations.Trace.Keys.{Keyed, ids, Written, IsRow, Touched-IsRow, Touched-Keyed}
use relaypay.Operations.Trace.Claims.{Step-Touched}

-- The row that `p` was read from.
record IsRowOf (p : PreparedOperation) (o : Operation) : Type 0 where
  id : o.id ≡ p.operation_id
  key : o.stable_provider_key ≡ p.stable_key
  sent : is_some o.last_sent_at ≡ true
  request : o.provider_request ≡ p.request

Written-IsRowOf :
    (p : PreparedOperation) (o o' : Operation) → Written o o' → IsRowOf p o → IsRowOf p o'
Written-IsRowOf p o o' w r = record {
  id = w.id ∙ r.id;
  key = w.key ∙ r.key;
  sent = (w.sent r.sent).0;
  request = (w.sent r.sent).1 ∙ r.request;
}

-- A preparation of an operation that is not terminal leaves the row sent, with the request.
prepare-IsRowOf :
    (public_id account now attempt : ℕ) (w w' : World) (p : PreparedOperation)
    → prepare_first_send public_id account now attempt w ≡ ok (p, w')
    → p.terminal ≡ false
    → ((r : ProviderRequest) × (p.request ≡ some r)) × IsRow (IsRowOf p) public_id w'.operations
prepare-IsRowOf public_id account now attempt w w' p h t =
    elim (prepare-cases public_id account now attempt w w' p h t) [
      | inl (o, request, f, live, s, r, same, kept) ↦ (
        (request, ap (λ x. x.request) same),
        subst (λ v. IsRow (IsRowOf p) public_id v.operations) (sym kept)
            (
              o,
              f,
              record {
                id = sym (ap (λ x. x.operation_id) same);
                key = sym (ap (λ x. x.stable_key) same);
                sent = s;
                request = r ∙ sym (ap (λ x. x.request) same);
              },
            ),
      )
      | inr (o, f, live, first) ↦
          let (request, same, rows) = first_send-split o account now attempt w w' p first in
          let named = find-public_id public_id w.operations o f in
          let row = sent_row o request now in
          (
            (request, ap (λ x. x.request) same),
            subst (λ k. IsRow (IsRowOf p) k w'.operations) named
                (
                  row,
                  rw rows (
                      find-put_public row w.operations o
                        (subst (λ k. find_public k w ≡ some o) (sym named) f) refl),
                  record {
                    id = sym (ap (λ x. x.operation_id) same);
                    key = sym (ap (λ x. x.stable_key) same);
                    sent = refl;
                    request = sym (ap (λ x. x.request) same);
                  },
                ),
          )
    ]

Run-IsRowOf :
    (p : PreparedOperation) (public_id : ℕ) {w w' : World}
    → Run w w'
    → Keyed (ids w.operations)
    → IsRow (IsRowOf p) public_id w.operations
    → Keyed (ids w'.operations) × IsRow (IsRowOf p) public_id w'.operations
Run-IsRowOf p public_id start k r = (k, r)
Run-IsRowOf p public_id (next {u} {v} {w} run s) k r =
    let (k', r') = Run-IsRowOf p public_id run k r in
    let touched = Step-Touched k' s in
    (
      Touched-Keyed v.operations w.operations touched k',
      Touched-IsRow (IsRowOf p) public_id v.operations w.operations (Written-IsRowOf p) touched k'
          r',
    )

-- What a row that was sent is answered with: its request, or that it is terminal.
abbrev pub closed : PreparedOperation → PreparedOperation
closed p = record p { request = none; already_sent = true; terminal = true }

same_answer :
    (p q : PreparedOperation)
    → p.operation_id ≡ q.operation_id
    → p.stable_key ≡ q.stable_key
    → p.request ≡ q.request
    → p.already_sent ≡ q.already_sent
    → p.terminal ≡ q.terminal
    → p ≡ q
same_answer p q a b c d e = ground (arith, a, b, c, d, e)

prepare-IsRow :
    (public_id account now attempt : ℕ) (p : PreparedOperation) (r : ProviderRequest) (w : World)
    → p.request ≡ some r
    → p.terminal ≡ false
    → IsRow (IsRowOf p) public_id w.operations
    → (prepare_first_send public_id account now attempt w
        ≡ ok (record p { already_sent = true }, w))
      ⊎ (prepare_first_send public_id account now attempt w ≡ ok (closed p, w))
unfolding prepare_first_send
prepare-IsRow public_id account now attempt p r w e t (o, f, row) =
    elim (Bool-cases (is_terminal o.status)) [
      | inl c ↦
          inr (
            rw (f, c)
              (ap (λ x. ok (x, w)) (same_answer _ (closed p) row.id row.key refl refl refl)))
      | inr c ↦ inl (
          prepare_first_send-sent public_id account now attempt w o r f c row.sent (row.request ∙ e)
          ∙ ap (λ x. ok (x, w))
              (same_answer _ (record p { already_sent = true }) row.id row.key (sym e) refl
                (sym t)))
    ]

-- After a call of `prepare_first_send` for an operation that is not terminal, whatever transactions of
-- a run follow, a call by any dispatcher, for any account, returns: it writes nothing, is told that
-- the operation was sent, and is given the same request, or is told that the operation is terminal.
-- No two rows may have one id before the first call.
pub prepare_later :
    (public_id account account' now now' attempt attempt' : ℕ) (w w' v : World)
    (p : PreparedOperation)
    → Keyed (ids w.operations)
    → prepare_first_send public_id account now attempt w ≡ ok (p, w')
    → p.terminal ≡ false
    → Run w' v
    → (prepare_first_send public_id account' now' attempt' v
        ≡ ok (record p { already_sent = true }, v))
      ⊎ (prepare_first_send public_id account' now' attempt' v ≡ ok (closed p, v))
prepare_later public_id account account' now now' attempt attempt' w w' v p k h t run =
    let ((r, e), row) = prepare-IsRowOf public_id account now attempt w w' p h t in
    let k' =
      Touched-Keyed w.operations w'.operations
        (Step-Touched k (prepare public_id account now attempt p h)) k in
    prepare-IsRow public_id account' now' attempt' p r v e t (Run-IsRowOf p public_id run k' row).1
