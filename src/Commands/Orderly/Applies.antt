-- ===== src/Commands/Orderly/Applies.antt =====
-- The finalizing transactions: provider_operations/finalizer.py and `apply_recorded_outcome`.
use relaypay.Base.{ℕ, ◌≡◌, refl, ap, ◌∙◌, inl, inr, ok, arith, Bool-cases, Option-cases}
use relaypay.Rows.{is_terminal, Actor, World, find_operation, put_operation, find-own_id}
use relaypay.Operations.Frame.{finalize_resource-SameTables}
use relaypay.Operations.Resources.{FinalizedResult}
use relaypay.Operations.Finalizer.{close_operation, response_of, finalize_verified_attempt}
use relaypay.Operations.Finalizer.Once.{finalize-split, finalize_open-split}
use relaypay.Operations.Finalizer.Twice.{resource_of-find}
use relaypay.Commands.Orderly.Effects.{Effect, settled, unchanged}
use relaypay.Commands.Orderly.Finalizes.{finalize_resource-Finalizes}

pub finalize_verified_attempt-Effect :
    (id evidence : ℕ) (actor : Actor) (now journal : ℕ) (w w' : World) (result : FinalizedResult)
    → finalize_verified_attempt id evidence actor now journal w ≡ ok (result, w')
    → Effect w w'
unfolding finalize_verified_attempt
finalize_verified_attempt-Effect id evidence actor now journal w w' result h =
    elim (Option-cases (find_operation id w)) [
      | inl n ↦ ground arith
      | inr (o, f) ↦ elim (Bool-cases (is_terminal o.status)) [
        | inl t ↦ unchanged w w' (ground (arith, h, f, t))
        | inr t ↦
            let (r, there, opened) =
              finalize-split id evidence actor now journal w w' result o f t h in
            let (attempt, out, v, _, done, _, e) =
              finalize_open-split o r evidence actor now journal w w' result opened in
            let (r', same, status, rows) = finalize_resource-Finalizes out o r w v done in
            let o' = close_operation out (response_of out o r v) o in
            settled (record {
              operation = o;
              operation' = o';
              resource = r;
              resource' = r';
              identity = record {
                id = refl;
                resource_type = refl;
                resource_id = refl;
                kind = refl;
              };
              live = t;
              found = find-own_id id w o f;
              there = resource_of-find o w r there;
              row = same;
              status = status;
              written =
                  ap (λ x. x.operations) e
                  ∙ ap (put_operation o')
                      (finalize_resource-SameTables out o r w v done).operations;
              rows = record {
                authorization = ap (λ x. x.authorization) e ∙ rows.authorization;
                capture = ap (λ x. x.capture) e ∙ rows.capture;
                void = ap (λ x. x.void) e ∙ rows.void;
                refunds = ap (λ x. x.refunds) e ∙ rows.refunds;
              };
            })
      ]
    ]
