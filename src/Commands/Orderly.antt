-- ===== src/Commands/Orderly.antt =====
-- What the commands and the finalizer keep true of a payment's resources: payments/service.py.
pub mod Settled
pub mod Keeps
pub mod Effects
pub mod Reviews
pub mod Finalizes
pub mod Applies
pub mod Steps
pub mod Inserts
pub mod Refunds
pub mod Runs
use relaypay.Base.{
  ℕ, ◌≡◌, refl, sym, ap, ◌∙◌, Option, none, some, List, [], ◌∷◌, map, Bool, true, false, All,
  if◌then◌else◌,
}
use relaypay.Base.Int.{ℤ, pos, ◌≤ℤ◌}
use relaypay.Rows.{
  OperationStatus, is_succeeded, is_failed, Authorization, Capture, Void, Refund, World,
}
use relaypay.Operations.Frame.{SameResources}
use relaypay.Operations.Resources.{Resource, authorization, capture, void, refund}
use relaypay.Operations.Trace.Keys.{Keyed}
use relaypay.Commands.{reserved_sum}
use relaypay.Commands.Links.{IsLinked, find_resource-same}

-- `capture.amount if capture and capture.status == "SUCCEEDED" else 0`
abbrev pub captured_amount : Option Capture → ℤ
captured_amount none = pos 0
captured_amount (some c) = if is_succeeded c.status then c.amount else pos 0

-- A capture and a void that has not failed exclude each other.
abbrev pub IsExclusive : World → Type 0
IsExclusive w =
    (c : Capture) (v : Void) → w.capture ≡ some c → w.void ≡ some v → is_failed v.status ≡ true

-- A capture is of a positive part of the authorized amount.
abbrev pub IsWithin : World → Type 0
IsWithin w =
    (c : Capture)
    → w.capture ≡ some c
    → (a : Authorization) × (w.authorization ≡ some a)
      × (c.amount ≤ℤ a.amount)
      × (pos 1 ≤ℤ c.amount)

-- Refunds are not negative, and those that are not failed are covered by what was captured.
abbrev pub IsRefundable : World → Type 0
IsRefundable w =
    All (λ r. pos 0 ≤ℤ r.amount) w.refunds × (reserved_sum w.refunds ≤ℤ captured_amount w.capture)

pub record IsOrderly (w : World) : Type 0 where
  pub linked : IsLinked w
  pub refund_ids : Keyed (map (λ r. r.id) w.refunds)
  pub exclusive : IsExclusive w
  pub within : IsWithin w
  pub refundable : IsRefundable w

-- The four facts depend on the resources alone.
pub IsOrderly-of_links : (w v : World) → SameResources w v → IsLinked v → IsOrderly w → IsOrderly v
IsOrderly-of_links w v s linked h = record {
  linked = linked;
  refund_ids = rw s.refunds h.refund_ids;
  exclusive = λ c x e f. h.exclusive c x (sym s.capture ∙ e) (sym s.void ∙ f);
  within = λ c e.
      let (a, f, le, positive) = h.within c (sym s.capture ∙ e) in
      (a, s.authorization ∙ f, le, positive);
  refundable = rw (s.refunds, s.capture) h.refundable;
}
