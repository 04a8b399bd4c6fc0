-- ===== src/Fees/Calculator.antt =====
-- packages/relaypay/fees/calculator.py and types.py. Terms are natural numbers, as the check
-- constraints of `fee_schedule_versions` have them; amounts are Python's signed integers.
use relaypay.Base.{
  ℕ, ◌+◌, ◌*◌, ◌/◌, min, max, Option, none, some, Result, ok, ◌>>◌, raise_if, value_error,
}
use relaypay.Base.Int.{ℤ, pos, pos_part, ◌-ℤ◌, leb_ℤ, ltb_ℤ}

-- The one policy, RETAIN, is the type `Unit` of `refund_fee_policy`, and has no field.
pub record FeeScheduleTerms : Type 0 where
  pub mdr_bps : ℕ
  pub fixed_paise : ℕ
  pub gst_bps : ℕ
  pub min_fee_paise : Option ℕ
  pub max_fee_paise : Option ℕ

pub record FeeBreakdown : Type 0 where
  pub fee : ℤ
  pub gst : ℤ
  pub net : ℤ

abbrev pub bps_denominator : ℕ
bps_denominator = 10000

unfoldable pub round_half_up : ℕ → ℕ → ℕ
round_half_up numerator denominator = (2 * numerator + denominator) / (2 * denominator)

-- `if bound is not None: fee = max(fee, bound)`
abbrev pub raise_to : Option ℕ → ℕ → ℕ
raise_to none fee = fee
raise_to (some bound) fee = max fee bound

-- `if bound is not None: fee = min(fee, bound)`
abbrev pub lower_to : Option ℕ → ℕ → ℕ
lower_to none fee = fee
lower_to (some bound) fee = min fee bound

-- The fee before GST, of a positive amount.
unfoldable pub platform_fee : ℕ → FeeScheduleTerms → ℕ
platform_fee amount terms = lower_to terms.max_fee_paise (
    raise_to terms.min_fee_paise
      (round_half_up (amount * terms.mdr_bps) bps_denominator + terms.fixed_paise))

unfoldable pub gst_on : ℕ → FeeScheduleTerms → ℕ
gst_on fee terms = round_half_up (fee * terms.gst_bps) bps_denominator

unfoldable pub compute_capture_fee : ℤ → FeeScheduleTerms → Result FeeBreakdown
compute_capture_fee amount_paise terms = do
  raise_if (leb_ℤ amount_paise (pos 0)) value_error
  let fee = platform_fee (pos_part amount_paise) terms
  let gst = gst_on fee terms
  let net = amount_paise -ℤ pos fee -ℤ pos gst
  raise_if (ltb_ℤ net (pos 0)) value_error
  ok (record { fee = pos fee; gst = pos gst; net = net })
