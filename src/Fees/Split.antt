-- ===== src/Fees/Split.antt =====
-- The split of a captured amount: fees/calculator.py and the guard of `capture_fee`.
use relaypay.Base.{
  ℕ, ◌+◌, ◌-◌, ◌*◌, ◌≤◌, ◌<◌, ◌≡◌, ◌⊎◌, some, List, Result, ok, err, value_error, arith,
}
use relaypay.Base.Int.{ℤ, pos, pos_part, ◌+ℤ◌, ◌-ℤ◌, ◌≤ℤ◌}
use relaypay.Fees.Calculator.{
  FeeScheduleTerms, FeeBreakdown, bps_denominator, round_half_up, platform_fee, gst_on,
  compute_capture_fee,
}
use relaypay.Fees.Schedule.{FeeScheduleVersion, CaptureFee, capture_fee}

-- Rounding to basis points gives the nearest integer, an exact half upwards.
pub round_half_up_nearest :
    (n : ℕ)
    → let q = round_half_up n bps_denominator in
      (2 * bps_denominator * q ≤ 2 * n + bps_denominator)
      × (2 * n < 2 * bps_denominator * q + bps_denominator)
unfolding round_half_up
round_half_up_nearest n = omega arith

round_half_up_mono :
    (m n : ℕ) → m ≤ n → round_half_up m bps_denominator ≤ round_half_up n bps_denominator
unfolding round_half_up
round_half_up_mono m n h = omega arith

mul_mono : (a b c : ℕ) → a ≤ b → a * c ≤ b * c
mul_mono a b c h = grind arith

-- A larger capture pays no smaller fee.
pub platform_fee_mono :
    (a b : ℕ) (terms : FeeScheduleTerms) → a ≤ b → platform_fee a terms ≤ platform_fee b terms
unfolding platform_fee
platform_fee_mono a b terms h = ground (
  arith,
  round_half_up_mono (a * terms.mdr_bps) (b * terms.mdr_bps),
  mul_mono a b terms.mdr_bps h,
)

-- The fee, the GST and the net of a successful split are not negative and add up to the amount.
pub compute_capture_fee_splits :
    (amount : ℤ) (terms : FeeScheduleTerms) (b : FeeBreakdown)
    → compute_capture_fee amount terms ≡ ok b
    → (b.fee +ℤ b.gst +ℤ b.net ≡ amount) × (pos 0 ≤ℤ b.fee) × (pos 0 ≤ℤ b.gst) × (pos 0 ≤ℤ b.net)
unfolding compute_capture_fee ◌+ℤ◌ ◌-ℤ◌
compute_capture_fee_splits amount terms b h = ground arith

-- What the calculator charges, by cases on the amount: it refuses an amount that is not positive
-- or that its own fee and GST exceed, and otherwise charges them.
pub compute_capture_fee_cases :
    (amount : ℤ) (terms : FeeScheduleTerms)
    → let fee = platform_fee (pos_part amount) terms in
      let gst = gst_on fee terms in
      (compute_capture_fee amount terms ≡ err value_error)
        × ((amount ≤ℤ pos 0) ⊎ (pos_part amount < fee + gst))
      ⊎ (compute_capture_fee amount terms
          ≡ ok (record { fee = pos fee; gst = pos gst; net = pos (pos_part amount - (fee + gst)) }))
        × (pos 1 ≤ℤ amount)
        × (fee + gst ≤ pos_part amount)
unfolding compute_capture_fee ◌-ℤ◌
compute_capture_fee_cases amount terms = ground arith

-- With bounds in order, the fee lies within them.
pub platform_fee_bounds :
    (amount lo hi : ℕ) (terms : FeeScheduleTerms)
    → terms.min_fee_paise ≡ some lo
    → terms.max_fee_paise ≡ some hi
    → lo ≤ hi
    → (lo ≤ platform_fee amount terms) × (platform_fee amount terms ≤ hi)
unfolding platform_fee
platform_fee_bounds amount lo hi terms p q h = ground arith

-- Whatever the calculator that is passed in, the fee split stored on a capture is not negative
-- and leaves a net that is not negative.
pub capture_fee_sound :
    (now : ℕ) (versions : List FeeScheduleVersion) (merchant : ℕ) (amount : ℤ)
    (calculator : ℤ → FeeScheduleTerms → Result FeeBreakdown) (f : CaptureFee)
    → pos 0 ≤ℤ amount
    → capture_fee now versions merchant amount calculator ≡ ok f
    → (pos 0 ≤ℤ f.fee_amount) × (pos 0 ≤ℤ f.gst_amount) × (f.fee_amount +ℤ f.gst_amount ≤ℤ amount)
unfolding capture_fee ◌+ℤ◌
capture_fee_sound now versions merchant amount calculator f h e = ground arith
