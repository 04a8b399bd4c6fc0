-- ===== src/Fees/Tests.antt =====
-- Fees at concrete terms: 2% with 18% GST, at least 1 rupee and at most 50.
use relaypay.Base.{
  ℕ, ◌+◌, ◌-◌, ◌*◌, ◌≤◌, ◌<◌, ◌≡◌, refl, ◌⊎◌, true, some, List, [], ◌∷◌, ◌++◌, ok, err, value_error,
  arith,
}
use relaypay.Base.Int.{pos, ◌+ℤ◌, ◌-ℤ◌, ◌≤ℤ◌}
use relaypay.Fees.Calculator.{
  FeeScheduleTerms, FeeBreakdown, bps_denominator, round_half_up, platform_fee, gst_on,
  compute_capture_fee,
}
use relaypay.Fees.Schedule.{
  FeeScheduleVersion, CaptureFee, newest, in_effect, active_fee_schedule, capture_fee,
  latest_version, create_fee_schedule_version,
}
use relaypay.Fees.Split.{
  round_half_up_nearest, platform_fee_mono, compute_capture_fee_splits, compute_capture_fee_cases,
  platform_fee_bounds, capture_fee_sound,
}
use relaypay.Fees.Versions.{
  IsRow, Below, IsNumbered, active_fee_schedule-newest, create_fee_schedule_version-IsNumbered,
}

abbrev terms : FeeScheduleTerms
terms = record {
  mdr_bps = 200;
  fixed_paise = 0;
  gst_bps = 1800;
  min_fee_paise = some 100;
  max_fee_paise = some 5000;
}

abbrev version_of : ℕ → ℕ → FeeScheduleVersion
version_of number from = record {
  id = number;
  merchant_account_id = 1;
  version = number;
  effective_from = from;
  terms = terms;
}

-- The second version is in effect at 50, the third is not yet.
abbrev versions : List FeeScheduleVersion
versions = version_of 1 0 ∷ version_of 3 99 ∷ version_of 2 40 ∷ []

-- 2% of 100.25 rupees is 200.5 paise, which rounds up.
half_up : round_half_up (10025 * 200) bps_denominator ≡ 201
unfolding round_half_up
half_up = refl

fee_at_most : platform_fee 1000000 terms ≡ 5000
unfolding platform_fee round_half_up
fee_at_most = refl

fee_refused : compute_capture_fee (pos 50) terms ≡ err value_error
unfolding compute_capture_fee platform_fee gst_on round_half_up ◌-ℤ◌
fee_refused = refl

abbrev split : FeeBreakdown
split = record { fee = pos 201; gst = pos 36; net = pos 9788 }

round_half_up_nearest_example :
    (2 * bps_denominator * round_half_up 2005000 bps_denominator ≤ 2 * 2005000 + bps_denominator)
    × (2 * 2005000 < 2 * bps_denominator * round_half_up 2005000 bps_denominator + bps_denominator)
round_half_up_nearest_example = round_half_up_nearest 2005000

platform_fee_mono_example : platform_fee 10025 terms ≤ platform_fee 90000 terms
platform_fee_mono_example = platform_fee_mono 10025 90000 terms (omega arith)

compute_capture_fee_splits_example :
    (pos 201 +ℤ pos 36 +ℤ pos 9788 ≡ pos 10025)
    × (pos 0 ≤ℤ pos 201)
    × (pos 0 ≤ℤ pos 36)
    × (pos 0 ≤ℤ pos 9788)
unfolding compute_capture_fee platform_fee gst_on round_half_up ◌-ℤ◌
compute_capture_fee_splits_example = compute_capture_fee_splits (pos 10025) terms split refl

compute_capture_fee_cases_example :
    (compute_capture_fee (pos 50) terms ≡ err value_error)
      × ((pos 50 ≤ℤ pos 0) ⊎ (50 < platform_fee 50 terms + gst_on (platform_fee 50 terms) terms))
    ⊎ (compute_capture_fee (pos 50) terms
        ≡ ok (record {
          fee = pos (platform_fee 50 terms);
          gst = pos (gst_on (platform_fee 50 terms) terms);
          net = pos (50 - (platform_fee 50 terms + gst_on (platform_fee 50 terms) terms));
        }))
      × (pos 1 ≤ℤ pos 50)
      × (platform_fee 50 terms + gst_on (platform_fee 50 terms) terms ≤ 50)
compute_capture_fee_cases_example = compute_capture_fee_cases (pos 50) terms

platform_fee_bounds_example : (100 ≤ platform_fee 10025 terms) × (platform_fee 10025 terms ≤ 5000)
platform_fee_bounds_example = platform_fee_bounds 10025 100 5000 terms refl refl (omega arith)

abbrev stored : CaptureFee
stored = record { fee_amount = pos 201; gst_amount = pos 36; fee_schedule_version_id = some 2 }

capture_fee_sound_example :
    (pos 0 ≤ℤ pos 201) × (pos 0 ≤ℤ pos 36) × (pos 201 +ℤ pos 36 ≤ℤ pos 10025)
unfolding capture_fee active_fee_schedule newest compute_capture_fee platform_fee gst_on
    round_half_up ◌-ℤ◌ ◌+ℤ◌
capture_fee_sound_example =
    capture_fee_sound 50 versions 1 (pos 10025) compute_capture_fee stored (omega arith) refl

active_fee_schedule-newest_example :
    IsRow (version_of 2 40) versions
    × (in_effect 50 1 (version_of 2 40) ≡ true)
    × Below (in_effect 50 1) 2 versions
unfolding active_fee_schedule newest
active_fee_schedule-newest_example = active_fee_schedule-newest 50 versions 1 (version_of 2 40) refl

versions-IsNumbered : IsNumbered versions
versions-IsNumbered =
    (((λ e. ground arith), ((λ e. ground arith), tt)), (((λ e. ground arith), tt), (tt, tt)))

create_fee_schedule_version-IsNumbered_example :
    IsNumbered (versions ++ version_of 4 60 ∷ [])
    × (versions ++ version_of 4 60 ∷ [] ≡ versions ++ version_of 4 60 ∷ [])
    × ((version_of 4 60).merchant_account_id ≡ 1)
    × ((version_of 4 60).version ≡ latest_version 1 versions + 1)
unfolding create_fee_schedule_version latest_version
create_fee_schedule_version-IsNumbered_example =
    create_fee_schedule_version-IsNumbered (1 ∷ []) 4 1 60 terms versions
      (versions ++ version_of 4 60 ∷ []) (version_of 4 60) versions-IsNumbered refl
