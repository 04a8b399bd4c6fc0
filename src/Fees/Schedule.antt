-- ===== src/Fees/Schedule.antt =====
-- packages/relaypay/fees/service.py and models.py. The rows are those of the table
-- `fee_schedule_versions`; `now` is the database's clock.
use relaypay.Base.{
  ℕ, ◌+◌, max, Option, none, some, List, [], ◌∷◌, ◌++◌, Bool, true, ◌&&◌, ◌||◌, not, Result, ok,
  ◌>>=◌, ◌>>◌, raise_if, runtime_error, merchant_account_not_found, check_violation, leb, ltb, ◌==◌,
  if◌then◌else◌, where_rows, elem,
}
use relaypay.Base.Int.{ℤ, pos, ◌+ℤ◌, leb_ℤ, ltb_ℤ}
use relaypay.Fees.Calculator.{FeeScheduleTerms, FeeBreakdown}

pub record FeeScheduleVersion : Type 0 where
  pub id : ℕ
  pub merchant_account_id : ℕ
  pub version : ℕ
  pub effective_from : ℕ
  pub terms : FeeScheduleTerms

pub record CaptureFee : Type 0 where
  pub fee_amount : ℤ
  pub gst_amount : ℤ
  pub fee_schedule_version_id : Option ℕ

abbrev pub no_fee : CaptureFee
no_fee = record { fee_amount = pos 0; gst_amount = pos 0; fee_schedule_version_id = none }

-- `ORDER BY version DESC LIMIT 1`
unfoldable pub newer : FeeScheduleVersion → Option FeeScheduleVersion → FeeScheduleVersion
newer v none = v
newer v (some w) = if ltb v.version w.version then w else v

unfoldable pub newest : List FeeScheduleVersion → Option FeeScheduleVersion
unfolding newer
newest [] = none
newest (v ∷ vs) = some (newer v (newest vs))

abbrev pub in_effect : ℕ → ℕ → FeeScheduleVersion → Bool
in_effect now merchant_account_id v =
    v.merchant_account_id == merchant_account_id && leb v.effective_from now

unfoldable pub active_fee_schedule : ℕ → List FeeScheduleVersion → ℕ → Option FeeScheduleVersion
active_fee_schedule now versions merchant_account_id =
    newest (where_rows (in_effect now merchant_account_id) versions)

-- The test of `capture_fee` on what its calculator returned.
abbrev pub is_inconsistent : FeeBreakdown → ℤ → Bool
is_inconsistent b amount =
    ltb_ℤ b.fee (pos 0)
    || ltb_ℤ b.gst (pos 0)
    || ltb_ℤ b.net (pos 0)
    || not (leb_ℤ (b.fee +ℤ b.gst +ℤ b.net) amount && leb_ℤ amount (b.fee +ℤ b.gst +ℤ b.net))

-- The branch of `capture_fee` with a schedule.
abbrev pub split_by :
    (ℤ → FeeScheduleTerms → Result FeeBreakdown) → ℤ → FeeScheduleVersion → Result CaptureFee
split_by calculator amount schedule = do
  breakdown ← calculator amount schedule.terms
  raise_if (is_inconsistent breakdown amount) runtime_error
  ok (record {
    fee_amount = breakdown.fee;
    gst_amount = breakdown.gst;
    fee_schedule_version_id = some schedule.id;
  })

unfoldable pub capture_fee :
    ℕ
    → List FeeScheduleVersion
    → ℕ
    → ℤ
    → (ℤ → FeeScheduleTerms → Result FeeBreakdown)
    → Result CaptureFee
capture_fee now versions merchant_account_id amount calculator =
    elim (active_fee_schedule now versions merchant_account_id) [
      | none ↦ ok no_fee
      | some schedule ↦ split_by calculator amount schedule
    ]

-- `max(version)` of the merchant's rows, or 0
unfoldable pub latest_version : ℕ → List FeeScheduleVersion → ℕ
latest_version merchant [] = 0
latest_version merchant (v ∷ vs) =
    if v.merchant_account_id == merchant
    then max v.version (latest_version merchant vs)
    else latest_version merchant vs

-- The checks of the table on the rates and the bounds.
abbrev pub are_in_order : Option ℕ → Option ℕ → Bool
are_in_order (some least) (some most) = leb least most
are_in_order _ _ = true

abbrev pub is_allowed_terms : FeeScheduleTerms → Bool
is_allowed_terms t =
    leb t.mdr_bps 10000 && leb t.gst_bps 10000 && are_in_order t.min_fee_paise t.max_fee_paise

-- `merchants` holds the ids of the rows of `merchant_accounts`, `id` is a new id.
unfoldable pub create_fee_schedule_version :
    List ℕ
    → ℕ
    → ℕ
    → ℕ
    → FeeScheduleTerms
    → List FeeScheduleVersion
    → Result (FeeScheduleVersion × List FeeScheduleVersion)
create_fee_schedule_version merchants id merchant effective_from terms versions = do
  raise_if (not (elem merchant merchants)) merchant_account_not_found
  raise_if (not (is_allowed_terms terms)) check_violation
  let version : FeeScheduleVersion = record {
    id = id;
    merchant_account_id = merchant;
    version = latest_version merchant versions + 1;
    effective_from = effective_from;
    terms = terms;
  }
  ok (version, versions ++ version ∷ [])
