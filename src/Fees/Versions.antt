-- ===== src/Fees/Versions.antt =====
-- Which schedule version is active, and how versions are numbered: fees/service.py.
use mathlib.Core.Path.{subst}
use relaypay.Base.{
  sym, ℕ, ◌+◌, ◌≤◌, ◌<◌, ◌≡◌, refl, ◌≢◌, ◌⊎◌, inl, inr, Option, none, some, List, [], ◌∷◌, ◌++◌,
  true, false, Bool, All-append, ok, arith, Bool-cases, where_rows, All,
}
use relaypay.Fees.Calculator.{FeeScheduleTerms}
use relaypay.Fees.Schedule.{
  FeeScheduleVersion, newer, newest, in_effect, active_fee_schedule, latest_version,
  create_fee_schedule_version,
}

-- `v` is a row of the table.
abbrev pub IsRow : FeeScheduleVersion → List FeeScheduleVersion → Type 0
IsRow v [] = ⊥
IsRow v (w ∷ ws) = (v ≡ w) ⊎ IsRow v ws

-- Every row that passes the test has a version at most `n`.
abbrev pub Below : (FeeScheduleVersion → Bool) → ℕ → List FeeScheduleVersion → Type 0
Below p n = All (λ w. p w ≡ true → w.version ≤ n)

Below-mono :
    (p : FeeScheduleVersion → Bool) (m n : ℕ) (vs : List FeeScheduleVersion)
    → m ≤ n
    → Below p m vs
    → Below p n vs
Below-mono p m n [] h b = tt
Below-mono p m n (w ∷ ws) h b = ((λ e. omega (arith, b.0 e)), Below-mono p m n ws h b.1)

abbrev Newest :
    (FeeScheduleVersion → Bool) → List FeeScheduleVersion → Option FeeScheduleVersion → Type 0
Newest p vs none = All (λ w. p w ≡ false) vs
Newest p vs (some v) = IsRow v vs × (p v ≡ true) × Below p v.version vs

All-false-Below :
    (p : FeeScheduleVersion → Bool) (n : ℕ) (vs : List FeeScheduleVersion)
    → All (λ w. p w ≡ false) vs
    → Below p n vs
All-false-Below p n [] h = tt
All-false-Below p n (w ∷ ws) h = ((λ e. cc (h.0)), All-false-Below p n ws h.1)

Newest-skip :
    (p : FeeScheduleVersion → Bool) (w : FeeScheduleVersion) (ws : List FeeScheduleVersion)
    (o : Option FeeScheduleVersion)
    → p w ≡ false
    → Newest p ws o
    → Newest p (w ∷ ws) o
Newest-skip p w ws none e h = (e, h)
Newest-skip p w ws (some v) e h = (inr h.0, h.1, ((λ t. cc e), h.2))

newer-cases :
    (w v : FeeScheduleVersion)
    → (newer w (some v) ≡ v) × (w.version < v.version)
      ⊎ (newer w (some v) ≡ w) × (v.version ≤ w.version)
unfolding newer
newer-cases w v = ground arith

Newest-take :
    (p : FeeScheduleVersion → Bool) (w : FeeScheduleVersion) (ws : List FeeScheduleVersion)
    (o : Option FeeScheduleVersion)
    → p w ≡ true
    → Newest p ws o
    → Newest p (w ∷ ws) (some (newer w o))
unfolding newer
Newest-take p w ws none e h = (inl refl, e, ((λ _. omega arith), All-false-Below p w.version ws h))
Newest-take p w ws (some v) e h = elim (newer-cases w v) [
  | inl (older, lt) ↦
      subst (λ x. Newest p (w ∷ ws) (some x)) (sym older) (inr h.0, h.1, ((λ _. omega arith), h.2))
  | inr (later, le) ↦
      subst (λ x. Newest p (w ∷ ws) (some x)) (sym later)
        (inl refl, e, ((λ _. omega arith), Below-mono p v.version w.version ws le h.2))
]

newest-where_rows :
    (p : FeeScheduleVersion → Bool) (vs : List FeeScheduleVersion)
    → Newest p vs (newest (where_rows p vs))
unfolding newest
newest-where_rows p [] = tt
newest-where_rows p (w ∷ ws) = elim (Bool-cases (p w)) [
  | inl taken ↦
      rw taken (Newest-take p w ws (newest (where_rows p ws)) taken (newest-where_rows p ws))
  | inr skipped ↦
      rw skipped (Newest-skip p w ws (newest (where_rows p ws)) skipped (newest-where_rows p ws))
]

-- The active schedule is a row of the merchant that is in effect, and no row in effect of that
-- merchant has a higher version.
pub active_fee_schedule-newest :
    (now : ℕ) (vs : List FeeScheduleVersion) (merchant : ℕ) (v : FeeScheduleVersion)
    → active_fee_schedule now vs merchant ≡ some v
    → IsRow v vs × (in_effect now merchant v ≡ true) × Below (in_effect now merchant) v.version vs
unfolding active_fee_schedule
active_fee_schedule-newest now vs merchant v h =
    rw h at (newest-where_rows (in_effect now merchant) vs)

-- The unique constraint on (merchant_account_id, version).
abbrev Apart : FeeScheduleVersion → FeeScheduleVersion → Type 0
Apart v w = v.merchant_account_id ≡ w.merchant_account_id → v.version ≢ w.version

abbrev pub IsNumbered : List FeeScheduleVersion → Type 0
IsNumbered [] = Unit
IsNumbered (v ∷ vs) = All (Apart v) vs × IsNumbered vs

-- Every row of the merchant has a version at most `n`.
abbrev Numbered : ℕ → ℕ → List FeeScheduleVersion → Type 0
Numbered merchant n = All (λ w. w.merchant_account_id ≡ merchant → w.version ≤ n)

Numbered-mono :
    (merchant m n : ℕ) (vs : List FeeScheduleVersion)
    → m ≤ n
    → Numbered merchant m vs
    → Numbered merchant n vs
Numbered-mono merchant m n [] h b = tt
Numbered-mono merchant m n (w ∷ ws) h b =
    ((λ e. omega (arith, b.0 e)), Numbered-mono merchant m n ws h b.1)

latest_version-Numbered :
    (merchant : ℕ) (vs : List FeeScheduleVersion)
    → Numbered merchant (latest_version merchant vs) vs
unfolding latest_version
latest_version-Numbered merchant [] = tt
latest_version-Numbered merchant (v ∷ vs) = (
  (λ e. ground arith),
  Numbered-mono merchant (latest_version merchant vs) (latest_version merchant (v ∷ vs)) vs
      (ground arith) (latest_version-Numbered merchant vs),
)

Numbered-Apart :
    (v : FeeScheduleVersion) (n : ℕ) (vs : List FeeScheduleVersion)
    → n < v.version
    → Numbered v.merchant_account_id n vs
    → All (λ w. Apart w v) vs
Numbered-Apart v n [] h b = tt
Numbered-Apart v n (w ∷ ws) h b = ((λ e f. omega (arith, b.0 e)), Numbered-Apart v n ws h b.1)

IsNumbered-append :
    (vs : List FeeScheduleVersion) (v : FeeScheduleVersion)
    → IsNumbered vs
    → All (λ w. Apart w v) vs
    → IsNumbered (vs ++ v ∷ [])
IsNumbered-append [] v n a = (tt, tt)
IsNumbered-append (w ∷ ws) v n a =
    (All-append (Apart w) ws (v ∷ []) n.0 (a.0, tt), IsNumbered-append ws v n.1 a.1)

create_fee_schedule_version_lem :
    (merchants : List ℕ) (id merchant effective_from : ℕ) (terms : FeeScheduleTerms)
    (vs ws : List FeeScheduleVersion) (v : FeeScheduleVersion)
    → create_fee_schedule_version merchants id merchant effective_from terms vs ≡ ok (v, ws)
    → (ws ≡ vs ++ v ∷ [])
      × (v.merchant_account_id ≡ merchant)
      × (v.version ≡ latest_version merchant vs + 1)
unfolding create_fee_schedule_version
create_fee_schedule_version_lem merchants id merchant effective_from terms vs ws v e = ground arith

-- A new version belongs to the merchant, is numbered one past the merchant's last version, and
-- keeps the numbers of every merchant's versions apart.
pub create_fee_schedule_version-IsNumbered :
    (merchants : List ℕ) (id merchant effective_from : ℕ) (terms : FeeScheduleTerms)
    (vs ws : List FeeScheduleVersion) (v : FeeScheduleVersion)
    → IsNumbered vs
    → create_fee_schedule_version merchants id merchant effective_from terms vs ≡ ok (v, ws)
    → IsNumbered ws
      × (ws ≡ vs ++ v ∷ [])
      × (v.merchant_account_id ≡ merchant)
      × (v.version ≡ latest_version merchant vs + 1)
create_fee_schedule_version-IsNumbered merchants id merchant effective_from terms vs ws v n e =
    let (rows, owner, number) =
      create_fee_schedule_version_lem merchants id merchant effective_from terms vs ws v e in
    (
      subst IsNumbered (sym rows) (
          IsNumbered-append vs v n (
            Numbered-Apart v (latest_version merchant vs) vs (omega arith) (
              subst (λ m. Numbered m (latest_version merchant vs) vs) (sym owner)
                (latest_version-Numbered merchant vs)))),
      rows,
      owner,
      number,
    )
