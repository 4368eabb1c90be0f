-- ===== src/Entitlements/Normal.antt =====
-- The table of a plan's limits (backend/app/billing/entitlements.py).
use zouseeking.Base.{
  ℕ, ◌≡◌, Bool, true, false, ◌||◌, Option, none, some, List, [], ◌∷◌, String, ℤ, if◌then◌else◌,
  ◌==◌, string_eq, pair_eq, arith, refl, Bool-cases, ap, inl, inr,
}
use zouseeking.Base.Dict.{Dict, lookup, insert, lookup-insert}
use zouseeking.Entitlements.Limits.{
  Metric, query, report, stats_query, export_row, subscription_slot, PeriodName, day, month,
  metric_eq, metric_beq, period_beq, period_eq, Row, entitlement_limit,
}

-- The column of the profile that overrides a metric's default.
abbrev pub legacy_key : Metric → Option String
legacy_key query = some "monthly_query_limit"
legacy_key report = some "monthly_report_quota"
legacy_key subscription_slot = some "subscription_slots"
legacy_key export_row = some "export_rows_monthly"
legacy_key stats_query = none

abbrev pub joined {ℓ} : {A : Type ℓ} → Option (Option A) → Option A
joined none = none
joined (some a) = a

abbrev pub legacy_of : Dict String (Option ℤ) → Option String → Option ℤ
legacy_of legacy none = none
legacy_of legacy (some key) = joined (lookup key legacy)

-- The two loops: METRICS, and PERIODS within.
abbrev pub keys : List (Metric × PeriodName)
keys =
    (query, day)
    ∷ (query, month)
    ∷ (report, day)
    ∷ (report, month)
    ∷ (stats_query, day)
    ∷ (stats_query, month)
    ∷ (export_row, day)
    ∷ (export_row, month)
    ∷ (subscription_slot, day)
    ∷ (subscription_slot, month)
    ∷ []

module _ (plan : String) (rows : Option (List Row)) (legacy : Dict String (Option ℤ)) where
  abbrev pub limit_of : Metric × PeriodName → Option ℕ
  limit_of (metric, period) =
      entitlement_limit plan metric period rows (legacy_of legacy (legacy_key metric))

  -- `if value is not None: result[(metric, period)] = value`
  abbrev pub keep :
      Metric × PeriodName → Option ℕ → Dict (Metric × PeriodName) ℕ → Dict (Metric × PeriodName) ℕ
  keep k none result = result
  keep k (some value) result = insert k value result

  unfoldable pub fill :
      List (Metric × PeriodName) → Dict (Metric × PeriodName) ℕ → Dict (Metric × PeriodName) ℕ
  fill [] result = result
  fill (k ∷ ks) result = fill ks (keep k (limit_of k) result)

  -- `normalize_entitlements`
  unfoldable pub normalize_entitlements : Dict (Metric × PeriodName) ℕ
  unfolding fill
  normalize_entitlements = fill keys []

  unfoldable pub listed : Metric × PeriodName → List (Metric × PeriodName) → Bool
  listed k [] = false
  listed k (j ∷ ks) = (j == k) || listed k ks

  abbrev pub over {ℓ} : {A : Type ℓ} → Option A → Option A → Option A
  over none b = b
  over (some a) b = some a

  lookup-keep :
      (k j : Metric × PeriodName) (o : Option ℕ) (result : Dict (Metric × PeriodName) ℕ)
      → lookup j (keep k o result) ≡ (if k == j then over o (lookup j result) else lookup j result)
  lookup-keep k j none result = ground arith
  lookup-keep k j (some value) result = rw lookup-insert (ground arith)

  lookup-fill :
      (j : Metric × PeriodName) (ks : List (Metric × PeriodName))
      (result : Dict (Metric × PeriodName) ℕ)
      → lookup j (fill ks result)
        ≡ (if listed j ks then over (limit_of j) (lookup j result) else lookup j result)
  unfolding fill listed
  lookup-fill j [] result = refl
  lookup-fill j (k ∷ ks) result = elim (Bool-cases (pair_eq.beq k j)) [
    | inl e ↦ ground (
      arith,
      e,
      lookup-fill j ks (keep k (limit_of k) result),
      lookup-keep k j (limit_of k) result,
      ap limit_of ((pair_eq.beq_iff k j).0 e),
    )
    | inr e ↦ ground (
      arith,
      e,
      lookup-fill j ks (keep k (limit_of k) result),
      lookup-keep k j (limit_of k) result,
    )
  ]

  keys-listed : (j : Metric × PeriodName) → listed j keys ≡ true
  unfolding listed metric_beq period_beq
  keys-listed (metric, period) = ground arith

  over-none : (o : Option ℕ) → over o none ≡ o
  over-none none = refl
  over-none (some a) = refl

  -- The table has for every metric and period the limit that `entitlement_limit` resolves, and no entry
  -- where there is none.
  pub lookup-normalize :
      (metric : Metric) (period : PeriodName)
      → lookup (metric, period) normalize_entitlements
        ≡ entitlement_limit plan metric period rows (legacy_of legacy (legacy_key metric))
  unfolding normalize_entitlements lookup
  lookup-normalize metric period =
      rw (lookup-fill (metric, period) keys [], keys-listed (metric, period))
        (over-none (limit_of (metric, period)))
