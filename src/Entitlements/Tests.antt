-- ===== src/Entitlements/Tests.antt =====
-- The theorems of the entitlements at concrete inputs, and runs.
use zouseeking.Base.{◌≡◌, refl, Option, none, some, List, [], ◌∷◌, String, ℤ, pos, pair_eq}
use zouseeking.Base.Dict.{Dict, lookup, insert}
use zouseeking.Entitlements.Limits.{
  Metric, PeriodName, Row, metric_eq, period_eq, metric_beq, period_beq, default_entitlement,
  plan_of, plan_for_tier, of_metric, filter_rows, row_value, fallback, from_rows, entitlement_limit,
}
use zouseeking.Base.Table.{first_where}
use zouseeking.Entitlements.Reference.{reference_limit}
use zouseeking.Entitlements.Agreement.{lookup-reference_limit}
use zouseeking.Entitlements.Normal.{fill, normalize_entitlements}

-- Names what the limits unfold.
machine : Unit {0}
unfolding metric_beq period_beq default_entitlement plan_of plan_for_tier of_metric filter_rows
    row_value fallback from_rows entitlement_limit fill normalize_entitlements lookup insert
machine = tt

-- The database sets the monthly exports, the profile the monthly queries.
abbrev rows : List Row
rows =
    record {
      metric = some Metric.export_row;
      period = some PeriodName.month;
      limit_units = pos 50;
      active = none;
    }
    ∷ []

abbrev legacy : Dict String (Option ℤ)
legacy = ("monthly_query_limit", some (pos 40)) ∷ []

normalize_entitlements-rows :
    normalize_entitlements "c_plus" (some rows) legacy
    ≡ ((Metric.query, PeriodName.month), 40)
      ∷ ((Metric.report, PeriodName.month), 12)
      ∷ ((Metric.export_row, PeriodName.month), 50)
      ∷ ((Metric.subscription_slot, PeriodName.month), 3)
      ∷ []
unfolding machine
normalize_entitlements-rows = refl

plan_for_tier-b : plan_for_tier none (some "b") ≡ "free_b"
unfolding machine
plan_for_tier-b = refl

lookup-reference_limit_example :
    lookup (Metric.query, PeriodName.month) (normalize_entitlements "c_plus" (some rows) legacy)
    ≡ some 40
unfolding reference_limit first_where lookup metric_beq period_beq
lookup-reference_limit_example =
    lookup-reference_limit "c_plus" (some rows) legacy Metric.query PeriodName.month
