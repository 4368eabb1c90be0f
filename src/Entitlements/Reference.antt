-- ===== src/Entitlements/Reference.antt =====
-- The limits that a plan, its rows in the database and the profile's columns give, written from what
-- backend/app/billing/entitlements.py documents: rows first, then the profile's column, then the
-- product's defaults.
use zouseeking.Base.{
  ℕ, Bool, true, false, ◌&&◌, Option, none, some, List, [], ◌∷◌, String, ℤ, pos, negsuc, nat_beq,
  if◌then◌else◌, ◌==◌, string_eq, option_eq, get_or, pair_eq, is_some,
}
use zouseeking.Base.Dict.{Dict, lookup}
use zouseeking.Base.Table.{first_where}
use zouseeking.Entitlements.Limits.{Metric, PeriodName, metric_eq, period_eq, Row}

-- The product's table: plan, metric, period and units.
pub record Default : Type 0 where
  pub plan : String
  pub metric : Metric
  pub period : PeriodName
  pub units : ℕ

abbrev pub product_table : List Default
product_table =
    record { plan = "free_c"; metric = Metric.query; period = PeriodName.day; units = 3 }
    ∷ record { plan = "c_plus"; metric = Metric.query; period = PeriodName.month; units = 100 }
    ∷ record { plan = "c_plus"; metric = Metric.report; period = PeriodName.month; units = 12 }
    ∷ record {
      plan = "c_plus";
      metric = Metric.subscription_slot;
      period = PeriodName.month;
      units = 3;
    }
    ∷ record { plan = "free_b"; metric = Metric.query; period = PeriodName.month; units = 30 }
    ∷ record { plan = "free_b"; metric = Metric.stats_query; period = PeriodName.month; units = 5 }
    ∷ record { plan = "b_data_pro"; metric = Metric.query; period = PeriodName.month; units = 500 }
    ∷ record {
      plan = "b_data_pro";
      metric = Metric.stats_query;
      period = PeriodName.month;
      units = 100;
    }
    ∷ record {
      plan = "b_data_pro";
      metric = Metric.subscription_slot;
      period = PeriodName.month;
      units = 10;
    }
    ∷ record {
      plan = "b_data_pro";
      metric = Metric.export_row;
      period = PeriodName.month;
      units = 10000;
    }
    ∷ []

abbrev pub units_of : Option Default → Option ℕ
units_of none = none
units_of (some d) = some d.units

unfoldable pub product_limit : String → Metric → PeriodName → Option ℕ
product_limit plan metric period = units_of (
    first_where (λ d. (plan == d.plan) && ((d.metric == metric) && (d.period == period)))
      product_table)

-- A positive value of a column is a limit of the month.
abbrev pub positive : Option (Option ℤ) → Option ℕ
positive (some (some (pos n))) = if nat_beq n 0 then none else some n
positive _ = none

-- The column of pricing_plans for a metric.
abbrev pub profile_limit : Dict String (Option ℤ) → Metric → PeriodName → Option ℕ
profile_limit legacy metric PeriodName.day = none
profile_limit legacy Metric.query PeriodName.month = positive (lookup "monthly_query_limit" legacy)
profile_limit legacy Metric.report PeriodName.month =
    positive (lookup "monthly_report_quota" legacy)
profile_limit legacy Metric.subscription_slot PeriodName.month =
    positive (lookup "subscription_slots" legacy)
profile_limit legacy Metric.export_row PeriodName.month =
    positive (lookup "export_rows_monthly" legacy)
profile_limit legacy Metric.stats_query PeriodName.month = none

abbrev pub or_product : Option ℕ → Option ℕ → Option ℕ
or_product (some n) product = some n
or_product none product = product

abbrev pub units_from_zero : ℤ → ℕ
units_from_zero (pos n) = n
units_from_zero (negsuc n) = 0

abbrev pub is_active_row : Row → Bool
is_active_row r = get_or r.active true

abbrev pub sets_metric : Metric → Row → Bool
sets_metric metric r = (r.metric == some metric) && is_active_row r

abbrev pub sets_limit : Metric → PeriodName → Row → Bool
sets_limit metric period r = (r.period == some period) && sets_metric metric r

-- The first active row of the metric and period; none of the period, if there is one of the metric.
abbrev pub by_rows : Option Row → Bool → Option ℕ → Option ℕ
by_rows (some r) managed otherwise = some (units_from_zero r.limit_units)
by_rows none true otherwise = none
by_rows none false otherwise = otherwise

unfoldable pub reference_limit :
    String → Option (List Row) → Dict String (Option ℤ) → Metric → PeriodName → Option ℕ
unfolding product_limit
reference_limit plan none legacy metric period =
    or_product (profile_limit legacy metric period) (product_limit plan metric period)
reference_limit plan (some rows) legacy metric period =
    by_rows (first_where (sets_limit metric period) rows)
      (is_some (first_where (sets_metric metric) rows))
      (or_product (profile_limit legacy metric period) (product_limit plan metric period))
