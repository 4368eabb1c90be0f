-- ===== src/Entitlements/Limits.antt =====
-- The vocabulary of entitlements and the limit of one (backend/app/billing/entitlements.py).
use zouseeking.Base.{
  ℕ, ◌≡◌, ◌↔◌, Bool, true, false, ◌&&◌, Option, none, some, List, [], ◌∷◌, String, ℤ, clamp0,
  is_nonpos, not, if◌then◌else◌, BoolEq, ◌==◌, string_eq, arith, get_or, pair_eq, nat_eq,
}

-- METRICS and PERIODS
pub data Metric : Type 0 where
  query report stats_query export_row subscription_slot : Metric

pub data PeriodName : Type 0 where
  day month : PeriodName

unfoldable pub metric_beq : Metric → Metric → Bool
metric_beq query query = true
metric_beq report report = true
metric_beq stats_query stats_query = true
metric_beq export_row export_row = true
metric_beq subscription_slot subscription_slot = true
metric_beq _ _ = false

pub metric_beq_iff : (a b : Metric) → (metric_beq a b ≡ true) ↔ (a ≡ b)
unfolding metric_beq
metric_beq_iff a b = ground arith

instance abbrev pub metric_eq : BoolEq Metric
metric_eq = record { beq = metric_beq; beq_iff = metric_beq_iff }

unfoldable pub period_beq : PeriodName → PeriodName → Bool
period_beq day day = true
period_beq month month = true
period_beq _ _ = false

pub period_beq_iff : (a b : PeriodName) → (period_beq a b ≡ true) ↔ (a ≡ b)
unfolding period_beq
period_beq_iff a b = ground arith

instance abbrev pub period_eq : BoolEq PeriodName
period_eq = record { beq = period_beq; beq_iff = period_beq_iff }

-- DEFAULT_ENTITLEMENTS, plan by plan.
abbrev free_c : Metric → PeriodName → Option ℕ
free_c query day = some 3
free_c _ _ = none

abbrev c_plus : Metric → PeriodName → Option ℕ
c_plus query month = some 100
c_plus report month = some 12
c_plus subscription_slot month = some 3
c_plus _ _ = none

abbrev free_b : Metric → PeriodName → Option ℕ
free_b query month = some 30
free_b stats_query month = some 5
free_b _ _ = none

abbrev b_data_pro : Metric → PeriodName → Option ℕ
b_data_pro query month = some 500
b_data_pro stats_query month = some 100
b_data_pro subscription_slot month = some 10
b_data_pro export_row month = some 10000
b_data_pro _ _ = none

unfoldable pub default_entitlement : String → Metric → PeriodName → Option ℕ
default_entitlement plan metric period =
    if plan == "free_c"
    then free_c metric period
    else if plan == "c_plus"
    then c_plus metric period
    else if plan == "free_b"
    then free_b metric period
    else if plan == "b_data_pro"
    then b_data_pro metric period
    else none

-- TIER_TO_PLAN
unfoldable pub plan_of : String → String
plan_of tier =
    if tier == "free_b"
    then "free_b"
    else if tier == "c_plus"
    then "c_plus"
    else if tier == "b_data_pro"
    then "b_data_pro"
    else "free_c"

-- `str(tier or "free")`: an empty text is no tier.
abbrev pub tier_or_free : Option String → String
tier_or_free none = "free"
tier_or_free (some tier) = if tier == "" then "free" else tier

-- `plan_for_tier`
unfoldable pub plan_for_tier : Option String → Option String → String
unfolding plan_of
plan_for_tier tier audience =
    let plan = plan_of (tier_or_free tier) in
    if (plan == "free_c") && is_b audience then "free_b" else plan
  where
    is_b : Option String → Bool
    is_b none = false
    is_b (some a) = a == "b"

-- A row of plan_entitlements; a metric that is not one of METRICS is `none`, a row without `active`
-- counts as active.
pub record Row : Type 0 where
  pub metric : Option Metric
  pub period : Option PeriodName
  pub limit_units : ℤ
  pub active : Option Bool

abbrev pub names {ℓ} : {A : Type ℓ} ⦃e : BoolEq A⦄ → Option A → A → Bool
names none a = false
names (some b) a = b == a

-- `row.get("metric") == metric and row.get("active", True)`
unfoldable pub of_metric : Metric → Row → Bool
of_metric metric r = names r.metric metric && get_or r.active true

unfoldable pub filter_rows : (Row → Bool) → List Row → List Row
filter_rows p [] = []
filter_rows p (r ∷ rows) = if p r then r ∷ filter_rows p rows else filter_rows p rows

abbrev pub matches : Metric → PeriodName → Row → Bool
matches metric period r = names r.metric metric && (names r.period period && get_or r.active true)

abbrev pub first_limit : List Row → Option ℕ
first_limit [] = none
first_limit (r ∷ rows) = some (clamp0 r.limit_units)

-- `_row_value`
unfoldable pub row_value : List Row → Metric → PeriodName → Option ℕ
unfolding filter_rows
row_value rows metric period = first_limit (filter_rows (matches metric period) rows)

-- The fallbacks: the profile's own monthly limit, if it is positive, and the plan's default.
unfoldable pub fallback : String → Metric → PeriodName → Option ℤ → Option ℕ
unfolding default_entitlement
fallback plan metric period none = default_entitlement plan metric period
fallback plan metric period (some legacy) =
    if (period == month) && not (is_nonpos legacy)
    then some (clamp0 legacy)
    else default_entitlement plan metric period

-- The database's answer, which a metric with any active row ends.
unfoldable pub from_rows : List Row → Option ℕ → Metric → PeriodName → Option ℕ
unfolding row_value
from_rows [] otherwise metric period = otherwise
from_rows rows otherwise metric period = row_value rows metric period

-- `entitlement_limit` on a metric and a period that it supports.
unfoldable pub entitlement_limit :
    String → Metric → PeriodName → Option (List Row) → Option ℤ → Option ℕ
unfolding of_metric
entitlement_limit plan metric period none legacy = fallback plan metric period legacy
entitlement_limit plan metric period (some rows) legacy =
    from_rows (filter_rows (of_metric metric) rows) (fallback plan metric period legacy) metric
      period
