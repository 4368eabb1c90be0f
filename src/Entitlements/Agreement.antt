-- ===== src/Entitlements/Agreement.antt =====
-- The table that `normalize_entitlements` of backend/app/billing/entitlements.py makes, and the reference.
use zouseeking.Base.{
  sym, BoolEq, ap, clamp0, ℕ, ◌≡◌, ◌∙◌, refl, Bool, true, ◌&&◌, Option, none, some, List, [], ◌∷◌,
  String, ℤ, pos, negsuc, arith, ◌==◌, string_eq, option_eq, pair_eq, is_some, inl, inr, Bool-cases,
  Option-cases,
}
use zouseeking.Base.Dict.{Dict, lookup}
use zouseeking.Base.Table.{first_where}
use zouseeking.Entitlements.Limits.{
  names, Metric, PeriodName, metric_eq, metric_beq, period_eq, period_beq, Row, entitlement_limit,
  default_entitlement, of_metric, filter_rows, row_value, matches, first_limit, from_rows, fallback,
}
use zouseeking.Entitlements.Normal.{
  joined, legacy_of, legacy_key, normalize_entitlements, lookup-normalize,
}
use zouseeking.Entitlements.Reference.{
  product_limit, positive, profile_limit, or_product, units_from_zero, is_active_row, sets_metric,
  sets_limit, by_rows, reference_limit,
}

product_of_free_c :
    (metric : Metric) (period : PeriodName)
    → default_entitlement "free_c" metric period ≡ product_limit "free_c" metric period
unfolding default_entitlement product_limit first_where metric_beq period_beq
product_of_free_c metric period = ground arith

product_of_c_plus :
    (metric : Metric) (period : PeriodName)
    → default_entitlement "c_plus" metric period ≡ product_limit "c_plus" metric period
unfolding default_entitlement product_limit first_where metric_beq period_beq
product_of_c_plus metric period = ground arith

product_of_free_b :
    (metric : Metric) (period : PeriodName)
    → default_entitlement "free_b" metric period ≡ product_limit "free_b" metric period
unfolding default_entitlement product_limit first_where metric_beq period_beq
product_of_free_b metric period = ground arith

product_of_b_data_pro :
    (metric : Metric) (period : PeriodName)
    → default_entitlement "b_data_pro" metric period ≡ product_limit "b_data_pro" metric period
unfolding default_entitlement product_limit first_where metric_beq period_beq
product_of_b_data_pro metric period = ground arith

product_limit_lem :
    (plan : String) (metric : Metric) (period : PeriodName)
    → default_entitlement plan metric period ≡ product_limit plan metric period
unfolding default_entitlement product_limit first_where
product_limit_lem plan metric period = elim (Bool-cases (plan == "free_c")) [
  | inl e ↦ rw ((string_eq.beq_iff plan "free_c").0 e) (product_of_free_c metric period)
  | inr a ↦ elim (Bool-cases (plan == "c_plus")) [
    | inl e ↦ rw ((string_eq.beq_iff plan "c_plus").0 e) (product_of_c_plus metric period)
    | inr b ↦ elim (Bool-cases (plan == "free_b")) [
      | inl e ↦ rw ((string_eq.beq_iff plan "free_b").0 e) (product_of_free_b metric period)
      | inr c ↦ elim (Bool-cases (plan == "b_data_pro")) [
        | inl e ↦
            rw ((string_eq.beq_iff plan "b_data_pro").0 e) (product_of_b_data_pro metric period)
        | inr d ↦ rw (a, b, c, d) refl
      ]
    ]
  ]
]

fallback-positive :
    (plan : String) (metric : Metric) (value : Option (Option ℤ))
    → fallback plan metric PeriodName.month (joined value)
      ≡ or_product (positive value) (default_entitlement plan metric PeriodName.month)
unfolding fallback period_beq
fallback-positive plan metric none = refl
fallback-positive plan metric (some none) = refl
fallback-positive plan metric (some (some (pos n))) = ground arith
fallback-positive plan metric (some (some (negsuc n))) = refl

fallback_day :
    (plan : String) (metric : Metric) (value : Option ℤ)
    → fallback plan metric PeriodName.day value ≡ default_entitlement plan metric PeriodName.day
unfolding fallback period_beq
fallback_day plan metric none = refl
fallback_day plan metric (some n) = refl

fallback_lem :
    (plan : String) (legacy : Dict String (Option ℤ)) (metric : Metric) (period : PeriodName)
    → fallback plan metric period (legacy_of legacy (legacy_key metric))
      ≡ or_product (profile_limit legacy metric period) (default_entitlement plan metric period)
unfolding fallback
fallback_lem plan legacy metric PeriodName.day =
    fallback_day plan metric (legacy_of legacy (legacy_key metric))
fallback_lem plan legacy Metric.query PeriodName.month =
    fallback-positive plan Metric.query (lookup "monthly_query_limit" legacy)
fallback_lem plan legacy Metric.report PeriodName.month =
    fallback-positive plan Metric.report (lookup "monthly_report_quota" legacy)
fallback_lem plan legacy Metric.subscription_slot PeriodName.month =
    fallback-positive plan Metric.subscription_slot (lookup "subscription_slots" legacy)
fallback_lem plan legacy Metric.export_row PeriodName.month =
    fallback-positive plan Metric.export_row (lookup "export_rows_monthly" legacy)
fallback_lem plan legacy Metric.stats_query PeriodName.month = refl

limit_lem : (n : ℤ) → some (clamp0 n) ≡ some (units_from_zero n)
limit_lem (pos n) = refl
limit_lem (negsuc n) = refl

filter_first :
    (p q : Row → Bool) (rows : List Row)
    → ((r : Row) → q r ≡ true → p r ≡ true)
    → first_limit (filter_rows q (filter_rows p rows)) ≡ by_rows (first_where q rows) true none
unfolding filter_rows first_where
filter_first p q [] h = refl
filter_first p q (r ∷ rows) h = elim (Bool-cases (q r)) [
  | inl hit ↦ rw hit (rw (h r hit) (rw hit (limit_lem r.limit_units)))
  | inr missed ↦ elim (Bool-cases (p r)) [
    | inl listed ↦ rw missed (rw listed (rw missed (filter_first p q rows h)))
    | inr other ↦ rw missed (rw other (filter_first p q rows h))
  ]
]

names_lem {ℓ} : {A : Type ℓ} ⦃e : BoolEq A⦄ (o : Option A) (a : A) → names o a ≡ (o == some a)
names_lem none a = refl
names_lem (some b) a = refl

first_where-same :
    (p q : Row → Bool) (rows : List Row)
    → ((r : Row) → p r ≡ q r)
    → first_where p rows ≡ first_where q rows
unfolding first_where
first_where-same p q [] h = refl
first_where-same p q (r ∷ rows) h = ground (arith, h r, first_where-same p q rows h)

of_metric_lem : (metric : Metric) (r : Row) → of_metric metric r ≡ sets_metric metric r
unfolding of_metric
of_metric_lem metric r = ap (λ b. b && is_active_row r) (names_lem r.metric metric)

matches_lem :
    (metric : Metric) (period : PeriodName) (r : Row)
    → matches metric period r ≡ sets_limit metric period r
matches_lem metric period r =
    rw (names_lem r.metric metric, names_lem r.period period) (ground arith)

filter_none :
    (p : Row → Bool) (rows : List Row) → first_where p rows ≡ none → filter_rows p rows ≡ []
unfolding filter_rows first_where
filter_none p [] h = refl
filter_none p (r ∷ rows) h = elim (Bool-cases (p r)) [
  | inl hit ↦ absurd (ground (arith, h, hit))
  | inr missed ↦ rw missed (filter_none p rows (ground (arith, h, missed)))
]

filter_some :
    (p : Row → Bool) (rows : List Row) (r : Row)
    → first_where p rows ≡ some r
    → (x : Row) × (xs : List Row) × (filter_rows p rows ≡ x ∷ xs)
unfolding filter_rows first_where
filter_some p [] r h = absurd (ground (arith, h))
filter_some p (x ∷ rows) r h = elim (Bool-cases (p x)) [
  | inl hit ↦ (x, filter_rows p rows, rw hit refl)
  | inr missed ↦
      let (y, ys, e) = filter_some p rows r (ground (arith, h, missed)) in (y, ys, rw missed e)
]

by_rows_some :
    (o : Option Row) (otherwise : Option ℕ) → by_rows o true none ≡ by_rows o true otherwise
by_rows_some none otherwise = refl
by_rows_some (some r) otherwise = refl

-- A row that sets the limit sets the metric.
no_metric :
    (metric : Metric) (period : PeriodName) (rows : List Row)
    → first_where (sets_metric metric) rows ≡ none
    → first_where (sets_limit metric period) rows ≡ none
unfolding first_where
no_metric metric period [] h = refl
no_metric metric period (r ∷ rows) h = elim (Bool-cases (sets_metric metric r)) [
  | inl hit ↦ absurd (ground (arith, h, hit))
  | inr missed ↦ ground (arith, missed, no_metric metric period rows (ground (arith, h, missed)))
]

from_rows_lem :
    (rows : List Row) (otherwise : Option ℕ) (metric : Metric) (period : PeriodName)
    → from_rows (filter_rows (of_metric metric) rows) otherwise metric period
      ≡ by_rows
          (first_where (sets_limit metric period) rows)
          (is_some (first_where (sets_metric metric) rows))
          otherwise
unfolding from_rows row_value
from_rows_lem rows otherwise metric period =
    let same =
      first_where-same (of_metric metric) (sets_metric metric) rows (of_metric_lem metric) in
    elim (Option-cases (first_where (of_metric metric) rows)) [
      | inl absent ↦
          let no_row : first_where (sets_metric metric) rows ≡ none = sym same ∙ absent in
          rw
            (
              filter_none (of_metric metric) rows absent,
              no_metric metric period rows no_row,
              no_row,
            )
            refl
      | inr (r, there) ↦
          let (x, xs, e) = filter_some (of_metric metric) rows r there in
          let some_row : first_where (sets_metric metric) rows ≡ some r = sym same ∙ there in
          let first =
            filter_first (of_metric metric) (matches metric period) rows
              (λ y h. unfold of_metric in ground (arith, h)) in
          rw some_row (
            ap (λ l. from_rows l otherwise metric period) e
            ∙ (ap (λ l. first_limit (filter_rows (matches metric period) l)) (sym e)
                ∙ (first
                    ∙ (by_rows_some (first_where (matches metric period) rows) otherwise
                        ∙ ap (λ o. by_rows o true otherwise)
                            (first_where-same (matches metric period) (sets_limit metric period)
                              rows (matches_lem metric period))))))
    ]

-- The table of a plan has, for every metric and period, the limit that the reference gives: of the first
-- active row of the metric and period, though none if the metric has only rows of the other period;
-- without a row of the metric the positive value of its column for a month, or the product's default.
pub lookup-reference_limit :
    (plan : String) (rows : Option (List Row)) (legacy : Dict String (Option ℤ)) (metric : Metric)
    (period : PeriodName)
    → lookup (metric, period) (normalize_entitlements plan rows legacy)
      ≡ reference_limit plan rows legacy metric period
unfolding entitlement_limit reference_limit
lookup-reference_limit plan none legacy metric period =
    lookup-normalize plan none legacy metric period
    ∙ (fallback_lem plan legacy metric period
        ∙ ap (or_product (profile_limit legacy metric period))
            (product_limit_lem plan metric period))
lookup-reference_limit plan (some rows) legacy metric period =
    lookup-normalize plan (some rows) legacy metric period
    ∙ (from_rows_lem rows _ metric period
        ∙ ap
            (by_rows (first_where (sets_limit metric period) rows)
              (is_some (first_where (sets_metric metric) rows)))
            (fallback_lem plan legacy metric period
              ∙ ap (or_product (profile_limit legacy metric period))
                  (product_limit_lem plan metric period)))
