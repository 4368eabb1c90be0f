-- ===== src/Usage/Postgres/RoundTrip.antt =====
-- A stored period key gives its period back: `_period_bucket` and `_bucket_bounds` of
-- backend/app/usage/db_ledger.py.
use zouseeking.Base.{
  ℕ, ◌+◌, ◌-◌, ◌*◌, ◌/◌, ◌≤◌, ◌≡◌, ◌∙◌, String, arith, inl, inr, Bool-cases, ◌==◌, string_eq, leb,
  ap,
}
use zouseeking.Base.Calendar.{
  leap, year_length, year_of, year_of_sum, year_of_bound, days_before_month, month_of,
  in_month-month_of, month_start, month_end, month_end-gt,
}
use zouseeking.Base.Calendar.Inverse.{
  year_of-le, days_before_month_next, month_start-year_of, month_start-month_start,
  month_end-month_start,
}
use zouseeking.Usage.Errors.{ok, Result-cases}
use zouseeking.Usage.Period.{
  DateTime, Bounds, period_bounds, as_utc_plus_8, local_bounds, day_bounds, month_bounds,
  at_midnight, seconds_per_day, last_day,
}
use zouseeking.Usage.Postgres.Bucket.{
  Bucket, day_text, month_text, period_bucket, year_in, midnight, read_date, bucket_bounds,
}

-- Midnight of a day at UTC+8 lies on that day.
midnight_bounds :
    (n : ℕ) (period : String) → period_bounds (midnight n) period ≡ local_bounds period n
unfolding period_bounds as_utc_plus_8 day_bounds month_bounds
midnight_bounds n period =
    let here : n * seconds_per_day + 28800 - 28800 ≡ n * seconds_per_day = omega arith in
    let day : n * seconds_per_day / seconds_per_day ≡ n = omega arith in ground (arith, here, day)

-- The date text of a day is read as that day, up to the year 9999.
read_day :
    (n : ℕ)
    → 1000 ≤ (year_of n).year
    → n ≤ last_day
    → let y = year_of n in
      let m = month_of (leap y.year) y.day in
      read_date y.year m (y.day - days_before_month (leap y.year) m + 1) ≡ ok n
unfolding read_date year_length
read_day n p q = ground (
  arith,
  year_of_sum n,
  year_of_bound n,
  year_of-le n q,
  in_month-month_of (leap (year_of n).year) (year_of n).day (year_of_bound n),
)

read_month :
    (n : ℕ)
    → 1000 ≤ (year_of n).year
    → n ≤ last_day
    → let y = year_of n in read_date y.year (month_of (leap y.year) y.day) 1 ≡ ok (month_start n)
unfolding read_date year_length
read_month n p q =
    let (year, day, same, low, high) = month_start-year_of n in
    ground (
      arith,
      low,
      high,
      year,
      day,
      year_of_sum (month_start n),
      days_before_month_next (leap (year_of n).year)
          (month_of (leap (year_of n).year) (year_of n).day) low high,
      year_of-le n q,
    )

-- The days of a period that was computed.
Bounds-day :
    (at : DateTime) (b : Bounds)
    → period_bounds at "day" ≡ ok b
    → (n : ℕ) × (n + 1 ≤ last_day) × (b ≡ at_midnight n (n + 1))
unfolding period_bounds day_bounds month_bounds
Bounds-day at b h = elim (Result-cases (as_utc_plus_8 at)) [
  | inr (e, bad) ↦ absurd (ground (arith, bad))
  | inl (local, good) ↦
      let n = local / seconds_per_day in
      elim (Bool-cases (leb (n + 1) last_day)) [
        | inr late ↦ absurd (ground (arith, good, late))
        | inl within ↦ (n, ground (arith, within), ground (arith, good, within))
      ]
]

Bounds-month :
    (at : DateTime) (b : Bounds)
    → period_bounds at "month" ≡ ok b
    → (n : ℕ) × (month_end n ≤ last_day) × (b ≡ at_midnight (month_start n) (month_end n))
unfolding period_bounds day_bounds month_bounds
Bounds-month at b h = elim (Result-cases (as_utc_plus_8 at)) [
  | inr (e, bad) ↦ absurd (ground (arith, bad))
  | inl (local, good) ↦
      let n = local / seconds_per_day in
      elim (Bool-cases (leb (month_end n) last_day)) [
        | inr late ↦ absurd (ground (arith, good, late))
        | inl within ↦ (n, ground (arith, within), ground (arith, good, within))
      ]
]

day_text-bounds :
    (n : ℕ)
    → n + 1 ≤ last_day
    → 1000 ≤ year_in (day_text n)
    → bucket_bounds (day_text n) ≡ ok (at_midnight n (n + 1))
unfolding day_text bucket_bounds day_bounds
day_text-bounds n w p =
    rw (read_day n p (omega (arith, w))) (midnight_bounds n "day" ∙ ground (arith, w))

month_text-bounds :
    (n : ℕ)
    → month_end n ≤ last_day
    → 1000 ≤ year_in (month_text (month_start n))
    → bucket_bounds (month_text (month_start n)) ≡ ok (at_midnight (month_start n) (month_end n))
unfolding month_text bucket_bounds month_bounds
month_text-bounds n w p =
    rw
      (read_month (month_start n) p
        (omega (arith, w, month_end-month_start n, month_end-gt (month_start n))))
      (ap (λ m. period_bounds (midnight m) "month") (month_start-month_start n)
        ∙ (midnight_bounds (month_start n) "month"
            ∙ ground (arith, w, month_start-month_start n, month_end-month_start n)))

-- The key that a period is stored under, from the year 1000 on, gives the period's bounds back.
pub bucket_bounds-period_bucket :
    (at : DateTime) (period : String) (key : Bucket) (b : Bounds)
    → period_bucket at period ≡ ok (key, b)
    → 1000 ≤ year_in key
    → bucket_bounds key ≡ ok b
unfolding period_bucket
bucket_bounds-period_bucket at period key b h p = elim (Result-cases (period_bounds at period)) [
  | inr (e, bad) ↦ absurd (ground (arith, bad))
  | inl (b', good) ↦ elim (Bool-cases (period == "day")) [
    | inl daily ↦
        let (n, w, e) = Bounds-day at b' (rw ((string_eq.beq_iff period "day").0 daily) at good) in
        let start : b'.start / seconds_per_day ≡ n = ground (arith, e) in
        let (named, same) : (key ≡ day_text n) × (b ≡ at_midnight n (n + 1)) =
          (ground (arith, daily, good, start), ground (arith, daily, good, e)) in
        rw (named, same) (day_text-bounds n w (rw named at p))
    | inr other ↦ elim (Bool-cases (period == "month")) [
      | inr neither ↦ absurd (ground (arith, other, neither))
      | inl monthly ↦
          let (n, w, e) =
            Bounds-month at b' (rw ((string_eq.beq_iff period "month").0 monthly) at good) in
          let start : b'.start / seconds_per_day ≡ month_start n = ground (arith, e) in
          let (named, same) : (key ≡ month_text (month_start n))
              × (b ≡ at_midnight (month_start n) (month_end n)) =
            (
              ground (arith, other, monthly, good, start),
              ground (arith, other, monthly, good, e),
            ) in
          rw (named, same) (month_text-bounds n w (rw named at p))
    ]
  ]
]
