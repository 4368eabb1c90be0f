-- ===== src/Usage/Postgres/Bucket.antt =====
-- The period key that the tables store, `_period_bucket` and `_bucket_bounds` of
-- backend/app/usage/db_ledger.py.
use zouseeking.Base.{
  ℕ, ◌+◌, ◌-◌, ◌*◌, ◌/◌, ◌≡◌, ◌↔◌, Bool, true, false, ◌&&◌, ◌||◌, not, String, arith, leb, nat_beq,
  if◌then◌else◌, ◌==◌, string_eq, BoolEq,
}
use zouseeking.Base.Calendar.{
  leap, days_before_year, year_length, year_of, days_before_month, month_of,
}
use zouseeking.Usage.Errors.{Result, ok, err, value_error}
use zouseeking.Usage.Period.{at_utc_plus_8, DateTime, Bounds, seconds_per_day, period_bounds}

-- The text 'YYYY-MM-DD' or 'YYYY-MM' by its numbers. A year below 1000 is written with fewer digits.
pub data Bucket : Type 0 where
  day_key : ℕ → ℕ → ℕ → Bucket
  month_key : ℕ → ℕ → Bucket

unfoldable pub bucket_beq : Bucket → Bucket → Bool
bucket_beq (day_key y m d) (day_key y' m' d') = nat_beq y y' && (nat_beq m m' && nat_beq d d')
bucket_beq (month_key y m) (month_key y' m') = nat_beq y y' && nat_beq m m'
bucket_beq _ _ = false

pub bucket_beq_iff : (a b : Bucket) → (bucket_beq a b ≡ true) ↔ (a ≡ b)
unfolding bucket_beq
bucket_beq_iff a b = ground arith

instance abbrev pub bucket_eq : BoolEq Bucket
bucket_eq = record { beq = bucket_beq; beq_iff = bucket_beq_iff }

-- `strftime` of the day number `n`.
unfoldable pub day_text : ℕ → Bucket
day_text n =
    let y = year_of n in
    let l = leap y.year in
    let m = month_of l y.day in day_key y.year m (y.day - days_before_month l m + 1)

unfoldable pub month_text : ℕ → Bucket
month_text n = let y = year_of n in month_key y.year (month_of (leap y.year) y.day)

-- `_period_bucket`: the key with the period's bounds.
unfoldable pub period_bucket : DateTime → String → Result (Bucket × Bounds)
period_bucket occurred_at period =
    if not ((period == "day") || (period == "month"))
    then err value_error
    else elim (period_bounds occurred_at period) [
      | err e ↦ err e
      | ok b ↦
          let n = b.start / seconds_per_day in
          ok (if period == "day" then day_text n else month_text n, b)
    ]

abbrev pub year_in : Bucket → ℕ
year_in (day_key y m d) = y
year_in (month_key y m) = y

abbrev pub month_length : ℕ → ℕ → ℕ
month_length y m =
    (if nat_beq m 12 then year_length y else days_before_month (leap y) (m + 1))
    - days_before_month (leap y) m

-- `strptime`, which wants four digits of a year and a date that exists: the day's number.
unfoldable pub read_date : ℕ → ℕ → ℕ → Result ℕ
read_date y m d =
    if leb 1000 y
      && (leb y 9999 && (leb 1 m && (leb m 12 && (leb 1 d && leb d (month_length y m)))))
    then ok (days_before_year y + days_before_month (leap y) m + (d - 1))
    else err value_error

abbrev pub midnight : ℕ → DateTime
midnight n = record { wall = n * seconds_per_day; tzinfo = at_utc_plus_8 }

abbrev pub bounds_at : Result ℕ → String → Result Bounds
bounds_at (err e) period = err e
bounds_at (ok n) period = period_bounds (midnight n) period

-- `_bucket_bounds`
unfoldable pub bucket_bounds : Bucket → Result Bounds
unfolding read_date
bucket_bounds (day_key y m d) = bounds_at (read_date y m d) "day"
bucket_bounds (month_key y m) = bounds_at (read_date y m 1) "month"
