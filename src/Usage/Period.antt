-- ===== src/Usage/Period.antt =====
-- Billing periods of the usage ledger: backend/app/usage/ledger.py, `_as_utc_plus_8` and
-- `period_bounds`.
use zouseeking.Base.Calendar.Months.{days_in_month, MonthOf-day}
use zouseeking.Base.{
  refl, ap, Bool-cases, inl, inr, ◌⊎◌, ℕ, ◌+◌, ◌-◌, ◌*◌, ◌/◌, ◌≤◌, ◌<◌, ◌≡◌, ◌≢◌, String, arith, ℤ,
  pos, negsuc, suc, if◌then◌else◌, ◌==◌, string_eq, ltb, leb,
}
use zouseeking.Base.Calendar.{
  leap, days_before_month, days_before_year, month_start, month_end, month_start-le, month_end-gt,
}
use zouseeking.Usage.Errors.{
  Result-cases, Result, ok, err, Error, value_error, overflow_error, key_error,
}

-- A `tzinfo`: none or one without an offset, the object UTC_PLUS_8, or another by its offset from UTC in
-- seconds.
pub data TzInfo : Type 0 where
  naive at_utc_plus_8 : TzInfo
  offset : ℤ → TzInfo

-- A Python `datetime`: the wall-clock seconds since 0001-01-01T00:00:00. Microseconds do not reach a
-- period's bounds.
pub record DateTime : Type 0 where
  pub wall : ℕ
  pub tzinfo : TzInfo

abbrev pub seconds_per_day : ℕ
seconds_per_day = 86400

-- 8 hours, the offset of `UTC_PLUS_8`.
abbrev pub utc_plus_8 : ℕ
utc_plus_8 = 28800

-- `datetime.max.toordinal()`, as a day number.
abbrev pub last_day : ℕ
last_day = 3652058

-- `datetime.max`, without its microseconds.
abbrev pub last_second : ℕ
last_second = 315537897599

-- A `datetime` with these seconds, an error past the year 9999.
abbrev pub up_to_9999 : ℕ → Result ℕ
up_to_9999 seconds = if leb seconds last_second then ok seconds else err overflow_error

-- `self - offset`, an error before year 1 as well.
abbrev pub utc_of : ℕ → ℤ → Result ℕ
utc_of wall (pos off) = if ltb wall off then err overflow_error else up_to_9999 (wall - off)
utc_of wall (negsuc off) = up_to_9999 (wall + suc off)

abbrev pub from_utc : Result ℕ → Result ℕ
from_utc (err e) = err e
from_utc (ok utc) = up_to_9999 (utc + utc_plus_8)

-- `_as_utc_plus_8`, as wall-clock seconds at UTC+8. `astimezone` leaves a value with the zone
-- UTC_PLUS_8 as it is, and goes over UTC with any other.
unfoldable pub as_utc_plus_8 : DateTime → Result ℕ
as_utc_plus_8 value = elim value.tzinfo [
  | naive ↦ err value_error
  | at_utc_plus_8 ↦ ok value.wall
  | offset off ↦ from_utc (utc_of value.wall off)
]

-- A period: its start and its exclusive end, in seconds at UTC+8.
pub record Bounds : Type 0 where
  pub start : ℕ
  pub finish : ℕ

abbrev pub at_midnight : ℕ → ℕ → Bounds
at_midnight start_date end_date = record {
  start = start_date * seconds_per_day;
  finish = end_date * seconds_per_day;
}

-- A date past year 9999 is an error: of `timedelta` for a day, of `date` for a month.
unfoldable pub day_bounds : ℕ → Result Bounds
day_bounds d = if leb (d + 1) last_day then ok (at_midnight d (d + 1)) else err overflow_error

unfoldable pub month_bounds : ℕ → Result Bounds
month_bounds d =
    if leb (month_end d) last_day
    then ok (at_midnight (month_start d) (month_end d))
    else err value_error

abbrev pub local_bounds : String → ℕ → Result Bounds
local_bounds period d =
    if period == "day"
    then day_bounds d
    else if period == "month"
    then month_bounds d
    else err value_error

unfoldable pub period_bounds : DateTime → String → Result Bounds
unfolding as_utc_plus_8 day_bounds month_bounds
period_bounds occurred_at period = elim (as_utc_plus_8 occurred_at) [
  | err e ↦ err e
  | ok local ↦ local_bounds period (local / seconds_per_day)
]

-- The seconds at UTC+8 of a wall clock in a zone: `local - 8 hours` is `wall - offset`.
abbrev pub Local : TzInfo → ℕ → ℕ → Type 0
Local naive wall local = ⊥
Local at_utc_plus_8 wall local = local ≡ wall
Local (offset (pos off)) wall local = local + off ≡ wall + 28800
Local (offset (negsuc off)) wall local = local ≡ wall + 28800 + suc off

-- A day from midnight, and a month from the midnight of its first day.
pub record WholeDay (b : Bounds) : Type 0 where
  pub day : ℕ
  pub begins : b.start ≡ day * 86400
  pub ends : b.finish ≡ b.start + 86400

pub record WholeMonth (b : Bounds) : Type 0 where
  pub year : ℕ
  pub month : ℕ
  pub in_year : (1 ≤ month) × (month ≤ 12)
  pub begins : b.start ≡ (days_before_year year + days_before_month (leap year) month) * 86400
  pub ends : b.finish ≡ b.start + days_in_month (leap year) month * 86400

-- The period of an instant: a whole day or month at UTC+8 in which it lies.
pub record Contains (at : DateTime) (period : String) (b : Bounds) : Type 0 where
  pub local : ℕ
  pub instant : Local at.tzinfo at.wall local
  pub starts : b.start ≤ local
  pub finishes : local < b.finish
  pub whole : ((period ≡ "day") × WholeDay b) ⊎ ((period ≡ "month") × WholeMonth b)

as_utc_plus_8-Local :
    (wall : ℕ) (tz : TzInfo) {local : ℕ}
    → as_utc_plus_8 (record { wall = wall; tzinfo = tz }) ≡ ok local
    → Local tz wall local
unfolding as_utc_plus_8
as_utc_plus_8-Local wall naive h = ground (arith, h)
as_utc_plus_8-Local wall at_utc_plus_8 h = ground (arith, h)
as_utc_plus_8-Local wall (offset (pos off)) h = ground (arith, h)
as_utc_plus_8-Local wall (offset (negsuc off)) h = ground (arith, h)

-- The period that metering computes for an instant with a timezone is the whole day or the whole month,
-- from midnight at UTC+8 to a later midnight, that the instant lies in.
pub period_bounds-Contains :
    (at : DateTime) (period : String) (b : Bounds)
    → period_bounds at period ≡ ok b
    → Contains at period b
unfolding period_bounds day_bounds month_bounds
period_bounds-Contains at period b h = elim (Result-cases (as_utc_plus_8 at)) [
  | inr (e, bad) ↦ absurd (ground (arith, bad))
  | inl (local, good) ↦
      let d = local / seconds_per_day in
      let m = MonthOf-day d in
      let metered : local_bounds period d ≡ ok b = ground (arith, good) in
      elim (Bool-cases (period == "day")) [
        | inl daily ↦
            let within : b ≡ at_midnight d (d + 1) = ground (arith, metered, daily) in
            rw within (record {
              local = local;
              instant = as_utc_plus_8-Local at.wall at.tzinfo good;
              starts = omega arith;
              finishes = omega arith;
              whole = inl (
                (string_eq.beq_iff period "day").0 daily,
                record { day = d; begins = refl; ends = omega arith },
              );
            })
        | inr other ↦ elim (Bool-cases (period == "month")) [
          | inr unknown ↦ absurd (ground (arith, metered, other, unknown))
          | inl monthly ↦
              let within : b ≡ at_midnight (month_start d) (month_end d) =
                ground (arith, metered, other, monthly) in
              rw within (record {
                local = local;
                instant = as_utc_plus_8-Local at.wall at.tzinfo good;
                starts = omega (arith, month_start-le d);
                finishes = omega (arith, month_end-gt d);
                whole = inr (
                  (string_eq.beq_iff period "month").0 monthly,
                  record {
                    year = m.year;
                    month = m.month;
                    in_year = m.in_year;
                    begins = ap (λ n. n * 86400) m.first;
                    ends = omega (arith, m.last);
                  },
                );
              })
        ]
      ]
]

pub period_bounds-err :
    (at : DateTime) (period : String) {e : Error} → period_bounds at period ≡ err e → e ≢ key_error
unfolding period_bounds
period_bounds-err at period h = ground arith
