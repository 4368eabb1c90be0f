-- ===== src/Base/Calendar.antt =====
-- Python's proleptic Gregorian calendar as `datetime.date` computes it: days are numbered from
-- 0001-01-01 as day 0, so a Python ordinal is the day's number plus one.
pub mod Inverse
pub mod Months
use zouseeking.Base.{
  inl, inr, nat_beq_iff, ap, Bool-cases, ℕ, zero, suc, ◌+◌, ◌-◌, ◌*◌, ◌/◌, ◌%◌, ◌<◌, ◌≤◌, ◌≡◌, refl,
  Bool, true, false, ◌&&◌, ◌||◌, not, arith, nat_beq, ltb, leb, if◌then◌else◌,
}

unfoldable pub leap : ℕ → Bool
leap y = nat_beq (y % 4) 0 && (not (nat_beq (y % 100) 0) || nat_beq (y % 400) 0)

unfoldable pub year_length : ℕ → ℕ
unfolding leap
year_length y = if leap y then 366 else 365

unfoldable pub days_before_year : ℕ → ℕ
days_before_year y = (y - 1) * 365 + (y - 1) / 4 - (y - 1) / 100 + (y - 1) / 400

pub record YearDay : Type 0 where
  pub year : ℕ
  pub day : ℕ

-- The year split off a day number by cycles of 400, 100, 4 and 1 years.
unfoldable pub year_of : ℕ → YearDay
year_of d =
    let n400 = d / 146097 in
    let r400 = d % 146097 in
    let n100 = r400 / 36524 in
    let r100 = r400 % 36524 in
    let n4 = r100 / 1461 in
    let r4 = r100 % 1461 in
    let n1 = r4 / 365 in
    let y = n400 * 400 + n100 * 100 + n4 * 4 + n1 + 1 in
    if nat_beq n1 4 || nat_beq n100 4
    then record { year = y - 1; day = 365 }
    else record { year = y; day = r4 % 365 }

pub year_of_sum : (d : ℕ) → days_before_year (year_of d).year + (year_of d).day ≡ d
unfolding days_before_year year_of
year_of_sum d = ground arith

pub year_of_bound : (d : ℕ) → (year_of d).day < year_length (year_of d).year
unfolding year_length year_of
year_of_bound d = ground arith

-- The month that holds day `n` of a year, and the days of the year before that month.
unfoldable pub days_before_month : Bool → ℕ → ℕ
days_before_month l m =
    (if leb m 1
      then 0
      else if leb m 2
      then 31
      else if leb m 3
      then 59
      else if leb m 4
      then 90
      else if leb m 5
      then 120
      else if leb m 6
      then 151
      else if leb m 7
      then 181
      else if leb m 8
      then 212
      else if leb m 9
      then 243
      else if leb m 10
      then 273
      else if leb m 11
      then 304
      else 334)
    + (if l && ltb 2 m then 1 else 0)

unfoldable pub month_of : Bool → ℕ → ℕ
unfolding days_before_month
month_of l n = let m = (n + 50) / 32 in if ltb n (days_before_month l m) then m - 1 else m

pub every_below : (ℕ → Bool) → ℕ → Bool
every_below p zero = true
every_below p (suc n) = every_below p n && p n

every_below-at : (p : ℕ → Bool) {x : ℕ} (n : ℕ) → x < n → every_below p n ≡ true → p x ≡ true
unfolding every_below
every_below-at p zero lt h = absurd (omega arith)
every_below-at p {x} (suc n) lt h = elim (Bool-cases (nat_beq x n)) [
  | inl here ↦ ground (arith, ap p ((nat_beq_iff x n).0 here))
  | inr before ↦ every_below-at p n (ground arith) (ground arith)
]

-- The day lies between the first of its month and the first of the next.
abbrev pub in_month : Bool → ℕ → ℕ → Bool
in_month l n m =
    leb 1 m
    && (leb m 12
        && (leb (days_before_month l m) n
            && ltb n
                (if nat_beq m 12 then (if l then 366 else 365) else days_before_month l (m + 1))))

month_table :
    (l : Bool) → every_below (λ n. in_month l n (month_of l n)) (if l then 366 else 365) ≡ true
unfolding every_below month_of days_before_month
month_table true = refl
month_table false = refl

pub in_month-month_of :
    (l : Bool) (n : ℕ) → n < (if l then 366 else 365) → in_month l n (month_of l n) ≡ true
in_month-month_of l n h =
    every_below-at (λ n. in_month l n (month_of l n)) (if l then 366 else 365) h (month_table l)

-- `date.replace(day=1)` and the first day of the month after, as day numbers.
unfoldable pub month_start : ℕ → ℕ
unfolding leap
month_start d =
    let y = year_of d in
    let l = leap y.year in days_before_year y.year + days_before_month l (month_of l y.day)

unfoldable pub month_end : ℕ → ℕ
unfolding leap
month_end d =
    let y = year_of d in
    let l = leap y.year in
    let m = month_of l y.day in
    if nat_beq m 12
    then days_before_year (y.year + 1)
    else days_before_year y.year + days_before_month l (m + 1)

pub days_before_year-suc :
    (d : ℕ)
    → let y = (year_of d).year in
      days_before_year (y + 1) ≡ days_before_year y + (if leap y then 366 else 365)
unfolding days_before_year leap year_of
days_before_year-suc d = ground arith

pub month_start-le : (d : ℕ) → month_start d ≤ d
unfolding month_start year_length
month_start-le d = ground (
  arith,
  year_of_sum d,
  year_of_bound d,
  in_month-month_of (leap (year_of d).year) (year_of d).day,
)

pub month_end-gt : (d : ℕ) → d < month_end d
unfolding month_end year_length
month_end-gt d = ground (
  arith,
  year_of_sum d,
  year_of_bound d,
  days_before_year-suc d,
  in_month-month_of (leap (year_of d).year) (year_of d).day,
)
