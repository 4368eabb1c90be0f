-- ===== src/Base/Calendar/Months.antt =====
-- The lengths of months in Python's calendar.
use zouseeking.Base.{ℕ, ◌+◌, ◌≤◌, ◌≡◌, refl, Bool, true, false, ◌||◌, arith, nat_beq, if◌then◌else◌}
use zouseeking.Base.Calendar.{
  leap, year_length, year_of, year_of_bound, days_before_year, days_before_month, month_of,
  in_month-month_of, month_start, month_end, days_before_year-suc,
}

-- The days of a month, in a leap year or not.
unfoldable pub days_in_month : Bool → ℕ → ℕ
days_in_month l m =
    if nat_beq m 2
    then if l then 29 else 28
    else if nat_beq m 4 || (nat_beq m 6 || (nat_beq m 9 || nat_beq m 11))
    then 30
    else 31

month_before :
    (l : Bool) (m : ℕ)
    → 1 ≤ m
    → m ≤ 12
    → (if nat_beq m 12 then (if l then 366 else 365) else days_before_month l (m + 1))
      ≡ days_before_month l m + days_in_month l m
unfolding days_before_month days_in_month
month_before true m p q = ground arith
month_before false m p q = ground arith

-- The month of a day, by its first day and its length.
pub record MonthOf (d : ℕ) : Type 0 where
  pub year : ℕ
  pub month : ℕ
  pub in_year : (1 ≤ month) × (month ≤ 12)
  pub first : month_start d ≡ days_before_year year + days_before_month (leap year) month
  pub last : month_end d ≡ month_start d + days_in_month (leap year) month

pub MonthOf-day : (d : ℕ) → MonthOf d
unfolding month_start month_end year_length
MonthOf-day d =
    let y = year_of d in
    let l = leap y.year in
    let m = month_of l y.day in
    let within = in_month-month_of l y.day (year_of_bound d) in
    let low : 1 ≤ m = ground (arith, within) in
    let high : m ≤ 12 = ground (arith, within) in
    record {
      year = y.year;
      month = m;
      in_year = (low, high);
      first = refl;
      last = ground (arith, month_before l m low high, days_before_year-suc d);
    }
