-- ===== src/Base/Calendar/Inverse.antt =====
-- The calendar's split of a day number into year and month, inverted.
use zouseeking.Base.{
  ℕ, ◌+◌, ◌≤◌, ◌<◌, ◌≡◌, refl, Bool, true, false, ◌&&◌, ◌||◌, arith, leb, ltb, nat_beq,
  if◌then◌else◌, ap,
}
use zouseeking.Base.Calendar.{
  leap, year_length, days_before_year, year_of, year_of_sum, year_of_bound, days_before_month,
  month_of, every_below, every_below-at, month_start, month_end, in_month-month_of,
}

days_before_year_next :
    (y : ℕ) → 1 ≤ y → days_before_year (y + 1) ≡ days_before_year y + year_length y
unfolding days_before_year year_length leap
days_before_year_next y h = ground arith

days_before_year_mono : (x y : ℕ) → 1 ≤ x → x ≤ y → days_before_year x ≤ days_before_year y
unfolding days_before_year
days_before_year_mono x y p h = omega arith

year_of_pos : (d : ℕ) → 1 ≤ (year_of d).year
unfolding year_of
year_of_pos d = ground arith

same_year :
    (x y k l : ℕ)
    → 1 ≤ x
    → 1 ≤ y
    → k < year_length x
    → l < year_length y
    → days_before_year x + k ≡ days_before_year y + l
    → x ≡ y
same_year x y k l p q a b h = ground (
  arith,
  days_before_year_next x p,
  days_before_year_next y q,
  days_before_year_mono (x + 1) y,
  days_before_year_mono (y + 1) x,
)

-- The year and the day that a day number was made of.
pub year_of-days_before_year :
    (y k : ℕ)
    → 1 ≤ y
    → k < year_length y
    → ((year_of (days_before_year y + k)).year ≡ y) × ((year_of (days_before_year y + k)).day ≡ k)
year_of-days_before_year y k p h =
    let d = days_before_year y + k in
    let x = (year_of d).year in
    let same : x ≡ y =
      same_year x y (year_of d).day k (year_of_pos d) p (year_of_bound d) h (year_of_sum d) in
    (same, omega (arith, year_of_sum d, ap days_before_year same))

-- The first day of a month is in that month.
abbrev starts : Bool → ℕ → Bool
starts l m =
    leb m 0
    || nat_beq (month_of l (days_before_month l m)) m
      && ltb (days_before_month l m) (if l then 366 else 365)

starts_table : (l : Bool) → every_below (starts l) 13 ≡ true
unfolding every_below month_of days_before_month
starts_table true = refl
starts_table false = refl

pub month_of-days_before_month :
    (l : Bool) (m : ℕ)
    → 1 ≤ m
    → m ≤ 12
    → (month_of l (days_before_month l m) ≡ m) × (days_before_month l m < (if l then 366 else 365))
month_of-days_before_month l m p q =
    ground (arith, every_below-at (starts l) {x = m} 13 (omega arith) (starts_table l))

-- The first of the month of a day, with its year and its month.
pub month_start-year_of :
    (d : ℕ)
    → let y = (year_of d).year in
      let m = month_of (leap y) (year_of d).day in
      ((year_of (month_start d)).year ≡ y)
      × ((year_of (month_start d)).day ≡ days_before_month (leap y) m)
      × (month_of (leap y) (days_before_month (leap y) m) ≡ m)
      × (1 ≤ m)
      × (m ≤ 12)
unfolding month_start year_length
month_start-year_of d =
    let y = (year_of d).year in
    let m = month_of (leap y) (year_of d).day in
    let inside = in_month-month_of (leap y) (year_of d).day (year_of_bound d) in
    let (p, q) : (1 ≤ m) × (m ≤ 12) = (ground (arith, inside), ground (arith, inside)) in
    let (same, short) = month_of-days_before_month (leap y) m p q in
    let (year, day) =
      year_of-days_before_year y (days_before_month (leap y) m) (year_of_pos d) short in
    (year, day, same, p, q)

pub month_start-month_start : (d : ℕ) → month_start (month_start d) ≡ month_start d
month_start-month_start d =
    let (year, day, same, p, q) = month_start-year_of d in
    unfold month_start in ground (arith, year, day, same)

pub month_end-month_start : (d : ℕ) → month_end (month_start d) ≡ month_end d
month_end-month_start d =
    let (year, day, same, p, q) = month_start-year_of d in
    unfold month_end in ground (arith, year, day, same)

-- The last day of the year 9999 is day 3652058.
pub year_of-le : (d : ℕ) → d ≤ 3652058 → (year_of d).year ≤ 9999
unfolding year_of
year_of-le d h = ground arith

-- A month has a day, and the last one ends with the year.
pub days_before_month_next :
    (l : Bool) (m : ℕ)
    → 1 ≤ m
    → m ≤ 12
    → days_before_month l m
      < (if nat_beq m 12 then (if l then 366 else 365) else days_before_month l (m + 1))
unfolding days_before_month
days_before_month_next l m p q = ground arith
