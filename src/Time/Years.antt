-- ===== src/Time/Years.antt =====
-- The Gregorian calendar, by counting the days of years and months, with closed formulas for the
-- counts.
use rshs.Common.{
  Bool, arith, eqb, if◌then◌else◌, not, suc, zero, ℕ, ◌%◌, ◌&&◌, ◌*◌, ◌+◌, ◌-◌, ◌/◌, ◌<◌, ◌||◌, ◌≡◌,
  ◌≤◌,
}

unfoldable pub is_leap : ℕ → Bool
is_leap y = eqb (y % 4) 0 && (not (eqb (y % 100) 0) || eqb (y % 400) 0)

unfoldable pub days_in_month : ℕ → ℕ → ℕ
days_in_month y m =
    if eqb m 2
    then (if is_leap y then 29 else 28)
    else if eqb m 4 || eqb m 6 || eqb m 9 || eqb m 11
    then 30
    else 31

pub days_in_year : ℕ → ℕ
days_in_year y = if is_leap y then 366 else 365

abbrev pub leap_day : ℕ → ℕ
leap_day y = if is_leap y then 1 else 0

-- the days of the years from 1970 to before 1970 + k
pub days_before_year : ℕ → ℕ
days_before_year zero = 0
days_before_year (suc k) = days_before_year k + days_in_year (1970 + k)

unfoldable pub days_before_month : ℕ → ℕ → ℕ
days_before_month y zero = 0
days_before_month y (suc zero) = 0
days_before_month y (suc (suc m)) = days_before_month y (suc m) + days_in_month y (suc m)

pub days_before_year_closed :
    (k : ℕ)
    → days_before_year k + 719162
      ≡ (1969 + k) * 365 + (1969 + k) / 4 - (1969 + k) / 100 + (1969 + k) / 400
unfolding days_before_year days_in_year is_leap
days_before_year_closed zero = omega arith
days_before_year_closed (suc k) = ground (arith, days_before_year_closed k)

-- The months from March on.
pub days_before_month_march :
    (y k : ℕ)
    → k < 10
    → days_before_month y (suc (suc (suc k))) ≡ (153 * k + 2) / 5 + 59 + leap_day y
unfolding days_before_month days_in_month
days_before_month_march y zero h = ground arith
days_before_month_march y (suc k) h = ground (arith, days_before_month_march y k)

-- the days of the years before a year, with the leap day of the year itself
pub leap_closed :
    (y : ℕ)
    → 1 ≤ y
    → (y - 1) * 365 + (y - 1) / 4 - (y - 1) / 100 + (y - 1) / 400 + leap_day y + 365
      ≡ y * 365 + y / 4 - y / 100 + y / 400
unfolding is_leap
leap_closed y h = ground arith
