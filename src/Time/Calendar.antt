-- ===== src/Time/Calendar.antt =====
-- The calendar that `civil_from_days` computes: a valid date, and the one that many days after the
-- first of January 1970.
use rshs.Common.{
  Bool, Bool-cases, ap, arith, false, if◌then◌else◌, inl, inr, leb, ltb, suc, sym, true, ℕ, ◌*◌,
  ◌+◌, ◌-◌, ◌/◌, ◌<◌, ◌≡◌, ◌≤◌, ◌⊎◌,
}
use rshs.Time.{CivilDate, civil_from_days, era_day, month_of, pos, year_of_era}
use rshs.Time.Years.{
  days_before_month, days_before_month_march, days_before_year, days_before_year_closed,
  days_in_month, is_leap, leap_closed, leap_day,
}

-- the first day of a year of the era
abbrev year_start : ℕ → ℕ
year_start yoe = 365 * yoe + yoe / 4 - yoe / 100

yoe_lem :
    (doe : ℕ)
    → doe < 146097
    → (year_of_era doe < 400)
      × (year_start (year_of_era doe) ≤ doe)
      × (doe - year_start (year_of_era doe) ≤ 365)
unfolding year_of_era
yoe_lem doe h = omega arith

-- The last day of a long year is in a leap year.
long_year :
    (doe : ℕ)
    → doe < 146097
    → doe - year_start (year_of_era doe) ≡ 365
    → is_leap (year_of_era doe + 1) ≡ true
unfolding year_of_era is_leap
long_year doe h e = ground arith

is_leap-era : (yoe era : ℕ) → is_leap (yoe + era * 400) ≡ is_leap yoe
unfolding is_leap
is_leap-era yoe era = ground arith

march_years :
    (yoe era : ℕ)
    → yoe < 400
    → ((yoe + era * 400) / 4 ≡ yoe / 4 + era * 100)
      × ((yoe + era * 400) / 100 ≡ yoe / 100 + era * 4)
      × ((yoe + era * 400) / 400 ≡ era)
march_years yoe era h = omega arith

module _ (era yoe doy z : ℕ) (in_era : yoe < 400) (in_year : doy ≤ 365)
    (counted : era * 146097 + year_start yoe + doy ≡ z + 719468) where
  abbrev march_year : ℕ
  march_year = yoe + era * 400

  closed :
      march_year * 365 + march_year / 4 - march_year / 100 + march_year / 400 + doy ≡ z + 719468
  closed = omega (arith, march_years yoe era in_era)

-- From the day of the year that starts in March to the count of days.
module _ (y doy z : ℕ) (in_year : doy ≤ 365)
    (total : y * 365 + y / 4 - y / 100 + y / 400 + doy ≡ z + 719468) where
  y_late : 1969 ≤ y
  y_late = omega arith

  -- January and February belong to the next year.
  next_year_days : 306 ≤ doy → days_before_year (y - 1969) + (doy - 306) ≡ z
  next_year_days h =
      let e : 1969 + (y - 1969) ≡ y = omega (arith, y_late) in
      let c = days_before_year_closed (y - 1969) in omega (arith, y_late, rw e at c)

  same_year : doy < 306 → 1970 ≤ y
  same_year h = omega arith

  same_year_days : doy < 306 → days_before_year (y - 1970) + (59 + leap_day y + doy) ≡ z
  same_year_days h =
      let e : 1969 + (y - 1970) ≡ y - 1 = omega (arith, same_year h) in
      let c = days_before_year_closed (y - 1970) in
      omega (arith, same_year h, rw e at c, leap_closed y (omega (arith, same_year h)))

-- What `civil_from_days` must give: a date of the calendar, `z` days after 1970-01-01.
pub record IsDateOf (z : ℕ) (date : CivilDate) : Type 0 where
  pub years : ℕ
  pub year_eq : date.year ≡ pos (1970 + years)
  pub month_in : (1 ≤ date.month) × (date.month ≤ 12)
  pub day_in : (1 ≤ date.day) × (date.day ≤ days_in_month (1970 + years) date.month)
  pub count :
      days_before_year years + days_before_month (1970 + years) date.month + date.day ≡ z + 1

-- the day within the month, from the day of the year
month_day :
    (doy : ℕ)
    → doy ≤ 365
    → let mp = (5 * doy + 2) / 153 in
      (mp ≤ 11) × ((153 * mp + 2) / 5 ≤ doy) × (doy < (153 * (mp + 1) + 2) / 5)
month_day doy h = omega arith

march_length :
    (y k : ℕ) → k < 10 → days_in_month y (k + 3) + (153 * k + 2) / 5 ≡ (153 * (k + 1) + 2) / 5
unfolding days_in_month
march_length y k h = ground arith

spring_date :
    (y doy z mp : ℕ)
    → doy ≤ 365
    → y * 365 + y / 4 - y / 100 + y / 400 + doy ≡ z + 719468
    → mp < 10
    → (153 * mp + 2) / 5 ≤ doy
    → doy < (153 * (mp + 1) + 2) / 5
    → IsDateOf z (record { year = pos y; month = mp + 3; day = doy - (153 * mp + 2) / 5 + 1 })
spring_date y doy z mp h total m lo hi =
    let before_306 : doy < 306 = omega arith in
    let late : 1970 ≤ y = same_year y doy z h total before_306 in
    let e : 1970 + (y - 1970) ≡ y = omega (arith, late) in
    let three : mp + 3 ≡ suc (suc (suc mp)) = omega arith in
    record {
      years = y - 1970;
      year_eq = ap pos (sym e);
      month_in = omega arith;
      day_in = rw e (omega (arith, march_length y mp m));
      count = rw e (
          rw three (
            omega
              (arith, same_year_days y doy z h total before_306, days_before_month_march y mp m)));
    }

winter_date :
    (y doy z mp : ℕ)
    → doy ≤ 365
    → y * 365 + y / 4 - y / 100 + y / 400 + doy ≡ z + 719468
    → (doy ≡ 365 → is_leap (y + 1) ≡ true)
    → 10 ≤ mp
    → mp ≤ 11
    → (153 * mp + 2) / 5 ≤ doy
    → doy < (153 * (mp + 1) + 2) / 5
    → IsDateOf z (record { year = pos (y + 1); month = mp - 9; day = doy - (153 * mp + 2) / 5 + 1 })
unfolding days_in_month days_before_month
winter_date y doy z mp h total long m n lo hi =
    let late : 1969 ≤ y = y_late y doy z h total in
    let e : 1970 + (y - 1969) ≡ y + 1 = omega (arith, late) in
    let days = next_year_days y doy z h total (omega arith) in
    elim (eleven mp m n) [
      | inl ten ↦ rw ten (record {
        years = y - 1969;
        year_eq = ap pos (sym e);
        month_in = omega arith;
        day_in = omega arith;
        count = omega (arith, days);
      })
      | inr last ↦ rw last (record {
        years = y - 1969;
        year_eq = ap pos (sym e);
        month_in = omega arith;
        day_in = rw e (february (is_leap (y + 1)) long);
        count = omega (arith, days);
      })
    ]
  where
    eleven : (k : ℕ) → 10 ≤ k → k ≤ 11 → (k ≡ 10) ⊎ (k ≡ 11)
    eleven k a b = ground arith

    february :
        (leap : Bool)
        → (doy ≡ 365 → leap ≡ true)
        → (1 ≤ doy - 337 + 1) × (doy - 337 + 1 ≤ (if leap then 29 else 28))
    february true k = omega arith
    february false k = ground arith

-- A date within the year that starts in March of year `y`.
date_in :
    (y doy z mp : ℕ)
    → doy ≤ 365
    → y * 365 + y / 4 - y / 100 + y / 400 + doy ≡ z + 719468
    → (doy ≡ 365 → is_leap (y + 1) ≡ true)
    → (mp ≤ 11) × ((153 * mp + 2) / 5 ≤ doy) × (doy < (153 * (mp + 1) + 2) / 5)
    → IsDateOf z (record {
      year = (if leb (month_of mp) 2 then pos (y + 1) else pos y);
      month = month_of mp;
      day = doy - (153 * mp + 2) / 5 + 1;
    })
date_in y doy z mp h total long (m, lo, hi) = elim (Bool-cases (ltb mp 10)) [
  | inl spring ↦
      let early : leb (mp + 3) 2 ≡ false = ground arith in
      rw spring (rw early (spring_date y doy z mp h total (ground arith) lo hi))
  | inr winter ↦
      let late : leb (mp - 9) 2 ≡ true = ground arith in
      rw winter (rw late (winter_date y doy z mp h total long (ground arith) m lo hi))
]

-- The day of the era of a day from 1970 on.
module _ (z : ℕ) where
  abbrev doe : ℕ
  doe = z + 719468 - (z + 719468) / 146097 * 146097

  abbrev yoe : ℕ
  yoe = year_of_era doe

  doe_in : doe < 146097
  doe_in = omega arith

  counted : (z + 719468) / 146097 * 146097 + year_start yoe + (doe - year_start yoe) ≡ z + 719468
  counted = omega (arith, yoe_lem doe doe_in)

  long : doe - year_start yoe ≡ 365 → is_leap (yoe + (z + 719468) / 146097 * 400 + 1) ≡ true
  long e =
      let swap : yoe + (z + 719468) / 146097 * 400 + 1 ≡ yoe + 1 + (z + 719468) / 146097 * 400 =
        omega arith in
      rw (swap, is_leap-era (yoe + 1) ((z + 719468) / 146097)) (long_year doe doe_in e)

-- For every day from 1970 on, the result is a date of the calendar, and the one that is that many
-- days after the first of January 1970.
pub civil_from_days_lem : (z : ℕ) → IsDateOf z (civil_from_days (pos z))
unfolding civil_from_days era_day
civil_from_days_lem z =
    let y = yoe_lem (doe z) (doe_in z) in
    date_in (yoe z + (z + 719468) / 146097 * 400) (doe z - year_start (yoe z)) z
      ((5 * (doe z - year_start (yoe z)) + 2) / 153) y.2
      (closed ((z + 719468) / 146097) (yoe z) (doe z - year_start (yoe z)) z y.0 y.2 (counted z))
      (long z) (month_day (doe z - year_start (yoe z)) y.2)
