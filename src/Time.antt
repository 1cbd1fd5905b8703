-- ===== src/Time.antt =====
-- src/utils/time.rs: calendar dates and the three formats of a time stamp.
pub mod Years
pub mod Calendar
pub mod Format
pub mod Dated
use rshs.Common.{if◌then◌else◌, leb, ltb, suc, zero, ℕ, ◌%◌, ◌*◌, ◌+◌, ◌-◌, ◌/◌, ◌^◌}

-- `SystemTime`: nanoseconds on either side of the Unix epoch.
pub data SystemTime : Type 0 where
  since_epoch before_epoch : ℕ → SystemTime

-- `negsuc n` is -(n + 1).
pub data ℤ : Type 0 where
  pos negsuc : ℕ → ℤ

pub record CivilDate : Type 0 where
  pub year : ℤ
  pub month : ℕ
  pub day : ℕ

-- `as i32` of a number that is not negative
unfoldable pub as_i32 : ℕ → ℤ
as_i32 n = let r = n % 2 ^ 32 in if ltb r (2 ^ 31) then pos r else negsuc (2 ^ 32 - 1 - r)

-- the year of an era, and the day of the era, counted from 0000-03-01
pub record EraDay : Type 0 where
  pub era : ℤ
  pub doe : ℕ

-- `z as i64 + 719468` and its division by the days of an era, rounded down
abbrev pub era_of : ℕ → EraDay
era_of n = record { era = pos (n / 146097); doe = n - n / 146097 * 146097 }

abbrev pub era_before : ℕ → EraDay
era_before n =
    let eras = (n + 146096) / 146097 in record { era = negsuc (eras - 1); doe = eras * 146097 - n }

unfoldable pub era_day : ℤ → EraDay
era_day (pos n) = era_of (n + 719468)
era_day (negsuc n) =
    if leb (n + 1) 719468 then era_of (719468 - (n + 1)) else era_before (n + 1 - 719468)

unfoldable pub year_of_era : ℕ → ℕ
year_of_era doe = (doe - doe / 1460 + doe / 36524 - doe / 146096) / 365

-- `yoe + era * 400`, and one more for January and February
abbrev pub year_in : ℤ → ℕ → ℤ
year_in (pos era) yoe = pos (yoe + era * 400)
year_in (negsuc era) yoe =
    if leb ((era + 1) * 400) yoe
    then pos (yoe - (era + 1) * 400)
    else negsuc ((era + 1) * 400 - yoe - 1)

abbrev pub next_year : ℤ → ℤ
next_year (pos n) = pos (n + 1)
next_year (negsuc zero) = pos 0
next_year (negsuc (suc n)) = negsuc n

abbrev pub month_of : ℕ → ℕ
month_of mp = if ltb mp 10 then mp + 3 else mp - 9

unfoldable pub civil_from_days : ℤ → CivilDate
unfolding era_day year_of_era
civil_from_days z =
    let e = era_day z in
    let yoe = year_of_era e.doe in
    let doy = e.doe - (365 * yoe + yoe / 4 - yoe / 100) in
    let mp = (5 * doy + 2) / 153 in
    let m = month_of mp in
    record {
      year = (if leb m 2 then next_year (year_in e.era yoe) else year_in e.era yoe);
      month = m;
      day = doy - (153 * mp + 2) / 5 + 1;
    }
