-- ===== src/Time/Format.antt =====
-- The time stamps of src/utils/time.rs, as the bytes of their text. Arithmetic wraps as in a
-- release build.
use rshs.Chain.{◌>>=◌}
use rshs.Common.{
  Bytes, List, Option, [], codes, eqb, get_elem?, if◌then◌else◌, leb, length, ltb, map, none, some,
  suc, zero, ℕ, ◌%◌, ◌++◌, ◌+◌, ◌-◌, ◌/◌, ◌∷◌,
}
use rshs.Time.{SystemTime, as_i32, before_epoch, civil_from_days, negsuc, pos, since_epoch, ℤ}

-- The digits of a number below 10 ^ fuel, the most significant first: twenty are enough for 64 bits.
decimal_run : ℕ → ℕ → Bytes
decimal_run zero n = []
decimal_run (suc fuel) n =
    let rest = decimal_run fuel (n / 10) in
    let last = 48 + n % 10 in if ltb n 10 then last ∷ [] else rest ++ last ∷ []

unfoldable pub decimal : ℕ → Bytes
unfolding decimal_run
decimal n = decimal_run 20 n

unfoldable zeros : ℕ → Bytes
zeros zero = []
zeros (suc n) = 48 ∷ zeros n

-- `{:0width$}`; the sign of a negative number counts as one of the places
unfoldable padded : ℕ → ℕ → Bytes
unfolding zeros decimal
padded width n = zeros (width - length (decimal n)) ++ decimal n

padded_signed : ℕ → ℤ → Bytes
unfolding padded
padded_signed width (pos n) = padded width n
padded_signed width (negsuc n) = 45 ∷ padded (width - 1) (n + 1)

unfoldable pub month_names : List Bytes
month_names = map codes (
    "Jan" ∷ "Feb" ∷ "Mar" ∷ "Apr" ∷ "May" ∷ "Jun" ∷ "Jul" ∷ "Aug" ∷ "Sep" ∷ "Oct" ∷ "Nov" ∷ "Dec"
    ∷ [])

unfoldable pub day_names : List Bytes
day_names = map codes ("Sun" ∷ "Mon" ∷ "Tue" ∷ "Wed" ∷ "Thu" ∷ "Fri" ∷ "Sat" ∷ [])

-- The two clocks of a time stamp: the day since 1970-01-01 and the second of the day.
pub record Stamp : Type 0 where
  pub day : ℤ
  pub time_of_day : ℕ

-- `duration_since(UNIX_EPOCH)` in seconds, cut to days; `none` before the epoch
unfoldable pub stamp : SystemTime → Option Stamp
unfolding as_i32
stamp (since_epoch ns) =
    let total_secs = ns / 1000000000 in
    some (record { day = as_i32 (total_secs / 86400); time_of_day = total_secs % 86400 })
stamp (before_epoch ns) = none

-- `MONTHS[(month - 1) as usize]`; `none` is a panic
unfoldable pub month_name : ℕ → Option Bytes
unfolding month_names
month_name month = get_elem? month_names (month - 1)

-- `((days as i64 + 4) % 7) as usize`: a remainder below zero is no index
unfoldable pub day_name : ℤ → Option Bytes
unfolding day_names
day_name (pos n) = get_elem? day_names ((n + 4) % 7)
day_name (negsuc n) =
    if leb (n + 1) 4
    then get_elem? day_names (3 - n)
    else if eqb ((n - 3) % 7) 0
    then get_elem? day_names 0
    else none

-- `{hours:02}:{mins:02}` of a second of the day
hours_mins : ℕ → Bytes
unfolding padded
hours_mins t = padded 2 (t / 3600) ++ codes ":" ++ padded 2 (t % 3600 / 60)

hours_mins_secs : ℕ → Bytes
unfolding padded hours_mins
hours_mins_secs t = hours_mins t ++ codes ":" ++ padded 2 (t % 60)

-- The three formats: empty before the epoch, `none` for a panic.
unfoldable pub format_rfc850 : SystemTime → Option Bytes
unfolding stamp civil_from_days month_name hours_mins padded_signed
format_rfc850 st = elim (stamp st) [
  | none ↦ some []
  | some s ↦
      let date = civil_from_days s.day in
      let year = padded_signed 4 date.year in
      do
        name ← month_name date.month
        some (
            padded 2 date.day
            ++ codes "-"
            ++ name
            ++ codes "-"
            ++ year
            ++ codes " "
            ++ hours_mins s.time_of_day)
]

unfoldable pub format_rfc1123 : SystemTime → Option Bytes
unfolding stamp civil_from_days month_name day_name hours_mins_secs padded_signed
format_rfc1123 st = elim (stamp st) [
  | none ↦ some []
  | some s ↦
      let date = civil_from_days s.day in
      let year = padded_signed 4 date.year in
      do
        weekday ← day_name s.day
        name ← month_name date.month
        some (
            weekday
            ++ codes ", "
            ++ padded 2 date.day
            ++ codes " "
            ++ name
            ++ codes " "
            ++ year
            ++ codes " "
            ++ hours_mins_secs s.time_of_day
            ++ codes " GMT")
]

unfoldable pub format_rfc3339 : SystemTime → Bytes
unfolding stamp civil_from_days hours_mins_secs padded_signed padded
format_rfc3339 st = elim (stamp st) [
  | none ↦ []
  | some s ↦
      let date = civil_from_days s.day in
      padded_signed 4 date.year
      ++ codes "-"
      ++ padded 2 date.month
      ++ codes "-"
      ++ padded 2 date.day
      ++ codes "T"
      ++ hours_mins_secs s.time_of_day
      ++ codes "Z"
]
