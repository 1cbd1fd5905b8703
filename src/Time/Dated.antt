-- ===== src/Time/Dated.antt =====
-- The formats of src/utils/time.rs never panic on a date whose day fits in an `i32`.
use rshs.Chain.{◌>>=◌}
use rshs.Common.{
  Bytes, List, Option, [], arith, get_elem?, length, ltb, refl, some, suc, true, zero, ℕ, ◌%◌, ◌+◌,
  ◌-◌, ◌/◌, ◌<◌, ◌^◌, ◌∷◌, ◌≡◌, ◌≤◌,
}
use rshs.Time.{SystemTime, as_i32, before_epoch, pos, since_epoch}
use rshs.Time.Calendar.{civil_from_days_lem}
use rshs.Time.Format.{day_name, day_names, format_rfc1123, month_name, month_names, stamp}

abbrev pub IsDated : SystemTime → Type 0
IsDated (since_epoch ns) = ns / 1000000000 / 86400 < 2 ^ 31
IsDated (before_epoch ns) = Unit

get_elem?-some {ℓ} :
    {A : Type ℓ} (xs : List A) (i : ℕ) → i < length xs → (x : A) × (get_elem? xs i ≡ some x)
get_elem?-some [] i h = elim (none_below i h) [ ]
  where
    none_below : (i : ℕ) → i < 0 → ⊥
    none_below i h = omega arith
get_elem?-some (x ∷ xs) zero h = (x, refl)
get_elem?-some (x ∷ xs) (suc i) h = get_elem?-some xs i (omega arith)

month_name-some :
    (month : ℕ) → 1 ≤ month → month ≤ 12 → (name : Bytes) × (month_name month ≡ some name)
unfolding month_name month_names
month_name-some month lo hi = get_elem?-some month_names (month - 1) (omega arith)

day_name-some : (n : ℕ) → (name : Bytes) × (day_name (pos n) ≡ some name)
unfolding day_name day_names
day_name-some n = get_elem?-some day_names ((n + 4) % 7) (omega arith)

as_i32-pos : (n : ℕ) → n < 2 ^ 31 → as_i32 n ≡ pos n
unfolding as_i32
as_i32-pos n h =
    let same : n % 2 ^ 32 ≡ n = omega arith in
    let low : ltb n (2 ^ 31) ≡ true = ground arith in rw (same, low) refl

two_steps :
    {a b : Option Bytes} {x y : Bytes} (write : Bytes → Bytes → Bytes)
    → a ≡ some x
    → b ≡ some y
    → (date : Bytes) × ((a >>= λ v. b >>= λ w. some (write v w)) ≡ some date)
two_steps {x} {y} write e f = (write x y, rw (e, f) refl)

-- For a date in range, there is a text.
pub format_rfc1123-some :
    (st : SystemTime) → IsDated st → (date : Bytes) × (format_rfc1123 st ≡ some date)
unfolding format_rfc1123 stamp
format_rfc1123-some (before_epoch ns) h = ([], refl)
format_rfc1123-some (since_epoch ns) h =
    let n = ns / 1000000000 / 86400 in
    let date = civil_from_days_lem n in
    let (weekday, weekday_eq) = day_name-some n in
    let (name, name_eq) = month_name-some _ date.month_in.0 date.month_in.1 in
    rw (as_i32-pos n h) (two_steps _ weekday_eq name_eq)
