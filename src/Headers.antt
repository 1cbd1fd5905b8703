-- ===== src/Headers.antt =====
-- The header parsers and Clark notation of src/webdav/mod.rs. Percent-decoding (the crate
-- percent_encoding, read as lossy UTF-8) is a parameter.
pub mod Clark
use rshs.Common.{
  Bool, Bytes, Option, [], bytes_key, codes, digits_value, eqb, false, if◌then◌else◌,
  is_ascii_whitespace, is_empty, leb, ltb, map, map_some, none, not, some, strip_prefix,
  trim_end_matches, trim_start_matches, true, ℕ, ◌&&◌, ◌*◌, ◌-◌, ◌==◌, ◌^◌, ◌||◌, ◌∷◌,
}
use rshs.FilePath.{path_key}
use rshs.Http.{HeaderMap, header_text}
use rshs.Lock.{Depth, depth_infinity, depth_one, depth_zero}
use rshs.Map.{nat_key}

-- `str::trim`, on the ASCII text of a header
trim_start : Bytes → Bytes
trim_start [] = []
trim_start (c ∷ s) =
    let rest = trim_start s in if is_ascii_whitespace c || eqb c 11 then rest else c ∷ s

trim_end : Bytes → Bytes
trim_end [] = []
trim_end (c ∷ s) =
    let rest = trim_end s in
    if is_empty rest && (is_ascii_whitespace c || eqb c 11) then [] else c ∷ rest

unfoldable pub trim : Bytes → Bytes
unfolding trim_start trim_end
trim s = trim_end (trim_start s)

-- `trim_matches` at one byte
unfoldable pub trim_matches : ℕ → Bytes → Bytes
trim_matches b s = trim_end_matches b (trim_start_matches b s)

unfoldable pub parse_lock_token_header : HeaderMap → Option Bytes
unfolding trim trim_matches
parse_lock_token_header headers =
    map_some (λ v. trim (trim_matches b'>' (trim_matches b'<' v)))
      (header_text headers (codes "lock-token"))

-- `str::parse::<u64>`: a sign is allowed, and the value must fit
parse_digits : Bytes → Option ℕ
parse_digits [] = none
parse_digits (c ∷ s) = elim (digits_value 0 (c ∷ s)) [
  | none ↦ none
  | some n ↦ if ltb n (2 ^ 64) then some n else none
]

unfoldable pub parse_u64 : Bytes → Option ℕ
unfolding parse_digits
parse_u64 [] = none
parse_u64 (c ∷ s) = if eqb c b'+' then parse_digits s else parse_digits (c ∷ s)

-- `Duration::from_secs`, in nanoseconds
abbrev pub from_secs : ℕ → ℕ
from_secs n = n * 1_000_000_000

abbrev and_then : {A B : Type 0} → Option A → (A → Option B) → Option B
and_then none f = none
and_then (some a) f = f a

unfoldable pub parse_timeout : HeaderMap → Option ℕ
unfolding parse_u64
parse_timeout headers =
    and_then (header_text headers (codes "timeout"))
      λ value. map_some from_secs (and_then (strip_prefix (codes "Second-") value) parse_u64)

abbrev depth_of : Bytes → Depth
depth_of value =
    if value == codes "0"
    then depth_zero
    else if value == codes "1"
    then depth_one
    else depth_infinity

unfoldable pub parse_depth : HeaderMap → Depth
parse_depth headers = elim (header_text headers (codes "depth")) [
  | none ↦ depth_infinity
  | some value ↦ depth_of value
]

-- `value.find("://")`, and what stands behind it
after_scheme : Bytes → Option Bytes
after_scheme [] = none
after_scheme (c ∷ s) =
    let rest = after_scheme s in
    elim (strip_prefix (codes "://") (c ∷ s)) [ none ↦ rest | some after ↦ some after ]

-- from the first slash on
from_slash : Bytes → Option Bytes
from_slash [] = none
from_slash (c ∷ s) = let rest = from_slash s in if eqb c b'/' then some (c ∷ s) else rest

abbrev starts_with_slash : Bytes → Bool
starts_with_slash [] = false
starts_with_slash (c ∷ s) = eqb c b'/'

destination_path : Bytes → Option Bytes
unfolding after_scheme from_slash
destination_path value = elim (after_scheme value) [
  | some after ↦ from_slash after
  | none ↦ if starts_with_slash value then some value else none
]

unfoldable pub parse_destination : (Bytes → Bytes) → HeaderMap → Option Bytes
unfolding destination_path
parse_destination percent_decode headers =
    and_then (header_text headers (codes "destination"))
      λ value. map_some (λ p. trim_end_matches b'/' (percent_decode p)) (destination_path value)

to_ascii_uppercase : ℕ → ℕ
to_ascii_uppercase c = if leb b'a' c && leb c b'z' then c - 32 else c

unfoldable pub parse_overwrite : HeaderMap → Bool
unfolding to_ascii_uppercase
parse_overwrite headers = elim (header_text headers (codes "overwrite")) [
  | none ↦ true
  | some v ↦ not (map to_ascii_uppercase v == codes "F")
]
