-- ===== src/Body/CharRefs.antt =====
-- `decode_xml_char_refs` of src/webdav/mod.rs: the numeric character references of a text.
use rshs.Common.{
  Bool, Bytes, Option, [], eqb, false, if◌then◌else◌, leb, length, ltb, none, some, suc, true, zero,
  ℕ, ◌%◌, ◌&&◌, ◌*◌, ◌++◌, ◌+◌, ◌-◌, ◌/◌, ◌^◌, ◌||◌, ◌∷◌,
}
use rshs.Headers.Clark.{split_once}

-- `u32::from_str_radix`: a `+` may stand before the digits, and an overflow is an error.
digit_value : ℕ → ℕ → Option ℕ
digit_value radix c =
    if leb 48 c && leb c 57
    then some (c - 48)
    else if eqb radix 16 && leb 97 c && leb c 102
    then some (c - 87)
    else if eqb radix 16 && leb 65 c && leb c 70
    then some (c - 55)
    else none

from_digits : ℕ → ℕ → Bytes → Option ℕ
unfolding digit_value
from_digits radix acc [] = some acc
from_digits radix acc (c ∷ s) = elim (digit_value radix c) [
  | none ↦ none
  | some d ↦
      let n = acc * radix + d in
      let rest = from_digits radix n s in if ltb n (2 ^ 32) then rest else none
]

from_str_radix : ℕ → Bytes → Option ℕ
unfolding from_digits
from_str_radix radix [] = none
from_str_radix radix (c ∷ []) = from_digits radix 0 (c ∷ [])
from_str_radix radix (c ∷ d ∷ s) =
    if eqb c b'+' then from_digits radix 0 (d ∷ s) else from_digits radix 0 (c ∷ d ∷ s)

-- `char::from_u32` and the UTF-8 bytes that `String::push` adds
is_scalar : ℕ → Bool
is_scalar n = ltb n 0xd800 || (leb 0xe000 n && ltb n 0x110000)

push_char : ℕ → Bytes
push_char n =
    if ltb n 0x80
    then n ∷ []
    else if ltb n 0x800
    then (192 + n / 64) ∷ (128 + n % 64) ∷ []
    else if ltb n 0x10000
    then (224 + n / 4096) ∷ (128 + n / 64 % 64) ∷ (128 + n % 64) ∷ []
    else (240 + n / 262144) ∷ (128 + n / 4096 % 64) ∷ (128 + n / 64 % 64) ∷ (128 + n % 64) ∷ []

unfoldable referenced_char : ℕ → Bytes → Bytes
unfolding from_str_radix is_scalar push_char
referenced_char radix num_str = elim (from_str_radix radix num_str) [
  | none ↦ []
  | some n ↦ if is_scalar n then push_char n else []
]

-- `find("&#")`: what stands before it and behind it
unfoldable pub find_ref : Bytes → Option (Bytes × Bytes)
find_ref [] = none
find_ref (c ∷ []) = none
find_ref (c ∷ d ∷ s) =
    let later = find_ref (d ∷ s) in
    if eqb c b'&' && eqb d b'#'
    then some ([], s)
    else elim later [ none ↦ none | some (before, after) ↦ some (c ∷ before, after) ]

-- the `x` of a hexadecimal reference
unfoldable strip_hex : Bytes → Bool × Bytes
strip_hex [] = (false, [])
strip_hex (c ∷ s) = if eqb c b'x' || eqb c b'X' then (true, s) else (false, c ∷ s)

-- One reference is read in each round; each is of two bytes at least.
unfoldable pub decode_run : ℕ → Bytes → Bytes
unfolding find_ref strip_hex split_once referenced_char
decode_run zero text = text
decode_run (suc fuel) text = elim (find_ref text) [
  | none ↦ text
  | some (before, after) ↦
      let hex = (strip_hex after).0 in
      let rest = (strip_hex after).1 in
      elim (split_once b';' rest) [
        | none ↦ before ++ rest
        | some (num_str, behind) ↦
            before ++ referenced_char (if hex then 16 else 10) num_str ++ decode_run fuel behind
      ]
]

unfoldable pub decode_xml_char_refs : Bytes → Bytes
unfolding decode_run
decode_xml_char_refs text = decode_run (length text) text
