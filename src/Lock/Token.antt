-- ===== src/Lock/Token.antt =====
-- `generate_lock_token` of src/webdav/mod.rs. The hash of the clock reading (SipHash of the
-- standard library's `DefaultHasher`) is a parameter.
use rshs.Common.{
  Bytes, [], arith, codes, if◌then◌else◌, length, length-append, ltb, refl, some, strip_prefix, suc,
  zero, ℕ, ◌%◌, ◌++◌, ◌+◌, ◌/◌, ◌∷◌, ◌≡◌,
}

hex_digit : ℕ → ℕ
hex_digit d = if ltb d 10 then d + 48 else d + 87

-- `{:016x}`: the low `width` hexadecimal digits of a number below 16 ^ width
hex_digits : ℕ → ℕ → Bytes
unfolding hex_digit
hex_digits zero n = []
hex_digits (suc width) n = hex_digits width (n / 16) ++ hex_digit (n % 16) ∷ []

abbrev pub token_prefix : Bytes
token_prefix = codes "opaquelocktoken:"

unfoldable pub generate_lock_token : (ℕ → ℕ) → ℕ → Bytes
unfolding hex_digits
generate_lock_token hash now = token_prefix ++ hex_digits 16 (hash now)

length-hex_digits : (width n : ℕ) → length (hex_digits width n) ≡ width
unfolding hex_digits
length-hex_digits zero n = refl
length-hex_digits (suc width) n = omega (
  arith,
  length-append (hex_digits width (n / 16)) (hex_digit (n % 16) ∷ []),
  length-hex_digits width (n / 16),
)

-- A generated token starts with "opaquelocktoken:", with exactly 16 characters behind it.
pub generate_lock_token_shape :
    (hash : ℕ → ℕ) (now : ℕ)
    → (rest : Bytes) × (strip_prefix token_prefix (generate_lock_token hash now) ≡ some rest)
      × (length rest ≡ 16)
unfolding generate_lock_token strip_prefix
generate_lock_token_shape hash now =
    (hex_digits 16 (hash now), refl, length-hex_digits 16 (hash now))
