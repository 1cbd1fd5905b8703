-- ===== src/Common/Str.antt =====
-- The functions of Rust's `str` and `[u8]` that the program calls, over byte strings.
use Prim.Native.Nat.{ℕ, ◌+◌, ◌-◌, ◌*◌}
use Prim.Native.Char.{code}
use Prim.Native.String.{String}
use mathlib.Core.Bool.{Bool, ◌&&◌, ◌||◌}
use mathlib.Core.Option.{Option, none, some}
use mathlib.Core.List.{List, [], ◌∷◌, ◌++◌, map}
use rshs.Common.Tests.{Bytes, bytes_eq, eqb, leb, if◌then◌else◌}
use rshs.Common.Lists.{is_empty}

-- The bytes of an ASCII literal.
abbrev pub codes : String → Bytes
codes String.[] = []
codes (String.◌∷◌ c s) = code c ∷ codes s

-- `u8::is_ascii_whitespace`: space, tab, line feed, form feed, carriage return.
abbrev pub is_ascii_whitespace : ℕ → Bool
is_ascii_whitespace c = eqb c 32 || eqb c 9 || eqb c 10 || eqb c 12 || eqb c 13

unfoldable pub is_digit : ℕ → Bool
is_digit c = leb 48 c && leb c 57

-- `str::strip_prefix`
unfoldable pub strip_prefix : Bytes → Bytes → Option Bytes
strip_prefix [] s = some s
strip_prefix (p ∷ ps) [] = none
strip_prefix (p ∷ ps) (c ∷ s) = let rest = strip_prefix ps s in if eqb p c then rest else none

-- `trim_start_matches` at one byte
unfoldable pub trim_start_matches : ℕ → Bytes → Bytes
trim_start_matches b [] = []
trim_start_matches b (c ∷ s) = let rest = trim_start_matches b s in if eqb c b then rest else c ∷ s

-- `trim_end_matches` at one byte
unfoldable pub trim_end_matches : ℕ → Bytes → Bytes
trim_end_matches b [] = []
trim_end_matches b (c ∷ s) =
    let rest = trim_end_matches b s in if is_empty rest && eqb c b then [] else c ∷ rest

-- The digits of a number, the most significant first; `none` at another byte.
unfoldable pub digits_value : ℕ → Bytes → Option ℕ
unfolding is_digit
digits_value acc [] = some acc
digits_value acc (c ∷ s) =
    let rest = digits_value (acc * 10 + (c - 48)) s in if is_digit c then rest else none

-- `str::split` at one byte
unfoldable pub split_run : ℕ → Bytes → Bytes → List Bytes
split_run b run [] = run ∷ []
split_run b run (c ∷ s) =
    let closed = split_run b [] s in
    let longer = split_run b (run ++ c ∷ []) s in if eqb c b then run ∷ closed else longer

unfoldable pub split : ℕ → Bytes → List Bytes
unfolding split_run
split b s = split_run b [] s

-- `str::lines`: without the line feeds, a carriage return before one, and a last empty line
unfoldable pub drop_return : Bytes → Bytes
drop_return [] = []
drop_return (c ∷ s) = let rest = drop_return s in if is_empty s && eqb c 13 then [] else c ∷ rest

unfoldable pub lines_of : List Bytes → List Bytes
unfolding drop_return
lines_of [] = []
lines_of (last ∷ []) = if is_empty last then [] else last ∷ []
lines_of (l ∷ m ∷ more) = drop_return l ∷ lines_of (m ∷ more)

unfoldable pub lines : Bytes → List Bytes
unfolding split lines_of
lines s = lines_of (split 10 s)

-- `split_whitespace` on ASCII text: the runs of other bytes
words_run : Bytes → Bytes → List Bytes
words_run run [] = if is_empty run then [] else run ∷ []
words_run run (c ∷ s) =
    let fresh = words_run [] s in
    let longer = words_run (run ++ c ∷ []) s in
    if is_ascii_whitespace c || eqb c 11
    then (if is_empty run then fresh else run ∷ fresh)
    else longer

unfoldable pub split_whitespace : Bytes → List Bytes
unfolding words_run
split_whitespace s = words_run [] s

-- `to_ascii_lowercase` of a byte, and the comparison that ignores case
lower : ℕ → ℕ
lower c = if leb 65 c && leb c 90 then c + 32 else c

unfoldable pub eq_ignore_ascii_case : Bytes → Bytes → Bool
unfolding lower
eq_ignore_ascii_case s t = bytes_eq (map lower s) (map lower t)
