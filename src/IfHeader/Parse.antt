-- ===== src/IfHeader/Parse.antt =====
-- `parse_if_header` of src/webdav/ls.rs. A position in the text is the rest of the text from there
-- on. The text of a header is visible ASCII, so the `from_utf8` of a token never fails.
use rshs.Common.{
  Bool, Bytes, List, [], codes, eqb, false, if◌then◌else◌, is_ascii_whitespace, length, none, some,
  strip_prefix, suc, true, zero, ℕ, ◌++◌, ◌||◌, ◌∷◌,
}
use rshs.Headers.Clark.{split_once}
use rshs.Http.{HeaderMap, header_text}
use rshs.IfHeader.{IfCondition, IfList, negated, state_token}

unfoldable pub skip_ws : Bytes → Bytes
skip_ws [] = []
skip_ws (c ∷ s) = let rest = skip_ws s in if is_ascii_whitespace c then rest else c ∷ s

-- what stands behind "Not" where it negates
abbrev pub ends_not : Bytes → Bool
ends_not [] = true
ends_not (c ∷ s) = is_ascii_whitespace c || eqb c b'<' || eqb c b'('

unfoldable pub read_not : Bytes → Bool × Bytes
unfolding skip_ws
read_not s = elim (strip_prefix (codes "Not") s) [
  | none ↦ (false, s)
  | some after ↦ if ends_not after then (true, skip_ws after) else (false, s)
]

abbrev condition_of : Bool → Bytes → IfCondition
condition_of negate token = if negate then negated (state_token token) else state_token token

abbrev put : IfCondition → List IfCondition × Bytes → List IfCondition × Bytes
put c (cs, rest) = (c ∷ cs, rest)

-- the end of a round of `read_list`; `again` is the next round. A "<" without ">" ends the list.
unfoldable pub read_condition :
    (Bytes → List IfCondition × Bytes) → Bool × Bytes → List IfCondition × Bytes
read_condition again (negate, []) = again []
read_condition again (negate, c ∷ s) = elim (eqb c b'<') [
  | true ↦ elim (split_once b'>' s) [
    | none ↦ ([], c ∷ s)
    | some (token, rest) ↦ put (condition_of negate token) (again rest)
  ]
  | false ↦ again s
]

unfoldable pub list_step : (Bytes → List IfCondition × Bytes) → Bytes → List IfCondition × Bytes
unfolding read_condition
list_step again [] = ([], [])
list_step again (c ∷ s) = elim (eqb c b')') [
  | true ↦ ([], s)
  | false ↦ read_condition again (read_not (c ∷ s))
]

-- The loop of `read_list`; each round takes a byte, so the length of the text is fuel enough.
unfoldable pub list_loop : ℕ → Bytes → List IfCondition × Bytes
list_loop zero s = ([], s)
list_loop (suc fuel) s = list_step (list_loop fuel) (skip_ws s)

-- behind the opening parenthesis
unfoldable pub read_list : Bytes → List IfCondition × Bytes
unfolding list_loop
read_list s = list_loop (suc (length s)) s

abbrev pub with_list : IfList → List IfList × Bytes → List IfList × Bytes
with_list l (ls, rest) = (l ∷ ls, rest)

-- A round of the loop over the lists behind a resource tag.
unfoldable pub tagged_step : (Bytes → List IfList × Bytes) → Bytes → Bytes → List IfList × Bytes
tagged_step again tag [] = ([], [])
tagged_step again tag (c ∷ s) = elim (eqb c b'(') [
  | true ↦
      with_list (record { resource_tag = some tag; conditions = (read_list s).0 })
        (again (skip_ws (read_list s).1))
  | false ↦ ([], c ∷ s)
]

unfoldable pub tagged_loop : ℕ → Bytes → Bytes → List IfList × Bytes
unfolding tagged_step
tagged_loop zero tag s = ([], s)
tagged_loop (suc fuel) tag s = tagged_step (tagged_loop fuel tag) tag s

abbrev pub opens_list : Bytes → Bool
opens_list [] = false
opens_list (c ∷ s) = eqb c b'('

abbrev pub untagged : List IfCondition → IfList
untagged conditions = record { resource_tag = none; conditions = conditions }

-- a "<" at the top level: a resource tag, or a lone token
unfoldable pub read_tag : (Bytes → List IfList) → Bytes → Bytes → List IfList
read_tag again tag s = elim (opens_list s) [
  | true ↦ (tagged_loop (suc (length s)) tag s).0 ++ again (tagged_loop (suc (length s)) tag s).1
  | false ↦ untagged (state_token tag ∷ []) ∷ again s
]

unfoldable pub lists_step : (Bytes → List IfList) → Bytes → List IfList
lists_step again [] = []
lists_step again (c ∷ s) = elim (eqb c b'<') [
  | true ↦ elim (split_once b'>' s) [
    | none ↦ []
    | some (tag, rest) ↦ read_tag again tag (skip_ws rest)
  ]
  | false ↦ elim (eqb c b'(') [
    | true ↦ untagged (read_list s).0 ∷ again (skip_ws (read_list s).1)
    | false ↦ again s
  ]
]

unfoldable pub parse_lists : ℕ → Bytes → List IfList
unfolding lists_step
parse_lists zero s = []
parse_lists (suc fuel) s = lists_step (parse_lists fuel) (skip_ws s)

unfoldable pub parse_if_header : HeaderMap → List IfList
unfolding parse_lists
parse_if_header headers = elim (header_text headers (codes "if")) [
  | none ↦ []
  | some value ↦ parse_lists (suc (length value)) value
]
