-- ===== src/IfHeader/RoundTrip.antt =====
-- Writing an `If` header and parsing it gives the header back.
use rshs.Common.{
  All, Bytes, List, Option, [], arith, codes, false, length, length-append, none, refl, some,
  strip_prefix, suc, zero, ℕ, ◌++◌, ◌<◌, ◌∷◌, ◌≡◌, ◌≢◌, ◌≤◌,
}
use rshs.Headers.Clark.{IsFreeOf, split_once-append}
use rshs.Http.{HeaderMap, header_text}
use rshs.IfHeader.{IfCondition, IfList, negated, state_token}
use rshs.IfHeader.Parse.{
  list_loop, list_step, opens_list, parse_if_header, parse_lists, read_condition, read_list,
  read_not, read_tag, skip_ws, tagged_loop, tagged_step, untagged,
}

abbrev pub print_condition : IfCondition → Bytes → Bytes
print_condition (state_token t) rest = b'<' ∷ (t ++ b'>' ∷ rest)
print_condition (negated c) rest = codes "Not" ++ print_condition c rest

abbrev pub print_conditions : List IfCondition → Bytes → Bytes
print_conditions [] rest = b')' ∷ rest
print_conditions (c ∷ cs) rest = print_condition c (print_conditions cs rest)

abbrev print_tag : Option Bytes → Bytes → Bytes
print_tag none rest = rest
print_tag (some tag) rest = b'<' ∷ (tag ++ b'>' ∷ rest)

abbrev pub print_lists : List IfList → Bytes
print_lists [] = []
print_lists (l ∷ ls) =
    print_tag l.resource_tag (b'(' ∷ print_conditions l.conditions (print_lists ls))

-- A condition of the grammar: a token without ">", perhaps negated once.
abbrev pub IsWritable : IfCondition → Type 0
IsWritable (state_token t) = IsFreeOf b'>' t
IsWritable (negated (state_token t)) = IsFreeOf b'>' t
IsWritable (negated (negated c)) = ⊥

-- The rest of the text is in reach of the fuel.
list_loop-print :
    (fuel : ℕ) (cs : List IfCondition) (rest : Bytes)
    → All IsWritable cs
    → length cs < fuel
    → list_loop fuel (print_conditions cs rest) ≡ (cs, rest)
unfolding list_loop list_step read_condition read_not skip_ws strip_prefix
list_loop-print zero cs rest h m = elim m [ ]
list_loop-print (suc fuel) [] rest h m = refl
list_loop-print (suc fuel) (state_token t ∷ cs) rest (free, h) m = ground (
  arith,
  split_once-append b'>' t (print_conditions cs rest) free,
  list_loop-print fuel cs rest h,
)
list_loop-print (suc fuel) (negated (state_token t) ∷ cs) rest (free, h) m = ground (
  arith,
  split_once-append b'>' t (print_conditions cs rest) free,
  list_loop-print fuel cs rest h,
)
list_loop-print (suc fuel) (negated (negated c) ∷ cs) rest (no_such, h) m = elim no_such [ ]

length-print_condition :
    (c : IfCondition) (rest : Bytes) → length rest < length (print_condition c rest)
length-print_condition (state_token t) rest = omega (arith, length-append t (b'>' ∷ rest))
length-print_condition (negated c) rest = omega (arith, length-print_condition c rest)

length-print_conditions :
    (cs : List IfCondition) (rest : Bytes) → length cs < length (print_conditions cs rest)
length-print_conditions [] rest = omega arith
length-print_conditions (c ∷ cs) rest =
    omega
      (arith, length-print_conditions cs rest, length-print_condition c (print_conditions cs rest))

-- A printed list is read back, with the text behind it.
pub read_list-print :
    (cs : List IfCondition) (rest : Bytes)
    → All IsWritable cs
    → read_list (print_conditions cs rest) ≡ (cs, rest)
unfolding read_list
read_list-print cs rest h =
    list_loop-print (suc (length (print_conditions cs rest))) cs rest h
      (omega (arith, length-print_conditions cs rest))

-- A list behind a tagged one has a tag of its own: the grammar gives it the same tag otherwise.
abbrev NextTagged : List IfList → Type 0
NextTagged [] = Unit
NextTagged (l ∷ ls) = l.resource_tag ≢ none

abbrev TagIsWritable : Option Bytes → List IfList → Type 0
TagIsWritable none ls = Unit
TagIsWritable (some tag) ls = IsFreeOf b'>' tag × NextTagged ls

-- A header of the grammar.
abbrev pub HeaderIsWritable : List IfList → Type 0
HeaderIsWritable [] = Unit
HeaderIsWritable (l ∷ ls) =
    All IsWritable l.conditions × TagIsWritable l.resource_tag ls × HeaderIsWritable ls

skip_ws-print_tag :
    (tag : Option Bytes) (rest : Bytes)
    → skip_ws (print_tag tag (b'(' ∷ rest)) ≡ print_tag tag (b'(' ∷ rest)
unfolding skip_ws
skip_ws-print_tag none rest = refl
skip_ws-print_tag (some tag) rest = refl

skip_ws-print : (ls : List IfList) → skip_ws (print_lists ls) ≡ print_lists ls
unfolding skip_ws
skip_ws-print [] = refl
skip_ws-print (l ∷ ls) = skip_ws-print_tag l.resource_tag _

next_opens : (ls : List IfList) → NextTagged ls → opens_list (print_lists ls) ≡ false
next_opens [] h = refl
next_opens (l ∷ ls) h = by_tag l.resource_tag h
  where
    by_tag :
        (tag : Option Bytes)
        → tag ≢ none
        → opens_list (print_tag tag (b'(' ∷ print_conditions l.conditions (print_lists ls))) ≡ false
    by_tag none f = absurd (f refl)
    by_tag (some tag) f = refl

tagged_loop-stop :
    (fuel : ℕ) (tag s : Bytes) → opens_list s ≡ false → tagged_loop (suc fuel) tag s ≡ ([], s)
unfolding tagged_loop tagged_step
tagged_loop-stop fuel tag [] h = refl
tagged_loop-stop fuel tag (c ∷ s) h = ground (arith)

module _ (fuel : ℕ) (cs : List IfCondition) (ls : List IfList) (good : All IsWritable cs)
    (ih : parse_lists fuel (print_lists ls) ≡ ls) where
  one_untagged : parse_lists (suc fuel) (print_lists (untagged cs ∷ ls)) ≡ untagged cs ∷ ls
  unfolding parse_lists skip_ws
  one_untagged = rw (read_list-print cs (print_lists ls) good) (rw (skip_ws-print ls) (rw ih))

  one_tagged :
      (tag : Bytes)
      → IsFreeOf b'>' tag
      → NextTagged ls
      → parse_lists
          (suc fuel)
          (print_lists (record { resource_tag = some tag; conditions = cs } ∷ ls))
        ≡ record { resource_tag = some tag; conditions = cs } ∷ ls
  unfolding parse_lists skip_ws read_tag tagged_loop tagged_step
  one_tagged tag free tagged =
      let inner = print_conditions cs (print_lists ls) in
      let one = read_list-print cs (print_lists ls) good in
      let blank = skip_ws-print ls in
      let stop = tagged_loop-stop (length inner) tag (print_lists ls) (next_opens ls tagged) in
      ground (arith, split_once-append b'>' tag (b'(' ∷ inner) free, one, blank, stop, ih)

  one_list :
      (tag : Option Bytes)
      → TagIsWritable tag ls
      → parse_lists (suc fuel) (print_lists (record { resource_tag = tag; conditions = cs } ∷ ls))
        ≡ record { resource_tag = tag; conditions = cs } ∷ ls
  one_list none h = one_untagged
  one_list (some tag) (free, tagged) = one_tagged tag free tagged

length-print_rest :
    (cs : List IfCondition) (rest : Bytes) → length rest < length (print_conditions cs rest)
length-print_rest [] rest = omega arith
length-print_rest (c ∷ cs) rest =
    omega (arith, length-print_rest cs rest, length-print_condition c (print_conditions cs rest))

length-print_tag : (tag : Option Bytes) (rest : Bytes) → length rest ≤ length (print_tag tag rest)
length-print_tag none rest = omega arith
length-print_tag (some tag) rest = omega (arith, length-append tag (b'>' ∷ rest))

length-print_lists : (ls : List IfList) → length ls ≤ length (print_lists ls)
length-print_lists [] = omega arith
length-print_lists (l ∷ ls) =
    let inner = print_conditions l.conditions (print_lists ls) in
    omega (
      arith,
      length-print_lists ls,
      length-print_rest l.conditions (print_lists ls),
      length-print_tag l.resource_tag (b'(' ∷ inner),
    )

lists-print :
    (fuel : ℕ) (ls : List IfList)
    → HeaderIsWritable ls
    → length ls < fuel
    → parse_lists fuel (print_lists ls) ≡ ls
lists-print zero ls h m = elim m [ ]
lists-print (suc fuel) [] h m = unfold parse_lists skip_ws in refl
lists-print (suc fuel) (l ∷ ls) (good, tag_good, h) m =
    one_list fuel l.conditions ls good (lists-print fuel ls h (omega arith)) l.resource_tag tag_good

-- Writing a header of the grammar and parsing the text gives the same lists: tags, tokens and
-- negations, in order.
pub parse_if_header-print :
    (headers : HeaderMap) (ls : List IfList)
    → HeaderIsWritable ls
    → header_text headers (codes "if") ≡ some (print_lists ls)
    → parse_if_header headers ≡ ls
unfolding parse_if_header
parse_if_header-print headers ls h e =
    rw (e, parse_if_header)
      (lists-print (suc (length (print_lists ls))) ls h (omega (arith, length-print_lists ls)))
