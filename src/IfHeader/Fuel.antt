-- ===== src/IfHeader/Fuel.antt =====
-- The parser of the `If` header ends on every text: the length of the text is fuel enough, and more
-- fuel changes nothing.
use rshs.Common.{
  Bool, Bool-cases, Bytes, List, Option-cases, [], ap, arith, codes, eqb, inl, inr, length, refl,
  some, strip_prefix, suc, zero, ℕ, ◌++◌, ◌<◌, ◌∷◌, ◌≡◌, ◌≤◌,
}
use rshs.Headers.Clark.{split_once}
use rshs.IfHeader.{IfCondition, IfList, state_token}
use rshs.IfHeader.Parse.{
  ends_not, list_loop, list_step, lists_step, opens_list, parse_lists, read_condition, read_list,
  read_not, read_tag, skip_ws, tagged_loop, tagged_step, untagged, with_list,
}
use rshs.Xml.Tags.{closes}

length-skip_ws : (s : Bytes) → length (skip_ws s) ≤ length s
unfolding skip_ws
length-skip_ws [] = omega arith
length-skip_ws (c ∷ s) = ground (arith, length-skip_ws s)

length-split_once : (b : ℕ) (s l r : Bytes) → split_once b s ≡ some (l, r) → length r < length s
unfolding split_once
length-split_once b [] l r h = cc
length-split_once b (c ∷ s) l r h = elim (Bool-cases (eqb c b)) [
  | inl here ↦ ground arith
  | inr later ↦ elim (Option-cases (split_once b s)) [
    | inl missing ↦ ground arith
    | inr ((l', r'), found) ↦ ground (arith, length-split_once b s l' r' found)
  ]
]

length-strip_prefix : (p s r : Bytes) → strip_prefix p s ≡ some r → length r ≤ length s
unfolding strip_prefix
length-strip_prefix [] s r h = ground arith
length-strip_prefix (b ∷ p) [] r h = cc
length-strip_prefix (b ∷ p) (c ∷ s) r h = ground (arith, length-strip_prefix p s r)

length-read_not : (s : Bytes) → length (read_not s).1 ≤ length s
unfolding read_not
length-read_not s = elim (Option-cases (strip_prefix (codes "Not") s)) [
  | inl missing ↦ rw (missing, read_not) (omega arith)
  | inr (after, found) ↦
      let shorter = length-strip_prefix (codes "Not") s after found in
      let blank = length-skip_ws after in
      elim (Bool-cases (ends_not after)) [
        | inl ends ↦ rw (found, read_not) (rw ends (omega arith))
        | inr other ↦ rw (found, read_not) (rw other (omega arith))
      ]
]

-- Rounds that never lengthen the text.
abbrev Shortens : (Bytes → List IfCondition × Bytes) → Type 0
Shortens again = (s : Bytes) → length (again s).1 ≤ length s

module _ (again : Bytes → List IfCondition × Bytes) (h : Shortens again) where
  length-read_condition : (n : Bool × Bytes) → length (read_condition again n).1 ≤ length n.1
  unfolding read_condition
  length-read_condition (negate, []) = h []
  length-read_condition (negate, c ∷ s) = elim (Bool-cases (eqb c b'<')) [
    | inr other ↦ rw (other, read_condition) (omega (arith, h s))
    | inl opens ↦ elim (Option-cases (split_once b'>' s)) [
      | inl missing ↦ ground (arith)
      | inr ((token, rest), found) ↦
          ground (arith, h rest, length-split_once b'>' s token rest found)
    ]
  ]

  length-list_step : (s : Bytes) → length (list_step again s).1 ≤ length s
  unfolding list_step
  length-list_step [] = omega arith
  length-list_step (c ∷ s) = elim (Bool-cases (eqb c b')')) [
    | inl closes ↦ rw (closes, list_step) (omega arith)
    | inr other ↦
        rw (other, list_step)
          (omega (arith, length-read_condition (read_not (c ∷ s)), length-read_not (c ∷ s)))
  ]

length-list_loop : (fuel : ℕ) (s : Bytes) → length (list_loop fuel s).1 ≤ length s
unfolding list_loop
length-list_loop zero s = omega arith
length-list_loop (suc fuel) s =
    omega (
      arith,
      length-list_step (list_loop fuel) (length-list_loop fuel) (skip_ws s),
      length-skip_ws s,
    )

pub length-read_list : (s : Bytes) → length (read_list s).1 ≤ length s
unfolding read_list
length-read_list s = length-list_loop (suc (length s)) s

-- Two continuations that agree on every text shorter than this one.
abbrev AgreeBelow {ℓ} : {A : Type ℓ} → ℕ → (Bytes → A) → (Bytes → A) → Type ℓ
AgreeBelow n a b = (u : Bytes) → length u < n → a u ≡ b u

module _ (a b : Bytes → List IfCondition × Bytes) where
  read_condition-eq :
      (n : Bool × Bytes) (size : ℕ)
      → AgreeBelow size a b
      → length n.1 ≤ size
      → 0 < size
      → read_condition a n ≡ read_condition b n
  unfolding read_condition
  read_condition-eq (negate, []) size h m positive = h [] positive
  read_condition-eq (negate, c ∷ s) size h m positive = elim (Bool-cases (eqb c b'<')) [
    | inr other ↦ rw (other, read_condition) (h s (omega arith))
    | inl opens ↦ elim (Option-cases (split_once b'>' s)) [
      | inl missing ↦ ground arith
      | inr ((token, rest), found) ↦
          let shorter = length-split_once b'>' s token rest found in
          let same = h rest (omega arith) in ground (arith, same)
    ]
  ]

  list_step-eq : (t : Bytes) → AgreeBelow (length t) a b → list_step a t ≡ list_step b t
  unfolding list_step
  list_step-eq [] h = refl
  list_step-eq (c ∷ s) h = elim (Bool-cases (eqb c b')')) [
    | inl closes ↦ rw (closes, list_step) refl
    | inr other ↦
        rw (other, list_step)
          (read_condition-eq (read_not (c ∷ s)) (length (c ∷ s)) h (length-read_not (c ∷ s))
            (omega arith))
  ]

length-tagged_loop : (f : ℕ) (tag s : Bytes) → length (tagged_loop f tag s).1 ≤ length s
unfolding tagged_loop tagged_step
length-tagged_loop zero tag s = omega arith
length-tagged_loop (suc f) tag [] = omega arith
length-tagged_loop (suc f) tag (c ∷ s) = elim (Bool-cases (eqb c b'(')) [
  | inr other ↦ rw (other, tagged_step) (omega arith)
  | inl opens ↦
      rw (opens, tagged_step)
        (omega (
          arith,
          length-tagged_loop f tag (skip_ws (read_list s).1),
          length-skip_ws (read_list s).1,
          length-read_list s,
        ))
]

tagged_step-eq :
    (a b : Bytes → List IfList × Bytes) (tag s : Bytes)
    → AgreeBelow (length s) a b
    → tagged_step a tag s ≡ tagged_step b tag s
unfolding tagged_step
tagged_step-eq a b tag [] h = refl
tagged_step-eq a b tag (c ∷ s) h = elim (Bool-cases (eqb c b'(')) [
  | inr other ↦ rw (other, tagged_step) refl
  | inl opens ↦
      let shorter = length-skip_ws (read_list s).1 in
      let read = length-read_list s in
      rw (opens, tagged_step)
        (ap (with_list (record { resource_tag = some tag; conditions = (read_list s).0 }))
          (h (skip_ws (read_list s).1) (omega (arith, shorter, read))))
]

module _ (a b : Bytes → List IfList) where
  read_tag-eq :
      (tag s : Bytes) (size : ℕ)
      → AgreeBelow size a b
      → length s < size
      → read_tag a tag s ≡ read_tag b tag s
  unfolding read_tag
  read_tag-eq tag s size h m = elim (Bool-cases (opens_list s)) [
    | inl opens ↦
        let shorter = length-tagged_loop (suc (length s)) tag s in
        rw (opens, read_tag)
          (ap (λ l. (tagged_loop (suc (length s)) tag s).0 ++ l)
            (h (tagged_loop (suc (length s)) tag s).1 (omega (arith, shorter))))
    | inr lone ↦ rw (lone, read_tag) (ap (λ l. untagged (state_token tag ∷ []) ∷ l) (h s m))
  ]

  lists_step-eq : (t : Bytes) → AgreeBelow (length t) a b → lists_step a t ≡ lists_step b t
  unfolding lists_step
  lists_step-eq [] h = refl
  lists_step-eq (c ∷ s) h = elim (Bool-cases (eqb c b'<')) [
    | inl angle ↦ elim (Option-cases (split_once b'>' s)) [
      | inl missing ↦ ground arith
      | inr ((tag, rest), found) ↦
          let shorter = length-split_once b'>' s tag rest found in
          let same =
            read_tag-eq tag (skip_ws rest) (length (c ∷ s)) h
              (omega (arith, length-skip_ws rest)) in
          ground (arith, same)
    ]
    | inr other ↦ elim (Bool-cases (eqb c b'(')) [
      | inl opens ↦
          let same =
            h (skip_ws (read_list s).1)
              (omega (arith, length-skip_ws (read_list s).1, length-read_list s)) in
          ground (arith, same)
      | inr skip ↦ let same = h s (omega arith) in ground (arith, same)
    ]
  ]

-- At most `fuel` rounds of a loop, and then what `out` gives: the loops of the parser as the source
-- has them, with an answer of one's own where a round more would be needed.
module _ {A : Type 0} (step : (Bytes → A) → Bytes → A) (out : Bytes → A) where
  pub rounds : ℕ → Bytes → A
  rounds zero s = out s
  rounds (suc fuel) s = step (rounds fuel) s

list_rounds :
    (out : Bytes → List IfCondition × Bytes) (f g : ℕ) (s : Bytes)
    → length s < f
    → length s < g
    → rounds (λ again t. list_step again (skip_ws t)) out f s ≡ list_loop g s
unfolding list_loop rounds
list_rounds out zero g s m k = elim m [ ]
list_rounds out (suc f) zero s m k = elim k [ ]
list_rounds out (suc f) (suc g) s m k = list_step-eq _ (list_loop g) (skip_ws s) (λ u shorter.
    list_rounds out f g u (omega (arith, length-skip_ws s)) (omega (arith, length-skip_ws s)))

tagged_rounds :
    (out : Bytes → List IfList × Bytes) (f g : ℕ) (tag s : Bytes)
    → length s < f
    → length s < g
    → rounds (λ again t. tagged_step again tag t) out f s ≡ tagged_loop g tag s
unfolding tagged_loop rounds
tagged_rounds out zero g tag s m k = elim m [ ]
tagged_rounds out (suc f) zero tag s m k = elim k [ ]
tagged_rounds out (suc f) (suc g) tag s m k =
    tagged_step-eq _ (tagged_loop g tag) tag s
      (λ u shorter. tagged_rounds out f g tag u (omega arith) (omega arith))

lists_rounds :
    (out : Bytes → List IfList) (f g : ℕ) (s : Bytes)
    → length s < f
    → length s < g
    → rounds (λ again t. lists_step again (skip_ws t)) out f s ≡ parse_lists g s
unfolding parse_lists rounds
lists_rounds out zero g s m k = elim m [ ]
lists_rounds out (suc f) zero s m k = elim k [ ]
lists_rounds out (suc f) (suc g) s m k = lists_step-eq _ (parse_lists g) (skip_ws s) (λ u shorter.
    lists_rounds out f g u (omega (arith, length-skip_ws s)) (omega (arith, length-skip_ws s)))

-- The loops of the parser end on every text: after more rounds than the text has bytes, the loop of a
-- list, the loop over the lists of a tag and the main loop have given their result and asked for no
-- round more, since it is the same whatever a round more would give; and it is the result of the
-- functions that the parser is modelled with.
pub parse_fuel :
    (fuel : ℕ) (tag s : Bytes) (out_list : Bytes → List IfCondition × Bytes)
    (out_tagged : Bytes → List IfList × Bytes) (out_lists : Bytes → List IfList)
    → length s < fuel
    → (rounds (λ again t. list_step again (skip_ws t)) out_list fuel s ≡ read_list s)
      × (rounds (λ again t. tagged_step again tag t) out_tagged fuel s
          ≡ tagged_loop (suc (length s)) tag s)
      × (rounds (λ again t. lists_step again (skip_ws t)) out_lists fuel s
          ≡ parse_lists (suc (length s)) s)
unfolding read_list
parse_fuel fuel tag s out_list out_tagged out_lists m = (
  list_rounds out_list fuel (suc (length s)) s m (omega arith),
  tagged_rounds out_tagged fuel (suc (length s)) tag s m (omega arith),
  lists_rounds out_lists fuel (suc (length s)) s m (omega arith),
)
