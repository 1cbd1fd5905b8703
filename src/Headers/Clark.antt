-- ===== src/Headers/Clark.antt =====
-- Clark notation of property names: `clark_key` and `parse_clark` of src/webdav/mod.rs.
use rshs.Common.{
  All, Bytes, Option, [], arith, eqb, eqb_iff, false, if◌then◌else◌, none, refl, some, true, ℕ,
  ◌++◌, ◌∷◌, ◌≡◌,
}

unfoldable pub clark_key : Bytes → Bytes → Bytes
clark_key [] name = name
clark_key (c ∷ ns) name = b'{' ∷ ((c ∷ ns) ++ b'}' ∷ name)

-- `split_once` at one byte
unfoldable pub split_once : ℕ → Bytes → Option (Bytes × Bytes)
split_once b [] = none
split_once b (c ∷ s) = elim (eqb c b) [
  | true ↦ some ([], s)
  | false ↦ elim (split_once b s) [ none ↦ none | some (l, r) ↦ some (c ∷ l, r) ]
]

unfoldable pub parse_clark : Bytes → Option (Bytes × Bytes)
unfolding split_once
parse_clark [] = some ([], [])
parse_clark (c ∷ s) = if eqb c b'{' then split_once b'}' s else some ([], c ∷ s)

-- The byte does not occur.
abbrev pub IsFreeOf : ℕ → Bytes → Type 0
IsFreeOf b s = All (λ c. eqb c b ≡ false) s

pub split_once-append :
    (b : ℕ) (l r : Bytes) → IsFreeOf b l → split_once b (l ++ b ∷ r) ≡ some (l, r)
unfolding split_once
split_once-append b [] r h = ground (arith, eqb_iff b b)
split_once-append b (c ∷ l) r (other, h) = ground (arith, other, split_once-append b l r h)

-- A name that a client may send without a namespace.
abbrev pub IsPlainName : Bytes → Type 0
IsPlainName [] = Unit
IsPlainName (c ∷ s) = eqb c b'{' ≡ false

-- Reading a key back gives the namespace and the name that it was built from. The namespace has no
-- "}", and a name without a namespace does not start with "{".
pub parse_clark-clark_key :
    (ns name : Bytes)
    → IsFreeOf b'}' ns
    → IsPlainName name
    → parse_clark (clark_key ns name) ≡ some (ns, name)
unfolding parse_clark clark_key
parse_clark-clark_key [] [] free plain = refl
parse_clark-clark_key [] (c ∷ s) free plain = rw plain
parse_clark-clark_key (c ∷ ns) name free plain = split_once-append b'}' (c ∷ ns) name free
