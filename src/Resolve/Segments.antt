-- ===== src/Resolve/Segments.antt =====
-- The segments of a checked request path are file names.
use rshs.Common.{
  All, All-append, Bool, Bool-cases, Bytes, List, [], any, any-append, ap, append_assoc, arith, eqb,
  false, inl, inr, is_empty, refl, sym, trim_start_matches, true, ℕ, ◌&&◌, ◌++◌, ◌∙◌, ◌∷◌, ◌≡◌,
}
use rshs.FilePath.{
  FilePath, component_of, components_of, normal, parse_path, relative_path, split_from, split_slash,
}
use rshs.LockStore.Ancestor.{IsName}
use rshs.Resolve.{ends_with_slash, is_dots}

module _ {ℓ} {A : Type ℓ} where
  any-append_false :
      (p : A → Bool) (xs ys : List A)
      → any p (xs ++ ys) ≡ false
      → (any p xs ≡ false) × (any p ys ≡ false)
  any-append_false p xs ys h = let e = any-append p xs ys in ground (arith, e)

-- A text that does not end with a slash ends in a segment that is not empty.
pub split_from-last :
    (cur s : Bytes)
    → (is_empty cur && is_empty s) ≡ false
    → ends_with_slash s ≡ false
    → (firsts : List Bytes) × (last : Bytes) × (split_from cur s ≡ firsts ++ last ∷ [])
      × (is_empty last ≡ false)
unfolding split_from ends_with_slash
split_from-last cur [] h e = ([], cur, refl, ground arith)
split_from-last cur (c ∷ s) h e = elim (Bool-cases (eqb c b'/')) [
  | inl slash ↦
      let (firsts, last, split, full) = split_from-last [] s (more slash s e) (no_end s e) in
      (cur ∷ firsts, last, rw slash (ap (λ l. cur ∷ l) split), full)
  | inr other ↦
      let (firsts, last, split, full) =
        split_from-last (cur ++ c ∷ []) s (longer cur) (no_end s e) in
      (firsts, last, rw other split, full)
]
  where
    more :
        eqb c b'/' ≡ true
        → (t : Bytes) → ends_with_slash (c ∷ t) ≡ false
        → (is_empty {A = ℕ} [] && is_empty t) ≡ false
    more slash [] f = cc
    more slash (d ∷ t) f = refl

    no_end : (t : Bytes) → ends_with_slash (c ∷ t) ≡ false → ends_with_slash t ≡ false
    no_end [] f = refl
    no_end (d ∷ t) f = f

    longer : (l : Bytes) → (is_empty (l ++ c ∷ []) && is_empty s) ≡ false
    longer [] = refl
    longer (d ∷ l) = refl

-- Segments that are neither "." nor ".." give names only.
pub components_of-IsName :
    (segments : List Bytes) → any is_dots segments ≡ false → All IsName (components_of segments)
unfolding components_of any
components_of-IsName [] h = tt
components_of-IsName (s ∷ rest) h =
    All-append IsName (component_of s) (components_of rest) (named s (ground arith))
      (components_of-IsName rest (ground arith))
  where
    named : (t : Bytes) → is_dots t ≡ false → All IsName (component_of t)
    named [] f = tt
    named (c ∷ t) f = ground arith

components_of-append :
    (xs ys : List Bytes) → components_of (xs ++ ys) ≡ components_of xs ++ components_of ys
unfolding components_of
components_of-append [] ys = refl
components_of-append (s ∷ xs) ys =
    ap (λ l. component_of s ++ l) (components_of-append xs ys)
    ∙ sym (append_assoc (component_of s) (components_of xs) (components_of ys))

-- A last segment that is a name is the last component.
components_of-last :
    (firsts : List Bytes) (last : Bytes)
    → is_empty last ≡ false
    → is_dots last ≡ false
    → components_of (firsts ++ last ∷ []) ≡ components_of firsts ++ normal last ∷ []
components_of-last firsts last full name =
    components_of-append firsts (last ∷ [])
    ∙ ap (λ l. components_of firsts ++ l) (one last full name)
  where
    one :
        (s : Bytes)
        → is_empty s ≡ false
        → is_dots s ≡ false
        → components_of (s ∷ []) ≡ normal s ∷ []
    one s f g = unfold components_of in ground arith

relative_path-eq :
    (segments : List Bytes)
    → any is_dots segments ≡ false
    → relative_path segments ≡ components_of segments
unfolding relative_path any components_of
relative_path-eq [] h = refl
relative_path-eq (s ∷ rest) h = ground arith

abbrev pub IsRelativeText : Bytes → Type 0
IsRelativeText [] = Unit
IsRelativeText (c ∷ s) = eqb c b'/' ≡ false

pub trim_start_matches-IsRelativeText : (s : Bytes) → IsRelativeText (trim_start_matches b'/' s)
unfolding trim_start_matches
trim_start_matches-IsRelativeText [] = tt
trim_start_matches-IsRelativeText (c ∷ s) = elim (Bool-cases (eqb c b'/')) [
  | inl slash ↦ rw slash (trim_start_matches-IsRelativeText s)
  | inr other ↦ rw other other
]

parse_path-relative :
    (t : Bytes)
    → IsRelativeText t
    → is_empty t ≡ false
    → parse_path t ≡ relative_path (split_slash t)
unfolding parse_path
parse_path-relative [] r h = cc
parse_path-relative (c ∷ s) r h = rw r refl

-- The names that a checked text stands for: at least one, and no "." or "..".
pub record IsNamed (p : FilePath) : Type 0 where
  pub folders : FilePath
  pub name : Bytes
  pub split : p ≡ folders ++ normal name ∷ []
  pub named : All IsName p

pub parse_path-IsNamed :
    (t : Bytes)
    → IsRelativeText t
    → is_empty t ≡ false
    → ends_with_slash t ≡ false
    → any is_dots (split_slash t) ≡ false
    → IsNamed (parse_path t)
unfolding split_slash any
parse_path-IsNamed t r full no_end plain =
    let (firsts, last, segments, last_full) = split_from-last [] t (ground arith) no_end in
    let whole : parse_path t ≡ components_of (split_from [] t) =
      parse_path-relative t r full ∙ relative_path-eq (split_from [] t) plain in
    let no_dots = any-append_false is_dots firsts (last ∷ []) (rw segments at plain) in
    record {
      folders = components_of firsts;
      name = last;
      split =
          whole
          ∙ ap components_of segments
          ∙ components_of-last firsts last last_full (ground (arith, no_dots.1));
      named = rw whole (components_of-IsName (split_from [] t) plain);
    }
