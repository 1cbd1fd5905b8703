-- ===== src/LockStore/Ancestor.antt =====
-- `is_ancestor_of`: the comparison of bytes decides the relation on components.
use rshs.Common.{
  All, Bytes, List, [], and-eq-true_iff, ap, append-nil, append_assoc, arith, bytes_eq, false,
  false≢true, length, length-append, refl, some, sym, true, ℕ, ◌++◌, ◌↔◌, ◌∙◌, ◌∷◌, ◌≡◌,
}
use rshs.FilePath.{
  Component, FilePath, component_bytes, component_eq, component_eq_iff, cur_dir, normal, parent_dir,
  root_dir, slashed, starts_with,
}
use rshs.LockStore.{get_byte, is_ancestor_of}

-- A canonical path: absolute, and below the root every component is a name.
abbrev pub IsName : Component → Type 0
IsName (normal (c ∷ s)) = Unit
IsName (normal []) = ⊥
IsName root_dir = ⊥
IsName cur_dir = ⊥
IsName parent_dir = ⊥

abbrev pub IsCanonical : FilePath → Type 0
IsCanonical [] = ⊥
IsCanonical (root_dir ∷ p) = All IsName p
IsCanonical (cur_dir ∷ p) = ⊥
IsCanonical (parent_dir ∷ p) = ⊥
IsCanonical (normal s ∷ p) = ⊥

-- The target is the ancestor with at least one more component.
abbrev pub IsBelow : FilePath → FilePath → Type 0
IsBelow target ancestor = (c : Component) × (rest : FilePath) × (target ≡ ancestor ++ c ∷ rest)

pub starts_with_sound :
    (p q : FilePath) → starts_with p q ≡ true → (rest : FilePath) × (p ≡ q ++ rest)
unfolding starts_with
starts_with_sound p [] h = (p, refl)
starts_with_sound [] (b ∷ q) h = cc
starts_with_sound (a ∷ p) (b ∷ q) h =
    let (same, later) = (and-eq-true_iff (component_eq a b) (starts_with p q)).0 h in
    let (rest, e) = starts_with_sound p q later in (rest, cc ((component_eq_iff a b).0 same, e))

pub starts_with-append : (q rest : FilePath) → starts_with (q ++ rest) q ≡ true
unfolding starts_with
starts_with-append [] rest = refl
starts_with-append (b ∷ q) rest = rw ((component_eq_iff b b).1 refl) (starts_with-append q rest)

slashed-append : (p q : FilePath) → slashed (p ++ q) ≡ slashed p ++ slashed q
unfolding slashed
slashed-append [] q = refl
slashed-append (c ∷ p) q =
    ap (λ l. b'/' ∷ l)
      (ap (λ l. component_bytes c ++ l) (slashed-append p q)
        ∙ sym (append_assoc (component_bytes c) (slashed p) (slashed q)))

get_byte-append : (s rest : Bytes) (c : ℕ) → get_byte (s ++ c ∷ rest) (length s) ≡ some c
unfolding get_byte
get_byte-append [] rest c = refl
get_byte-append (d ∷ s) rest c = get_byte-append s rest c

-- The bytes of a longer canonical path are those of the shorter one, a slash, and more.
below_root :
    (c : Component) (rest : FilePath)
    → IsName c
    → is_ancestor_of (root_dir ∷ []) (root_dir ∷ c ∷ rest) ≡ true
unfolding is_ancestor_of starts_with bytes_eq
below_root (normal (b ∷ s)) rest name = ground arith
below_root root_dir rest name = elim name [ ]
below_root cur_dir rest name = elim name [ ]
below_root parent_dir rest name = elim name [ ]
below_root (normal []) rest name = elim name [ ]

below_name :
    (d : Component) (p : FilePath) (c : Component) (rest : FilePath)
    → is_ancestor_of (root_dir ∷ d ∷ p) (root_dir ∷ d ∷ (p ++ c ∷ rest)) ≡ true
unfolding is_ancestor_of slashed
below_name d p c rest =
    let an = slashed (d ∷ p) in
    let tail = component_bytes c ++ slashed rest in
    let split : slashed ((d ∷ p) ++ c ∷ rest) ≡ an ++ b'/' ∷ tail =
      slashed-append (d ∷ p) (c ∷ rest) in
    let longer = length-append an (b'/' ∷ tail) in
    ground (
      arith,
      split,
      longer,
      get_byte-append an tail b'/',
      starts_with-append (root_dir ∷ d ∷ p) (c ∷ rest),
    )

is_ancestor_of_complete :
    (a : FilePath) (c : Component) (rest : FilePath)
    → IsCanonical a
    → IsName c
    → is_ancestor_of a (a ++ c ∷ rest) ≡ true
is_ancestor_of_complete (root_dir ∷ []) c rest _ name = below_root c rest name
is_ancestor_of_complete (root_dir ∷ d ∷ p) c rest _ name = below_name d p c rest
is_ancestor_of_complete [] c rest h _ = elim h [ ]
is_ancestor_of_complete (cur_dir ∷ p) c rest h _ = elim h [ ]
is_ancestor_of_complete (parent_dir ∷ p) c rest h _ = elim h [ ]
is_ancestor_of_complete (normal s ∷ p) c rest h _ = elim h [ ]

pub is_ancestor_of_self : (a : FilePath) → is_ancestor_of a a ≡ false
unfolding is_ancestor_of
is_ancestor_of_self a = ground arith

pub is_ancestor_of_sound : (a t : FilePath) → is_ancestor_of a t ≡ true → IsBelow t a
unfolding is_ancestor_of
is_ancestor_of_sound a t h = let (rest, e) = starts_with_sound t a (ground arith) in below rest e
  where
    below : (rest : FilePath) → t ≡ a ++ rest → IsBelow t a
    below [] e =
        absurd (elim (false≢true (sym (is_ancestor_of_self a) ∙ (rw (e ∙ append-nil a) at h))) [ ])
    below (c ∷ rest) e = (c, rest, e)

All-drop {ℓ} : {A : Type ℓ} (P : A → Type 0) (xs ys : List A) → All P (xs ++ ys) → All P ys
All-drop P [] ys h = h
All-drop P (x ∷ xs) ys (_, h) = All-drop P xs ys h

IsName-next :
    (a : FilePath) (c : Component) (rest : FilePath)
    → IsCanonical a
    → IsCanonical (a ++ c ∷ rest)
    → IsName c
IsName-next (root_dir ∷ p) c rest _ h = (All-drop IsName p (c ∷ rest) h).0
IsName-next [] c rest h _ = elim h [ ]
IsName-next (cur_dir ∷ p) c rest h _ = elim h [ ]
IsName-next (parent_dir ∷ p) c rest h _ = elim h [ ]
IsName-next (normal s ∷ p) c rest h _ = elim h [ ]

-- On canonical paths the byte comparison holds exactly when the target is the ancestor with at
-- least one more component: "/a" is no ancestor of "/ab", and no path is its own ancestor.
pub is_ancestor_of_iff :
    (a t : FilePath) → IsCanonical a → IsCanonical t → (is_ancestor_of a t ≡ true) ↔ IsBelow t a
is_ancestor_of_iff a t ca ct = (
  is_ancestor_of_sound a t,
  λ (c, rest, e). rw e (is_ancestor_of_complete a c rest ca (IsName-next a c rest ca (rw e at ct))),
)
