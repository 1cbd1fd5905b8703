-- ===== src/FilePath.antt =====
-- `std::path::Path` as the list of its components, which is what its equality, `starts_with`,
-- `parent`, `file_name` and `join` look at.
use rshs.Common.{
  Bool, Bytes, List, Option, PartialEq, [], arith, bytes_eq, bytes_eq_iff, bytes_key, codes, eqb,
  false, if◌then◌else◌, is_empty, none, some, true, ◌&&◌, ◌++◌, ◌==◌, ◌||◌, ◌↔◌, ◌∷◌, ◌≡◌,
}

pub data Component : Type 0 where
  root_dir cur_dir parent_dir : Component
  normal : Bytes → Component

abbrev pub FilePath : Type 0
FilePath = List Component

unfoldable pub component_eq : Component → Component → Bool
component_eq root_dir root_dir = true
component_eq cur_dir cur_dir = true
component_eq parent_dir parent_dir = true
component_eq (normal a) (normal b) = bytes_eq a b
component_eq _ _ = false

pub component_eq_iff : (a b : Component) → (component_eq a b ≡ true) ↔ (a ≡ b)
unfolding component_eq
component_eq_iff root_dir root_dir = ground arith
component_eq_iff cur_dir cur_dir = ground arith
component_eq_iff parent_dir parent_dir = ground arith
component_eq_iff (normal a) (normal b) = ground (arith, bytes_eq_iff a b)
component_eq_iff _ _ = ground arith

unfoldable pub path_eq : FilePath → FilePath → Bool
unfolding component_eq
path_eq [] [] = true
path_eq (a ∷ p) (b ∷ q) = component_eq a b && path_eq p q
path_eq _ _ = false

pub path_eq_iff : (p q : FilePath) → (path_eq p q ≡ true) ↔ (p ≡ q)
unfolding path_eq
path_eq_iff [] [] = ground arith
path_eq_iff (a ∷ p) (b ∷ q) = ground (arith, component_eq_iff a b, path_eq_iff p q)
path_eq_iff [] (b ∷ q) = ground arith
path_eq_iff (a ∷ p) [] = ground arith

instance abbrev pub path_key : PartialEq FilePath
path_key = record { eq = path_eq; eq_iff = path_eq_iff }

-- `Path::starts_with`: by whole components
unfoldable pub starts_with : FilePath → FilePath → Bool
unfolding component_eq
starts_with p [] = true
starts_with [] (b ∷ q) = false
starts_with (a ∷ p) (b ∷ q) = component_eq a b && starts_with p q

-- `Path::parent`
unfoldable pub parent : FilePath → Option FilePath
parent [] = none
parent (root_dir ∷ []) = none
parent (c ∷ []) = some []
parent (c ∷ d ∷ p) = elim (parent (d ∷ p)) [ none ↦ some (c ∷ []) | some q ↦ some (c ∷ q) ]

-- `Path::file_name`: the last component, if it is a name
unfoldable pub file_name : FilePath → Option Bytes
file_name [] = none
file_name (normal s ∷ []) = some s
file_name (_ ∷ []) = none
file_name (c ∷ d ∷ p) = file_name (d ∷ p)

abbrev drop_cur_dir : FilePath → FilePath
drop_cur_dir (cur_dir ∷ p) = p
drop_cur_dir p = p

-- `Path::join`: an absolute path replaces; a leading "." vanishes behind another component
unfoldable pub join : FilePath → FilePath → FilePath
join p (root_dir ∷ q) = root_dir ∷ q
join [] q = q
join p q = p ++ drop_cur_dir q

-- The segments of a text between slashes, as `split('/')` gives them.
unfoldable pub split_from : Bytes → Bytes → List Bytes
split_from cur [] = cur ∷ []
split_from cur (c ∷ s) =
    let closed = split_from [] s in
    let longer = split_from (cur ++ c ∷ []) s in if eqb c b'/' then cur ∷ closed else longer

unfoldable pub split_slash : Bytes → List Bytes
unfolding split_from
split_slash s = split_from [] s

-- One segment behind the first: empty ones and "." are not components.
unfoldable pub component_of : Bytes → List Component
component_of s =
    if is_empty s || s == codes "."
    then []
    else if s == codes ".."
    then parent_dir ∷ []
    else normal s ∷ []

unfoldable pub components_of : List Bytes → FilePath
unfolding component_of
components_of [] = []
components_of (s ∷ rest) = component_of s ++ components_of rest

unfoldable pub relative_path : List Bytes → FilePath
unfolding components_of
relative_path [] = []
relative_path (first ∷ rest) =
    if first == codes "." then cur_dir ∷ components_of rest else components_of (first ∷ rest)

-- `Path::components` of a text
unfoldable pub parse_path : Bytes → FilePath
unfolding relative_path split_slash
parse_path [] = []
parse_path (c ∷ s) =
    if eqb c b'/'
    then root_dir ∷ components_of (split_slash s)
    else relative_path (split_slash (c ∷ s))

-- The bytes of a component.
abbrev pub component_bytes : Component → Bytes
component_bytes root_dir = []
component_bytes cur_dir = codes "."
component_bytes parent_dir = codes ".."
component_bytes (normal s) = s

-- Each component behind a slash.
unfoldable pub slashed : FilePath → Bytes
slashed [] = []
slashed (c ∷ p) = b'/' ∷ (component_bytes c ++ slashed p)

-- `as_os_str().as_encoded_bytes()` of a path with no redundant separator, as `canonicalize` and
-- `join` of a name to its result give
unfoldable pub as_encoded_bytes : FilePath → Bytes
unfolding slashed
as_encoded_bytes [] = []
as_encoded_bytes (root_dir ∷ []) = b'/' ∷ []
as_encoded_bytes (root_dir ∷ p) = slashed p
as_encoded_bytes (c ∷ p) = component_bytes c ++ slashed p
