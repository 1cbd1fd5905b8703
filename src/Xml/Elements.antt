-- ===== src/Xml/Elements.antt =====
-- The elements that `build_multistatus` of src/webdav/xml.rs writes for the properties.
use rshs.Chain.{◌>>=◌}
use rshs.Common.{
  AnyOf-append, Bool, Bool-cases, Bytes, IsIn, List, Option-cases, [], any, ap, arith, bytes_eq,
  bytes_eq_iff, bytes_key, codes, false, inl, inr, is_empty, none, not, or_value, refl, some, true,
  ◌&&◌, ◌++◌, ◌==◌, ◌∷◌, ◌≡◌,
}
use rshs.FilePath.{path_key}
use rshs.Map.{HashMap, get, nat_key}
use rshs.Time.Format.{format_rfc1123}
use rshs.Xml.{
  Document, XmlOut, clark_parts, each, end_tag, is_applicable, open_tag, start_tag, supported_props,
  text_node, write_prop_text,
}
use rshs.Xml.Multistatus.{PropEntry, contains_name, live_prop, live_props}
use rshs.Xml.Sorted.{contains_name_cons}

-- The properties that only a file has.
abbrev pub file_props : List Bytes
file_props = codes "getcontentlength" ∷ codes "getcontenttype" ∷ codes "getetag" ∷ []

abbrev pub lacks : PropEntry → Bytes → Bool
lacks entry name = entry.is_dir && contains_name file_props name

pub some_inj : {A : Type 0} {a b : A} → some a ≡ some b → a ≡ b
some_inj {a = a} p = ap (λ o. or_value o a) p

first_tag : {tag : XmlOut} {rest one : Document} → some (tag ∷ rest) ≡ some one → IsIn tag one
first_tag p = rw (← some_inj p) (inl refl)

pub IsIn-contains : (names : List Bytes) (n : Bytes) → contains_name names n ≡ true → IsIn n names
unfolding contains_name any
IsIn-contains [] n h = cc
IsIn-contains (m ∷ names) n h = elim (contains_name_cons m names n h) [
  | inl same ↦ inl same
  | inr later ↦ inr (IsIn-contains names n later)
]

pub IsIn-each :
    {A : Type 0} (write : A → Document) (as' : List A) (a : A) (x : XmlOut)
    → IsIn a as'
    → IsIn x (write a)
    → IsIn x (each write as')
unfolding each
IsIn-each write [] a x i h = absurd i
IsIn-each write (b ∷ as') a x (inl same) h = (AnyOf-append _ (write b) _).1 (inl (rw same h))
IsIn-each write (b ∷ as') a x (inr i) h =
    (AnyOf-append _ (write b) _).1 (inr (IsIn-each write as' a x i h))

pub get-IsIn :
    (props : HashMap Bytes Bytes) (k v : Bytes) → get props k ≡ some v → IsIn (k, v) props
unfolding get
get-IsIn [] k v h = cc
get-IsIn ((k', v') ∷ props) k v h = elim (Bool-cases (k' == k)) [
  | inl same ↦
      let e : k' ≡ k = (bytes_eq_iff k' k).0 same in
      let value : v' ≡ v = some_inj (rw same at h) in inl (rw (e, value) refl)
  | inr other ↦ inr (get-IsIn props k v (rw other at h))
]

-- A live property begins with its tag.
live_prop-tag :
    (entry : PropEntry) (name : Bytes) (one : Document)
    → IsIn name supported_props
    → live_prop entry name ≡ some one
    → IsIn (open_tag (codes "D:" ++ name)) one
unfolding live_prop write_prop_text bytes_eq
live_prop-tag entry name one (inl e) h = rw (← e) (first_tag (rw (← e) at h))
live_prop-tag entry name one (inr (inl e)) h = rw (← e) (first_tag (rw (← e) at h))
live_prop-tag entry name one (inr (inr (inl e))) h = rw (← e) (first_tag (rw (← e) at h))
live_prop-tag entry name one (inr (inr (inr (inl e)))) h = rw (← e) (first_tag (rw (← e) at h))
live_prop-tag entry name one (inr (inr (inr (inr (inl e))))) h =
    rw (← e) (elim (Option-cases (format_rfc1123 entry.modified)) [
      | inl out ↦ let panic : none ≡ some one = rw (out, ◌>>=◌) at (rw (← e) at h) in absurd cc
      | inr (date, dated) ↦ first_tag (rw (dated, ◌>>=◌) at (rw (← e) at h))
    ])
live_prop-tag entry name one (inr (inr (inr (inr (inr (inl e)))))) h =
    rw (← e) (first_tag (rw (← e) at h))
live_prop-tag entry name one (inr (inr (inr (inr (inr (inr (inl e))))))) h =
    rw (← e) (first_tag (rw (← e) at h))
live_prop-tag entry name one (inr (inr (inr (inr (inr (inr (inr (inl e)))))))) h =
    rw (← e) (first_tag (rw (← e) at h))
live_prop-tag entry name one (inr (inr (inr (inr (inr (inr (inr (inr e)))))))) h = absurd e

-- The elements of a supported name are among those of all names.
pub live_props-tag :
    (entry : PropEntry) (props : List Bytes) (name : Bytes) (els : Document)
    → IsIn name props
    → IsIn name supported_props
    → live_props entry props ≡ some els
    → IsIn (open_tag (codes "D:" ++ name)) els
unfolding live_props
live_props-tag entry [] name els i known h = absurd i
live_props-tag entry (m ∷ props) name els i known h = elim (Option-cases (live_prop entry m)) [
  | inl out ↦ let panic : none ≡ some els = rw (out, live_props) at h in absurd cc
  | inr (one, first) ↦ elim (Option-cases (live_props entry props)) [
    | inl out ↦ let panic : none ≡ some els = rw (first, out, live_props) at h in absurd cc
    | inr (more, rest) ↦
        let whole : one ++ more ≡ els = some_inj (rw (first, rest, live_props) at h) in
        rw (← whole) (
          (AnyOf-append _ one more).1 (elim i [
            | inl same ↦
                let at_name : live_prop entry name ≡ some one = rw (← same) first in
                inl (live_prop-tag entry name one known at_name)
            | inr later ↦ inr (live_props-tag entry props name more later known rest)
          ]))
  ]
]

bytes_eq_comm : (a b : Bytes) → bytes_eq a b ≡ bytes_eq b a
unfolding bytes_eq
bytes_eq_comm [] [] = refl
bytes_eq_comm [] (c ∷ b) = refl
bytes_eq_comm (c ∷ a) [] = refl
bytes_eq_comm (c ∷ a) (d ∷ b) = ground (arith, bytes_eq_comm a b)

-- Whether a live property suits the resource.
pub suits-lacks :
    (entry : PropEntry) (name : Bytes) → is_applicable name entry.is_dir ≡ not (lacks entry name)
unfolding is_applicable contains_name any
suits-lacks entry name =
    rw
      (
        bytes_eq_comm name (codes "getcontentlength"),
        bytes_eq_comm name (codes "getcontenttype"),
        bytes_eq_comm name (codes "getetag"),
      )
      (ground arith)

pub nonempty :
    (names : List Bytes) (n : Bytes) → contains_name names n ≡ true → is_empty names ≡ false
unfolding contains_name any
nonempty [] n h = cc
nonempty (m ∷ names) n h = refl

unfoldable pub dead_element : Bytes × Bytes → Document
dead_element (key, value) =
    let (local, attrs) = clark_parts key in
    start_tag local attrs ∷ text_node value ∷ end_tag local ∷ []

pub member-nonempty :
    (props : HashMap Bytes Bytes) (p : Bytes × Bytes) → IsIn p props → is_empty props ≡ false
member-nonempty [] p i = absurd i
member-nonempty (q ∷ props) p i = refl
