-- ===== src/Body.antt =====
-- The bodies of PROPFIND and PROPPATCH: the parsers of src/webdav/mod.rs, over what the XML reader
-- reads.
pub mod Propfind
pub mod CharRefs
pub mod Proppatch
use rshs.App.{XmlEvent, xml_empty, xml_end, xml_error, xml_other, xml_start, xml_text}
use rshs.Common.{
  Bool, Bytes, List, Option, [], bytes_key, codes, false, if◌then◌else◌, inl, inr, is_empty, none,
  not, refl, some, true, ◌&&◌, ◌++◌, ◌==◌, ◌||◌, ◌∷◌, ◌≡◌, ◌⊎◌,
}
use rshs.FilePath.{path_key}
use rshs.Headers.Clark.{clark_key, split_once}
use rshs.Map.{nat_key}

pub record PropPatchAction : Type 0 where
  pub name : Bytes
  pub value : Option Bytes

pub data PropRequest : Type 0 where
  all_prop prop_name : PropRequest
  named : List Bytes → PropRequest

pub data ParseError : Type 0 where
  invalid_body malformed_xml : ParseError

pub data Parsed (A : Type 0) : Type 0 where
  parsed : A → Parsed A
  parse_error : ParseError → Parsed A

pub Parsed-cases :
    {A : Type 0} (r : Parsed A)
    → ((a : A) × (r ≡ parsed a)) ⊎ ((e : ParseError) × (r ≡ parse_error e))
Parsed-cases (parsed a) = inl (a, refl)
Parsed-cases (parse_error e) = inr (e, refl)

infixl 5 ◌>>=◌
abbrev pub ◌>>=◌ : {A B : Type 0} → Parsed A → (A → Parsed B) → Parsed B
parsed a >>= f = f a
parse_error e >>= f = parse_error e

abbrev pub XmlAttributes : Type 0
XmlAttributes = List (Bytes × Bytes)

-- The value of the first attribute whose key, as text, is `key`.
unfoldable attribute : (Bytes → Bytes) → Bytes → XmlAttributes → Option Bytes
attribute text key [] = none
attribute text key ((k, v) ∷ attrs) =
    let rest = attribute text key attrs in if text k == key then some v else rest

-- the namespace of a prefix, which must be no empty one; that of no prefix may be empty
prefix_ns : (Bytes → Bytes) → Bytes → XmlAttributes → Parsed Bytes
unfolding attribute
prefix_ns lossy p attrs = elim (attribute lossy (codes "xmlns:" ++ lossy p) attrs) [
  | none ↦ parsed []
  | some v ↦ if is_empty (lossy v) then parse_error invalid_body else parsed (lossy v)
]

default_ns : (Bytes → Bytes) → XmlAttributes → Bytes
unfolding attribute
default_ns lossy attrs = elim (attribute (λ k. k) (codes "xmlns") attrs) [
  | none ↦ []
  | some v ↦ lossy v
]

-- Namespace and local name of an element; `lossy` is `String::from_utf8_lossy`.
unfoldable pub extract_element_ns : (Bytes → Bytes) → Bytes → XmlAttributes → Parsed (Bytes × Bytes)
unfolding prefix_ns default_ns split_once
extract_element_ns lossy name attrs = elim (split_once b':' name) [
  | none ↦ parsed (default_ns lossy attrs, lossy name)
  | some (p, local) ↦ elim (prefix_ns lossy p attrs) [
    | parsed ns ↦ parsed (ns, lossy local)
    | parse_error e ↦ parse_error e
  ]
]

-- What the loop of `parse_propfind_request` keeps.
pub record PropfindScan : Type 0 where
  pub props : List Bytes
  pub in_prop : Bool
  pub found_allprop : Bool
  pub found_propname : Bool
  pub seen_element : Bool

-- an element that starts, or an empty one: the code has one arm for both
unfoldable pub propfind_arm : PropfindScan → Bytes × Bytes → PropfindScan
unfolding clark_key
propfind_arm seen (ns, local) =
    let seen' = record seen { seen_element = true } in
    if local == codes "prop"
    then record seen' { in_prop = true }
    else if local == codes "allprop"
    then record seen' { found_allprop = true }
    else if local == codes "propname"
    then record seen' { found_propname = true }
    else if seen.in_prop
    then record seen' { props = seen.props ++ clark_key ns local ∷ [] }
    else seen'

unfoldable pub propfind_element :
    (Bytes → Bytes) → Bytes → XmlAttributes → PropfindScan → Parsed PropfindScan
unfolding extract_element_ns propfind_arm
propfind_element lossy name attrs seen = do
  element ← extract_element_ns lossy name attrs
  parsed (propfind_arm seen element)

unfoldable pub propfind_scan : (Bytes → Bytes) → PropfindScan → List XmlEvent → Parsed PropfindScan
unfolding propfind_element
propfind_scan lossy seen [] = parsed seen
propfind_scan lossy seen (xml_error ∷ events) = parse_error malformed_xml
propfind_scan lossy seen (xml_other ∷ events) = propfind_scan lossy seen events
propfind_scan lossy seen (xml_text t ∷ events) = propfind_scan lossy seen events
propfind_scan lossy seen (xml_end local ∷ events) =
    propfind_scan lossy
      (record seen { in_prop = seen.in_prop && not (lossy local == codes "prop") }) events
propfind_scan lossy seen (xml_start name local attrs ∷ events) =
    propfind_element lossy name attrs seen >>= λ seen'. propfind_scan lossy seen' events
propfind_scan lossy seen (xml_empty name local attrs ∷ events) =
    propfind_element lossy name attrs seen >>= λ seen'. propfind_scan lossy seen' events

abbrev pub no_props : PropfindScan
no_props = record {
  props = [];
  in_prop = false;
  found_allprop = false;
  found_propname = false;
  seen_element = false;
}

-- the answer of what was seen
unfoldable pub propfind_result : PropfindScan → Parsed PropRequest
propfind_result seen =
    if seen.found_allprop || (is_empty seen.props && not seen.seen_element)
    then parsed all_prop
    else if is_empty seen.props && seen.seen_element
    then parse_error invalid_body
    else if seen.found_propname
    then parsed prop_name
    else parsed (named seen.props)

unfoldable pub parse_propfind_request : (Bytes → Bytes) → List XmlEvent → Parsed PropRequest
unfolding propfind_scan propfind_result
parse_propfind_request lossy events = do
  seen ← propfind_scan lossy no_props events
  propfind_result seen
