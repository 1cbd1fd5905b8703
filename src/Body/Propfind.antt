-- ===== src/Body/Propfind.antt =====
-- What `parse_propfind_request` answers to a body without a `prop` element.
use rshs.App.{XmlEvent, xml_empty, xml_end, xml_error, xml_other, xml_start, xml_text}
use rshs.Body.{
  ParseError, Parsed, PropfindScan, extract_element_ns, invalid_body, malformed_xml, parse_error,
  parse_propfind_request, parsed, propfind_arm, propfind_element, propfind_result, propfind_scan,
  ◌>>=◌,
}
use rshs.Common.{
  Bool, Bytes, List, [], any, arith, bytes_key, codes, false, or-eq-false, refl, true, ◌==◌, ◌||◌,
  ◌∷◌, ◌≡◌,
}
use rshs.FilePath.{path_key}
use rshs.Map.{nat_key}

-- an element, and one of a local name
unfoldable pub is_element : XmlEvent → Bool
is_element (xml_start name local attrs) = true
is_element (xml_empty name local attrs) = true
is_element _ = false

abbrev named_so : Bytes → Parsed (Bytes × Bytes) → Bool
named_so wanted (parsed (ns, local)) = local == wanted
named_so wanted (parse_error e) = false

unfoldable pub element_named : (Bytes → Bytes) → Bytes → XmlEvent → Bool
unfolding extract_element_ns
element_named lossy wanted (xml_start name local attrs) =
    named_so wanted (extract_element_ns lossy name attrs)
element_named lossy wanted (xml_empty name local attrs) =
    named_so wanted (extract_element_ns lossy name attrs)
element_named lossy wanted _ = false

-- Nothing was found that makes an answer.
abbrev waiting : Bool → Bool → PropfindScan
waiting propname some_element = record {
  props = [];
  in_prop = false;
  found_allprop = false;
  found_propname = propname;
  seen_element = some_element;
}

propfind_arm-waiting :
    (propname some_element : Bool) (ns local : Bytes)
    → (local == codes "prop") ≡ false
    → (local == codes "allprop") ≡ false
    → propfind_arm (waiting propname some_element) (ns, local)
      ≡ waiting (propname || local == codes "propname") true
unfolding propfind_arm
propfind_arm-waiting propname some_element ns local no_prop no_all = ground arith

module _ (lossy : Bytes → Bytes) where
  abbrev IsRefused : Bool → Bool → List XmlEvent → Type 0
  IsRefused propname some_element events =
      (e : ParseError) × ((propfind_scan lossy (waiting propname some_element) events
          >>= propfind_result)
        ≡ parse_error e)

  -- One element, for what the rest of the events gives.
  element-waiting :
      (propname some_element : Bool) (r : Parsed (Bytes × Bytes)) (events : List XmlEvent)
      → ((p : Bool)
          → any (element_named lossy (codes "prop")) events ≡ false
          → any (element_named lossy (codes "allprop")) events ≡ false
          → IsRefused p true events)
      → (named_so (codes "prop") r || any (element_named lossy (codes "prop")) events) ≡ false
      → (named_so (codes "allprop") r || any (element_named lossy (codes "allprop")) events) ≡ false
      → (e : ParseError) × ((r
            >>= (λ element. parsed (propfind_arm (waiting propname some_element) element))
            >>= (λ seen'. propfind_scan lossy seen' events)
            >>= propfind_result)
          ≡ parse_error e)
  element-waiting propname some_element (parse_error e) events rest no_prop no_all = (e, refl)
  element-waiting propname some_element (parsed (ns, local)) events rest no_prop no_all =
      let (not_prop, no_prop') = or-eq-false _ _ no_prop in
      let (not_all, no_all') = or-eq-false _ _ no_all in
      rw (propfind_arm-waiting propname some_element ns local not_prop not_all)
        (rest (propname || local == codes "propname") no_prop' no_all')

  propfind_scan-waiting :
      (propname some_element : Bool) (events : List XmlEvent)
      → any (element_named lossy (codes "prop")) events ≡ false
      → any (element_named lossy (codes "allprop")) events ≡ false
      → (some_element || any is_element events) ≡ true
      → IsRefused propname some_element events
  unfolding propfind_scan propfind_result any element_named is_element propfind_element
  propfind_scan-waiting propname true [] no_prop no_all h = (invalid_body, refl)
  propfind_scan-waiting propname false [] no_prop no_all h = cc
  propfind_scan-waiting propname some_element (xml_error ∷ events) no_prop no_all h =
      (malformed_xml, refl)
  propfind_scan-waiting propname some_element (xml_other ∷ events) no_prop no_all h =
      propfind_scan-waiting propname some_element events no_prop no_all h
  propfind_scan-waiting propname some_element (xml_text t ∷ events) no_prop no_all h =
      propfind_scan-waiting propname some_element events no_prop no_all h
  propfind_scan-waiting propname some_element (xml_end t ∷ events) no_prop no_all h =
      propfind_scan-waiting propname some_element events no_prop no_all h
  propfind_scan-waiting propname some_element (xml_start name l attrs ∷ events) no_prop no_all h =
      element-waiting propname some_element (extract_element_ns lossy name attrs) events
        (λ p a b. propfind_scan-waiting p true events a b refl) no_prop no_all
  propfind_scan-waiting propname some_element (xml_empty name l attrs ∷ events) no_prop no_all h =
      element-waiting propname some_element (extract_element_ns lossy name attrs) events
        (λ p a b. propfind_scan-waiting p true events a b refl) no_prop no_all

  -- A body with an element, but with none named `prop` or `allprop`, is refused with an error: also a
  -- body that asks for `propname`.
  pub parse_propfind_request-refused :
      (events : List XmlEvent)
      → any is_element events ≡ true
      → any (element_named lossy (codes "prop")) events ≡ false
      → any (element_named lossy (codes "allprop")) events ≡ false
      → (e : ParseError) × (parse_propfind_request lossy events ≡ parse_error e)
  unfolding parse_propfind_request
  parse_propfind_request-refused events some_element no_prop no_all =
      propfind_scan-waiting false false events no_prop no_all some_element
