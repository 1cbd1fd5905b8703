-- ===== src/Body/Proppatch.antt =====
-- `parse_proppatch_request` of src/webdav/mod.rs: the loop over what the XML reader reads.
use rshs.App.{XmlEvent, xml_empty, xml_end, xml_error, xml_other, xml_start, xml_text}
use rshs.Body.{
  Parsed, PropPatchAction, XmlAttributes, extract_element_ns, invalid_body, malformed_xml,
  parse_error, parsed, ◌>>=◌,
}
use rshs.Body.CharRefs.{decode_xml_char_refs}
use rshs.Common.{
  Bool, Bytes, List, Option, [], bytes_key, codes, false, if◌then◌else◌, is_empty, none, not, some,
  true, ◌&&◌, ◌++◌, ◌==◌, ◌∷◌,
}
use rshs.FilePath.{path_key}
use rshs.Headers.Clark.{clark_key}
use rshs.Map.{nat_key}

pub record ProppatchScan : Type 0 where
  pub actions : List PropPatchAction
  pub in_set : Bool
  pub in_remove : Bool
  pub current_name : Option Bytes

abbrev push_action : Bytes → Option Bytes → ProppatchScan → ProppatchScan
push_action name value seen = record seen {
  actions = seen.actions ++ record { name = name; value = value } ∷ [];
}

unfoldable pub proppatch_start :
    (Bytes → Bytes) → Bytes → XmlAttributes → ProppatchScan → Parsed ProppatchScan
unfolding extract_element_ns clark_key
proppatch_start lossy name attrs seen = do
  element ← extract_element_ns lossy name attrs
  let ns = element.0
  let local = element.1
  parsed (
      if local == codes "set"
      then record seen { in_set = true }
      else if local == codes "remove"
      then record seen { in_remove = true }
      else if local == codes "prop"
      then seen
      else if seen.in_set
      then record seen { current_name = some (clark_key ns local) }
      else if seen.in_remove
      then push_action (clark_key ns local) none seen
      else seen)

unfoldable pub proppatch_empty :
    (Bytes → Bytes) → Bytes → XmlAttributes → ProppatchScan → Parsed ProppatchScan
unfolding extract_element_ns clark_key
proppatch_empty lossy name attrs seen = do
  element ← extract_element_ns lossy name attrs
  let ns = element.0
  let local = element.1
  parsed (
      if seen.in_remove && not (local == codes "prop")
      then push_action (clark_key ns local) none seen
      else if seen.in_set && not (local == codes "prop")
      then push_action (clark_key ns local) (some []) seen
      else seen)

-- a value for the property that was started, if one was in a `set`
abbrev take_name : Bytes → ProppatchScan → ProppatchScan
take_name value seen = elim seen.current_name [
  | none ↦ seen
  | some name ↦
      if seen.in_set
      then record (push_action name (some value) seen) { current_name = none }
      else seen
]

unfoldable pub proppatch_text : (Bytes → Bytes) → Bytes → ProppatchScan → ProppatchScan
unfolding decode_xml_char_refs
proppatch_text lossy t seen = take_name (decode_xml_char_refs (lossy t)) seen

unfoldable pub proppatch_end : (Bytes → Bytes) → Bytes → ProppatchScan → ProppatchScan
proppatch_end lossy local seen =
    if lossy local == codes "set"
    then record seen { in_set = false }
    else if lossy local == codes "remove"
    then record seen { in_remove = false }
    else take_name [] seen

unfoldable pub proppatch_scan :
    (Bytes → Bytes) → ProppatchScan → List XmlEvent → Parsed ProppatchScan
unfolding proppatch_start proppatch_empty proppatch_text proppatch_end
proppatch_scan lossy seen [] = parsed seen
proppatch_scan lossy seen (xml_error ∷ events) = parse_error malformed_xml
proppatch_scan lossy seen (xml_other ∷ events) = proppatch_scan lossy seen events
proppatch_scan lossy seen (xml_text t ∷ events) =
    proppatch_scan lossy (proppatch_text lossy t seen) events
proppatch_scan lossy seen (xml_end local ∷ events) =
    proppatch_scan lossy (proppatch_end lossy local seen) events
proppatch_scan lossy seen (xml_start name local attrs ∷ events) =
    proppatch_start lossy name attrs seen >>= λ seen'. proppatch_scan lossy seen' events
proppatch_scan lossy seen (xml_empty name local attrs ∷ events) =
    proppatch_empty lossy name attrs seen >>= λ seen'. proppatch_scan lossy seen' events

abbrev pub no_actions : ProppatchScan
no_actions = record { actions = []; in_set = false; in_remove = false; current_name = none }

-- `read` is the XML reader.
unfoldable pub parse_proppatch_request :
    (Bytes → Bytes) → (Bytes → List XmlEvent) → Bytes → Parsed (List PropPatchAction)
unfolding proppatch_scan decode_xml_char_refs
parse_proppatch_request lossy read xml = do
  seen ← proppatch_scan lossy no_actions (read (decode_xml_char_refs (lossy xml)))
  if is_empty seen.actions then parse_error invalid_body else parsed seen.actions
