-- ===== src/Xml/Whole.antt =====
-- The documents of src/webdav/xml.rs as a whole: `build_multistatus` ends with a balanced document.
use rshs.Body.{PropRequest, all_prop, named, prop_name}
use rshs.Chain.{◌>>=◌}
use rshs.Common.{
  All, Bool, Bytes, List, [], bytes_eq, false, if◌then◌else◌, is_empty, refl, some, true, ◌++◌, ◌∙◌,
  ◌∷◌, ◌≡◌,
}
use rshs.Time.Dated.{IsDated, format_rfc1123-some}
use rshs.Time.Format.{format_rfc1123}
use rshs.Xml.{
  Document, dav, decl, end_tag, namespace_dav, open_tag, start_tag, supported_props, text_node,
  write_dead_propstat, write_propstat_404,
}
use rshs.Xml.Balanced.{
  HasBalanced, balanced, write_dead_propstat-IsBalanced, write_propname-IsBalanced,
  write_propstat_200-HasBalanced, write_propstat_404-IsBalanced,
}
use rshs.Xml.Multistatus.{
  PropEntry, build_multistatus, dead_of, write_propstat_200, write_response, write_responses,
}
use rshs.Xml.Tags.{IsBalanced, append-IsBalanced, closes, frame-IsBalanced, nil-IsBalanced, part}

optional-IsBalanced :
    {doc : Document} (absent : Bool) → IsBalanced doc → IsBalanced (if absent then [] else doc)
optional-IsBalanced true b = nil-IsBalanced
optional-IsBalanced false b = b

-- The element of one resource.
response-IsBalanced :
    (href : Bytes) {content : Document}
    → IsBalanced content
    → IsBalanced (
        open_tag (dav "response")
          ∷ open_tag (dav "href")
          ∷ text_node href
          ∷ end_tag (dav "href")
          ∷ content
        ++ end_tag (dav "response") ∷ [])
unfolding closes bytes_eq
response-IsBalanced href b = record { stays = λ opened. part b (dav "response" ∷ opened) _ ∙ refl }

-- The answer to a request that is not for the names.
module _ (entry : PropEntry) (request : PropRequest) (date : Bytes)
    (dated : format_rfc1123 entry.modified ≡ some date) where
  found_props-HasBalanced :
      (applicable : List Bytes)
      → HasBalanced (if is_empty applicable then some [] else write_propstat_200 entry applicable)
  found_props-HasBalanced [] = balanced nil-IsBalanced
  found_props-HasBalanced (name ∷ applicable) =
      write_propstat_200-HasBalanced entry (name ∷ applicable) date dated

  sections-HasBalanced :
      (applicable unfound : List Bytes)
      → HasBalanced (do
        found_props ← if is_empty applicable then some [] else write_propstat_200 entry applicable
        let missing_props = if is_empty unfound then [] else write_propstat_404 unfound
        let dead_props =
            if is_empty (dead_of entry) then [] else write_dead_propstat (dead_of entry)
        some (
            open_tag (dav "response")
              ∷ open_tag (dav "href")
              ∷ text_node entry.href
              ∷ end_tag (dav "href")
              ∷ found_props
            ++ missing_props
            ++ dead_props
            ++ end_tag (dav "response") ∷ []))
  sections-HasBalanced applicable unfound =
      let found = found_props-HasBalanced applicable in
      rw found.result_eq (
        balanced (
          response-IsBalanced entry.href (
            append-IsBalanced
              (append-IsBalanced found.is_balanced
                (optional-IsBalanced (is_empty unfound) (write_propstat_404-IsBalanced unfound)))
              (optional-IsBalanced (is_empty (dead_of entry))
                (write_dead_propstat-IsBalanced (dead_of entry))))))

write_response-HasBalanced :
    (entry : PropEntry) (request : PropRequest)
    → IsDated entry.modified
    → HasBalanced (write_response entry request)
unfolding write_response
write_response-HasBalanced entry prop_name h =
    balanced (response-IsBalanced entry.href (write_propname-IsBalanced supported_props))
write_response-HasBalanced entry all_prop h =
    let (date, dated) = format_rfc1123-some entry.modified h in
    sections-HasBalanced entry all_prop date dated _ _
write_response-HasBalanced entry (named names) h =
    let (date, dated) = format_rfc1123-some entry.modified h in
    sections-HasBalanced entry (named names) date dated _ _

write_responses-HasBalanced :
    (entries : List PropEntry) (request : PropRequest)
    → All (λ entry. IsDated entry.modified) entries
    → HasBalanced (write_responses entries request)
unfolding write_responses
write_responses-HasBalanced [] request h = balanced nil-IsBalanced
write_responses-HasBalanced (entry ∷ entries) request (h, more_h) =
    let one = write_response-HasBalanced entry request h in
    let more = write_responses-HasBalanced entries request more_h in
    rw (one.result_eq, more.result_eq)
      (balanced (append-IsBalanced one.is_balanced more.is_balanced))

-- For resources whose dates are in range, the answer to a PROPFIND is a document, it is built without
-- a panic, and every end tag in it closes the tag that was opened last, with none left open.
pub build_multistatus-balanced :
    (entries : List PropEntry) (request : PropRequest)
    → All (λ entry. IsDated entry.modified) entries
    → (doc : Document) × (build_multistatus entries request ≡ some doc) × (closes [] doc ≡ some [])
unfolding build_multistatus closes
build_multistatus-balanced entries request h =
    let all_of = write_responses-HasBalanced entries request h in
    let b = frame-IsBalanced (dav "multistatus") namespace_dav all_of.is_balanced in
    (
      decl ∷ start_tag (dav "multistatus") namespace_dav ∷ all_of.document
          ++ end_tag (dav "multistatus") ∷ [],
      rw all_of.result_eq refl,
      b.stays [],
    )
