-- ===== src/Xml/Reported.antt =====
-- Where the document of a PROPFIND, of src/webdav/xml.rs, reports a requested name.
use rshs.Body.{named}
use rshs.Common.{
  Bytes, IsIn, List, Option, [], bytes_key, codes, false, if◌then◌else◌, is_empty, none, some, true,
  ◌++◌, ◌∷◌, ◌≡◌,
}
use rshs.FilePath.{path_key}
use rshs.Map.{get, nat_key}
use rshs.Xml.{
  Document, XmlOut, clark_parts, dav, empty_tag, end_tag, open_tag, start_tag, supported_props,
  text_node, write_dead_propstat, write_propstat_404, write_status,
}
use rshs.Xml.Elements.{lacks}
use rshs.Xml.Multistatus.{
  PropEntry, applicable_of, contains_name, dead_of, local_of, not_found_of, partition,
  write_propstat_200, write_response,
}

-- the section of one status
abbrev section : Bytes → Document → Document
section status props =
    open_tag (dav "propstat") ∷ open_tag (dav "prop") ∷ props
    ++ end_tag (dav "prop") ∷ write_status status
    ++ end_tag (dav "propstat") ∷ []

-- A tag stands in a section of the document with that status.
pub record IsReported (status : Bytes) (tag : XmlOut) (doc : Document) : Type 0 where
  pub front : Document
  pub props : Document
  pub back : Document
  pub split : doc ≡ front ++ section status props ++ back
  pub among : IsIn tag props

abbrev named_tag : Bytes → XmlOut
named_tag key = start_tag (clark_parts key).0 (clark_parts key).1

abbrev missing_tag : Bytes → XmlOut
missing_tag key = empty_tag (clark_parts key).0 (clark_parts key).1

abbrev pub ok_status : Bytes
ok_status = codes "HTTP/1.1 200 OK"

abbrev pub missing_status : Bytes
missing_status = codes "HTTP/1.1 404 Not Found"

-- How a requested name is reported.
pub data Verdict (entry : PropEntry) (n : Bytes) (doc : Document) : Type 0 where
  -- a live property that the resource has
  live :
      contains_name supported_props (local_of n) ≡ true
      → lacks entry (local_of n) ≡ false
      → IsReported ok_status (open_tag (codes "D:" ++ local_of n)) doc
      → Verdict entry n doc
  -- one that it does not have, and that is no dead property
  lacking :
      contains_name supported_props (local_of n) ≡ true
      → lacks entry (local_of n) ≡ true
      → get (dead_of entry) (local_of n) ≡ none
      → IsReported missing_status (missing_tag (local_of n)) doc
      → Verdict entry n doc
  lacking_dead :
      (v : Bytes)
      → contains_name supported_props (local_of n) ≡ true
      → lacks entry (local_of n) ≡ true
      → get (dead_of entry) (local_of n) ≡ some v
      → IsReported ok_status (named_tag (local_of n)) doc
      → Verdict entry n doc
  -- another name
  unknown :
      contains_name supported_props (local_of n) ≡ false
      → get (dead_of entry) n ≡ none
      → IsReported missing_status (missing_tag n) doc
      → Verdict entry n doc
  dead :
      (v : Bytes)
      → contains_name supported_props (local_of n) ≡ false
      → get (dead_of entry) n ≡ some v
      → IsReported ok_status (named_tag n) doc
      → Verdict entry n doc

module _ (entry : PropEntry) (names : List Bytes) (n : Bytes) (doc : Document)
    (built : write_response entry (named names) ≡ some doc) where
  abbrev found : List Bytes
  found = (partition [] [] names).0

  abbrev missing : List Bytes
  missing = (partition [] [] names).1

  abbrev suiting : List Bytes
  suiting = applicable_of entry found

  abbrev unfound : List Bytes
  unfound = not_found_of entry found missing

  abbrev found_part : Option Document
  found_part = if is_empty suiting then some [] else write_propstat_200 entry suiting

  abbrev missing_part : Document
  missing_part = if is_empty unfound then [] else write_propstat_404 unfound

  abbrev dead_part : Document
  dead_part = if is_empty (dead_of entry) then [] else write_dead_propstat (dead_of entry)

  abbrev top : Document
  top =
      open_tag (dav "response")
      ∷ open_tag (dav "href")
      ∷ text_node entry.href
      ∷ end_tag (dav "href")
      ∷ []

  abbrev bottom : Document
  bottom = end_tag (dav "response") ∷ []
