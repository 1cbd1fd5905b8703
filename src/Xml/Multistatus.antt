-- ===== src/Xml/Multistatus.antt =====
-- `build_multistatus` of src/webdav/xml.rs, and what it says of one resource. `none` is a panic of
-- the date.
use rshs.Body.{PropRequest, all_prop, named, prop_name}
use rshs.Chain.{◌>>=◌}
use rshs.Common.{
  Bool, Bytes, List, Option, [], any, bytes_key, codes, if◌then◌else◌, is_empty, is_some, ltb, none,
  not, retain, some, suc, zero, ℕ, ◌%◌, ◌++◌, ◌+◌, ◌/◌, ◌==◌, ◌∷◌,
}
use rshs.FilePath.{FilePath, path_key}
use rshs.Headers.Clark.{parse_clark}
use rshs.Lock.{LockInfo}
use rshs.Map.{HashMap, get, nat_key, or_default}
use rshs.Time.{SystemTime, before_epoch, since_epoch}
use rshs.Time.Format.{decimal, format_rfc1123, format_rfc3339}
use rshs.Xml.{
  Document, dav, decl, each, empty_tag, end_tag, is_applicable, namespace_dav, open_tag, start_tag,
  supported_props, text_node, write_activelock, write_dead_propstat, write_lockentry,
  write_prop_text, write_propname, write_propstat_404, write_status,
}

-- `PropEntry` of src/webdav/mod.rs
pub record PropEntry : Type 0 where
  pub href : Bytes
  pub modified : SystemTime
  pub created : Option SystemTime
  pub size : ℕ
  pub is_dir : Bool
  pub content_type : Option Bytes
  pub dead_props : Option (HashMap Bytes Bytes)
  pub active_locks : Option (List LockInfo)
  pub canonical_path : Option FilePath

-- `{:x}` of a number of 64 bits
hex_run : ℕ → ℕ → Bytes
hex_run zero n = []
hex_run (suc fuel) n =
    let rest = hex_run fuel (n / 16) in
    let last = if ltb (n % 16) 10 then 48 + n % 16 else 87 + n % 16 in
    if ltb n 16 then last ∷ [] else rest ++ last ∷ []

-- `duration_since(UNIX_EPOCH).unwrap_or_default().as_secs()`
abbrev as_secs : SystemTime → ℕ
as_secs (since_epoch ns) = ns / 1000000000
as_secs (before_epoch ns) = 0

etag_of : PropEntry → Bytes
unfolding hex_run
etag_of entry = hex_run 16 (as_secs entry.modified) ++ codes "-" ++ hex_run 16 entry.size

creation_date : Option SystemTime → Bytes
unfolding format_rfc3339
creation_date none = []
creation_date (some created) = format_rfc3339 created

-- the elements of one live property
unfoldable pub live_prop : PropEntry → Bytes → Option Document
unfolding write_prop_text creation_date decimal etag_of format_rfc1123 write_lockentry each
live_prop entry name =
    if name == codes "creationdate"
    then some (write_prop_text (dav "creationdate") (creation_date entry.created))
    else if name == codes "getcontentlength"
    then some (write_prop_text (dav "getcontentlength") (decimal entry.size))
    else if name == codes "getcontenttype"
    then some (write_prop_text (dav "getcontenttype") (or_default entry.content_type))
    else if name == codes "getetag"
    then some (write_prop_text (dav "getetag") (etag_of entry))
    else if name == codes "getlastmodified"
    then (do
      date ← format_rfc1123 entry.modified
      some (write_prop_text (dav "getlastmodified") date))
    else if name == codes "lockdiscovery"
    then some (
        open_tag (dav "lockdiscovery") ∷ each write_activelock (or_default entry.active_locks)
        ++ end_tag (dav "lockdiscovery") ∷ [])
    else if name == codes "resourcetype"
    then some (
        open_tag (dav "resourcetype")
          ∷ (if entry.is_dir then empty_tag (dav "collection") [] ∷ [] else [])
        ++ end_tag (dav "resourcetype") ∷ [])
    else if name == codes "supportedlock"
    then some (
        open_tag (dav "supportedlock") ∷ write_lockentry (codes "exclusive")
        ++ write_lockentry (codes "shared")
        ++ end_tag (dav "supportedlock") ∷ [])
    else some []

unfoldable pub live_props : PropEntry → List Bytes → Option Document
unfolding live_prop
live_props entry [] = some []
live_props entry (name ∷ props) = do
  first ← live_prop entry name
  more ← live_props entry props
  some (first ++ more)

unfoldable pub write_propstat_200 : PropEntry → List Bytes → Option Document
unfolding live_props
write_propstat_200 entry props = do
  elements ← live_props entry props
  some (
      open_tag (dav "propstat") ∷ open_tag (dav "prop") ∷ elements
      ++ end_tag (dav "prop") ∷ write_status (codes "HTTP/1.1 200 OK")
      ++ end_tag (dav "propstat") ∷ [])

-- the local name of a requested property
unfoldable pub local_of : Bytes → Bytes
unfolding parse_clark
local_of n = elim (parse_clark n) [ none ↦ n | some (ns, local) ↦ local ]

-- `contains` of a list of names
unfoldable pub contains_name : List Bytes → Bytes → Bool
unfolding any
contains_name names n = any (λ m. m == n) names

-- The loop over the requested names: the supported ones, each once, and the others.
unfoldable pub partition : List Bytes → List Bytes → List Bytes → List Bytes × List Bytes
unfolding local_of contains_name
partition found missing [] = (found, missing)
partition found missing (n ∷ names) =
    if contains_name supported_props (local_of n)
    then partition (if contains_name found (local_of n) then found else found ++ local_of n ∷ [])
        missing names
    else partition found (missing ++ n ∷ []) names

unfoldable pub requested : PropRequest → List Bytes × List Bytes
unfolding partition
requested all_prop = (supported_props, [])
requested prop_name = ([], [])
requested (named names) = partition [] [] names

unfoldable pub applicable_of : PropEntry → List Bytes → List Bytes
unfolding is_applicable retain
applicable_of entry found = retain (λ p. is_applicable p entry.is_dir) found

abbrev pub dead_of : PropEntry → HashMap Bytes Bytes
dead_of entry = or_default entry.dead_props

-- What is reported as 404: all but the names that a dead property has.
unfoldable pub not_found_of : PropEntry → List Bytes → List Bytes → List Bytes
unfolding is_applicable retain get
not_found_of entry found missing =
    retain (λ n. not (is_some (get (dead_of entry) n)))
      (retain (λ p. not (is_applicable p entry.is_dir)) found ++ missing)

unfoldable pub write_response : PropEntry → PropRequest → Option Document
unfolding write_propname requested applicable_of write_propstat_200 not_found_of write_propstat_404
    write_dead_propstat
write_response entry prop_name = some (
    open_tag (dav "response")
      ∷ open_tag (dav "href")
      ∷ text_node entry.href
      ∷ end_tag (dav "href")
      ∷ write_propname supported_props
    ++ end_tag (dav "response") ∷ [])
write_response entry request =
    let (found, missing) = requested request in
    let applicable = applicable_of entry found in
    let not_found = not_found_of entry found missing in
    do
      found_props ← if is_empty applicable then some [] else write_propstat_200 entry applicable
      let missing_props = if is_empty not_found then [] else write_propstat_404 not_found
      let dead_props = if is_empty (dead_of entry) then [] else write_dead_propstat (dead_of entry)
      some (
          open_tag (dav "response")
            ∷ open_tag (dav "href")
            ∷ text_node entry.href
            ∷ end_tag (dav "href")
            ∷ found_props
          ++ missing_props
          ++ dead_props
          ++ end_tag (dav "response") ∷ [])

unfoldable pub write_responses : List PropEntry → PropRequest → Option Document
unfolding write_response
write_responses [] request = some []
write_responses (entry ∷ entries) request = do
  first ← write_response entry request
  more ← write_responses entries request
  some (first ++ more)

unfoldable pub build_multistatus : List PropEntry → PropRequest → Option Document
unfolding write_responses
build_multistatus entries request = do
  responses ← write_responses entries request
  some (
      decl ∷ start_tag (dav "multistatus") namespace_dav ∷ responses
      ++ end_tag (dav "multistatus") ∷ [])
