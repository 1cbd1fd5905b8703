-- ===== src/Xml.antt =====
-- src/webdav/xml.rs: the documents that the program writes, as the events it gives the XML writer
-- (quick_xml's `Writer`, which escapes and prints them).
pub mod Multistatus
pub mod Tags
pub mod Balanced
pub mod Whole
pub mod Elements
pub mod Sorted
pub mod Reported
use rshs.Common.{
  Bool, Bytes, List, Option, String, [], bytes_key, codes, if◌then◌else◌, is_empty, map, none, not,
  some, true, ℕ, ◌++◌, ◌/◌, ◌==◌, ◌||◌, ◌∷◌,
}
use rshs.FilePath.{path_key}
use rshs.Headers.Clark.{parse_clark}
use rshs.Lock.{Depth, LockInfo, LockScope, depth_infinity, depth_one, depth_zero, exclusive, shared}
use rshs.Map.{HashMap, nat_key}
use rshs.Time.Format.{decimal}

pub data XmlOut : Type 0 where
  decl : XmlOut
  start_tag : Bytes → List (Bytes × Bytes) → XmlOut
  empty_tag : Bytes → List (Bytes × Bytes) → XmlOut
  end_tag : Bytes → XmlOut
  text_node : Bytes → XmlOut

abbrev pub Document : Type 0
Document = List XmlOut

-- `BytesStart::new` without attributes
abbrev pub open_tag : Bytes → XmlOut
open_tag name = start_tag name []

abbrev pub dav : String → Bytes
dav name = codes "D:" ++ codes name

-- the documents of a list, one after the other
unfoldable pub each {ℓ} : {A : Type ℓ} → (A → Document) → List A → Document
each write [] = []
each write (a ∷ as') = write a ++ each write as'

unfoldable pub write_prop_text : Bytes → Bytes → Document
write_prop_text qname value = open_tag qname ∷ text_node value ∷ end_tag qname ∷ []

unfoldable pub write_lockentry : Bytes → Document
write_lockentry scope =
    open_tag (dav "lockentry")
    ∷ open_tag (dav "lockscope")
    ∷ (if scope == codes "exclusive"
        then empty_tag (dav "exclusive") []
        else empty_tag (dav "shared") [])
    ∷ end_tag (dav "lockscope")
    ∷ open_tag (dav "locktype")
    ∷ empty_tag (dav "write") []
    ∷ end_tag (dav "locktype")
    ∷ end_tag (dav "lockentry")
    ∷ []

-- `SUPPORTED_PROPS`
abbrev pub supported_props : List Bytes
supported_props = map codes (
    "creationdate" ∷ "getcontentlength" ∷ "getcontenttype" ∷ "getetag" ∷ "getlastmodified"
    ∷ "lockdiscovery" ∷ "resourcetype" ∷ "supportedlock" ∷ [])

unfoldable pub is_applicable : Bytes → Bool → Bool
is_applicable prop is_dir =
    if prop == codes "getcontentlength" || prop == codes "getcontenttype" || prop == codes "getetag"
    then not is_dir
    else true

-- the local name and the attributes of an element of that Clark name: its namespace is the default one
unfoldable pub clark_parts : Bytes → Bytes × List (Bytes × Bytes)
unfolding parse_clark
clark_parts key = elim (parse_clark key) [
  | none ↦ (key, [])
  | some (ns, local) ↦ (local, (if is_empty ns then [] else (codes "xmlns", ns) ∷ []))
]

-- the status of a `propstat`, and the end of both
abbrev pub write_status : Bytes → Document
write_status status = open_tag (dav "status") ∷ text_node status ∷ end_tag (dav "status") ∷ []

unfoldable pub write_propstat_404 : List Bytes → Document
unfolding each clark_parts
write_propstat_404 props =
    open_tag (dav "propstat")
      ∷ open_tag (dav "prop")
      ∷ each (λ key. empty_tag (clark_parts key).0 (clark_parts key).1 ∷ []) props
    ++ end_tag (dav "prop") ∷ write_status (codes "HTTP/1.1 404 Not Found")
    ++ end_tag (dav "propstat") ∷ []

unfoldable pub write_propname : List Bytes → Document
unfolding each
write_propname props =
    open_tag (dav "propstat")
      ∷ open_tag (dav "prop")
      ∷ each (λ name. empty_tag (codes "D:" ++ name) [] ∷ []) props
    ++ end_tag (dav "prop") ∷ write_status (codes "HTTP/1.1 200 OK")
    ++ end_tag (dav "propstat") ∷ []

unfoldable pub write_dead_propstat : HashMap Bytes Bytes → Document
unfolding each clark_parts
write_dead_propstat props =
    open_tag (dav "propstat")
      ∷ open_tag (dav "prop")
      ∷ each
          (λ (key, value).
            let (local, attrs) = clark_parts key in
            start_tag local attrs ∷ text_node value ∷ end_tag local ∷ [])
          props
    ++ end_tag (dav "prop") ∷ write_status (codes "HTTP/1.1 200 OK")
    ++ end_tag (dav "propstat") ∷ []

abbrev scope_tag : LockScope → XmlOut
scope_tag exclusive = empty_tag (dav "exclusive") []
scope_tag shared = empty_tag (dav "shared") []

abbrev depth_str : Depth → Bytes
depth_str depth_zero = codes "0"
depth_str depth_one = codes "1"
depth_str depth_infinity = codes "infinity"

abbrev write_owner : Option Bytes → Document
write_owner none = []
write_owner (some owner) = open_tag (dav "owner") ∷ text_node owner ∷ end_tag (dav "owner") ∷ []

unfoldable pub write_timeout : Option ℕ → Document
unfolding decimal
write_timeout none = []
write_timeout (some d) =
    open_tag (dav "timeout")
    ∷ text_node (codes "Second-" ++ decimal (d / 1000000000))
    ∷ end_tag (dav "timeout")
    ∷ []

unfoldable pub write_activelock : LockInfo → Document
unfolding write_timeout
write_activelock lock =
    open_tag (dav "activelock")
      ∷ open_tag (dav "lockscope")
      ∷ scope_tag lock.scope
      ∷ end_tag (dav "lockscope")
      ∷ open_tag (dav "locktype")
      ∷ empty_tag (dav "write") []
      ∷ end_tag (dav "locktype")
      ∷ open_tag (dav "depth")
      ∷ text_node (depth_str lock.depth)
      ∷ end_tag (dav "depth")
      ∷ write_owner lock.owner
    ++ write_timeout lock.timeout
    ++ open_tag (dav "locktoken")
      ∷ open_tag (dav "href")
      ∷ text_node lock.token
      ∷ end_tag (dav "href")
      ∷ end_tag (dav "locktoken")
      ∷ end_tag (dav "activelock")
      ∷ []

abbrev pub namespace_dav : List (Bytes × Bytes)
namespace_dav = (codes "xmlns:D", codes "DAV:") ∷ []

-- `build_lock_response` of src/handlers/locks.rs
unfoldable pub build_lock_response : LockInfo → Document
unfolding write_activelock
build_lock_response lock =
    start_tag (dav "prop") namespace_dav ∷ open_tag (dav "lockdiscovery") ∷ write_activelock lock
    ++ end_tag (dav "lockdiscovery") ∷ end_tag (dav "prop") ∷ []
