-- ===== src/Xml/Balanced.antt =====
-- The documents of src/webdav/xml.rs are balanced: every end tag closes the tag that was opened last.
use rshs.Common.{
  Bool, Bool-cases, Bytes, List, Option, [], bytes_eq, bytes_eq_refl, bytes_key, codes, false,
  if◌then◌else◌, inl, inr, none, refl, some, true, ℕ, ◌++◌, ◌==◌, ◌∷◌, ◌≡◌,
}
use rshs.FilePath.{path_key}
use rshs.Lock.{Depth, LockInfo, LockScope, exclusive, shared}
use rshs.Map.{HashMap, nat_key, or_default}
use rshs.Time.Format.{format_rfc1123}
use rshs.Xml.{
  Document, build_lock_response, clark_parts, dav, empty_tag, end_tag, open_tag, start_tag,
  text_node, write_activelock, write_dead_propstat, write_lockentry, write_prop_text,
  write_propname, write_propstat_404, write_status, write_timeout,
}
use rshs.Xml.Multistatus.{PropEntry, live_prop, live_props, write_propstat_200}
use rshs.Xml.Tags.{
  IsBalanced, append-IsBalanced, closes, each-IsBalanced, frame-IsBalanced, nil-IsBalanced, part,
  part_nested,
}

write_prop_text-IsBalanced : (qname value : Bytes) → IsBalanced (write_prop_text qname value)
unfolding closes write_prop_text
write_prop_text-IsBalanced qname value = record { stays = λ opened. rw (bytes_eq_refl qname) refl }

write_lockentry-IsBalanced : (scope : Bytes) → IsBalanced (write_lockentry scope)
unfolding closes write_lockentry bytes_eq
write_lockentry-IsBalanced scope = elim (Bool-cases (scope == codes "exclusive")) [
  | inl same ↦ record { stays = λ opened. rw same refl }
  | inr other ↦ record { stays = λ opened. rw other refl }
]

-- the frame of every `propstat`
propstat-IsBalanced :
    {props : Document} (status : Bytes)
    → IsBalanced props
    → IsBalanced (
        open_tag (dav "propstat") ∷ open_tag (dav "prop") ∷ props
        ++ end_tag (dav "prop") ∷ write_status status
        ++ end_tag (dav "propstat") ∷ [])
unfolding closes bytes_eq
propstat-IsBalanced status b = record {
  stays = λ opened. part_nested b (dav "prop" ∷ dav "propstat" ∷ opened) _ _;
}

pub write_propname-IsBalanced : (props : List Bytes) → IsBalanced (write_propname props)
unfolding closes write_propname
write_propname-IsBalanced props = propstat-IsBalanced (codes "HTTP/1.1 200 OK") (
    each-IsBalanced (λ name. empty_tag (codes "D:" ++ name) [] ∷ [])
      (λ name. record { stays = λ opened. refl }) props)

pub write_propstat_404-IsBalanced : (props : List Bytes) → IsBalanced (write_propstat_404 props)
unfolding closes write_propstat_404
write_propstat_404-IsBalanced props = propstat-IsBalanced (codes "HTTP/1.1 404 Not Found") (
    each-IsBalanced (λ key. empty_tag (clark_parts key).0 (clark_parts key).1 ∷ [])
      (λ key. record { stays = λ opened. refl }) props)

text-IsBalanced : (t : Bytes) → IsBalanced (text_node t ∷ [])
unfolding closes
text-IsBalanced t = record { stays = λ opened. refl }

dead_property : Bytes × Bytes → Document
dead_property (key, value) =
    let (local, attrs) = clark_parts key in
    start_tag local attrs ∷ text_node value ∷ end_tag local ∷ []

pub write_dead_propstat-IsBalanced :
    (props : HashMap Bytes Bytes) → IsBalanced (write_dead_propstat props)
unfolding write_dead_propstat dead_property
write_dead_propstat-IsBalanced props = propstat-IsBalanced (codes "HTTP/1.1 200 OK") (
    each-IsBalanced dead_property
      (λ p. frame-IsBalanced (clark_parts p.0).0 (clark_parts p.0).1 (text-IsBalanced p.1)) props)

write_activelock-IsBalanced : (lock : LockInfo) → IsBalanced (write_activelock lock)
unfolding closes write_activelock write_timeout bytes_eq
write_activelock-IsBalanced lock = record {
  stays = λ opened. by_parts lock.scope lock.depth lock.owner lock.timeout lock.token opened;
}
  where
    by_parts :
        (scope : LockScope) (depth : Depth) (owner : Option Bytes) (timeout : Option ℕ)
        (token : Bytes) (opened : List Bytes)
        → closes opened (
            write_activelock (record {
              scope = scope;
              token = token;
              owner = owner;
              created = 0;
              timeout = timeout;
              depth = depth;
            }))
          ≡ some opened
    by_parts exclusive depth none none token opened = refl
    by_parts exclusive depth (some o) none token opened = refl
    by_parts exclusive depth none (some t) token opened = refl
    by_parts exclusive depth (some o) (some t) token opened = refl
    by_parts shared depth none none token opened = refl
    by_parts shared depth (some o) none token opened = refl
    by_parts shared depth none (some t) token opened = refl
    by_parts shared depth (some o) (some t) token opened = refl

build_lock_response-IsBalanced : (lock : LockInfo) → IsBalanced (build_lock_response lock)
unfolding closes build_lock_response bytes_eq
build_lock_response-IsBalanced lock = record {
  stays = λ opened.
      part (write_activelock-IsBalanced lock) (dav "lockdiscovery" ∷ dav "prop" ∷ opened) _;
}

-- What a writer that may panic gives for certain: a balanced document.
pub record HasBalanced (result : Option Document) : Type 0 where
  pub document : Document
  pub result_eq : result ≡ some document
  pub is_balanced : IsBalanced document

pub balanced : {doc : Document} → IsBalanced doc → HasBalanced (some doc)
balanced b = record { document = _; result_eq = refl; is_balanced = b }

-- one branch of a test
if-HasBalanced :
    (test : Bool) {a b : Option Document}
    → HasBalanced a
    → HasBalanced b
    → HasBalanced (if test then a else b)
if-HasBalanced true h k = h
if-HasBalanced false h k = k

collection-IsBalanced :
    (is_dir : Bool) → IsBalanced (if is_dir then empty_tag (dav "collection") [] ∷ [] else [])
unfolding closes
collection-IsBalanced true = record { stays = λ opened. refl }
collection-IsBalanced false = nil-IsBalanced

live_prop-HasBalanced :
    (entry : PropEntry) (name date : Bytes)
    → format_rfc1123 entry.modified ≡ some date
    → HasBalanced (live_prop entry name)
unfolding live_prop
live_prop-HasBalanced entry name date dated =
    if-HasBalanced (name == codes "creationdate") (balanced (write_prop_text-IsBalanced _ _)) (
      if-HasBalanced (name == codes "getcontentlength") (balanced (write_prop_text-IsBalanced _ _))
        (if-HasBalanced (name == codes "getcontenttype") (balanced (write_prop_text-IsBalanced _ _))
          (if-HasBalanced (name == codes "getetag") (balanced (write_prop_text-IsBalanced _ _)) (
            if-HasBalanced (name == codes "getlastmodified")
              (rw dated (balanced (write_prop_text-IsBalanced _ _)))
              (if-HasBalanced (name == codes "lockdiscovery")
                (balanced (
                  frame-IsBalanced (dav "lockdiscovery") [] (
                    each-IsBalanced write_activelock write_activelock-IsBalanced
                      (or_default entry.active_locks))))
                (if-HasBalanced (name == codes "resourcetype")
                  (balanced
                    (frame-IsBalanced (dav "resourcetype") [] (collection-IsBalanced entry.is_dir)))
                  (if-HasBalanced (name == codes "supportedlock")
                    (balanced (
                      frame-IsBalanced (dav "supportedlock") [] (
                        append-IsBalanced (write_lockentry-IsBalanced (codes "exclusive"))
                          (write_lockentry-IsBalanced (codes "shared")))))
                    (balanced nil-IsBalanced))))))))

live_props-HasBalanced :
    (entry : PropEntry) (props : List Bytes) (date : Bytes)
    → format_rfc1123 entry.modified ≡ some date
    → HasBalanced (live_props entry props)
unfolding live_props closes
live_props-HasBalanced entry [] date dated = balanced nil-IsBalanced
live_props-HasBalanced entry (name ∷ props) date dated =
    let one = live_prop-HasBalanced entry name date dated in
    let more = live_props-HasBalanced entry props date dated in
    rw (one.result_eq, more.result_eq)
      (balanced (append-IsBalanced one.is_balanced more.is_balanced))

pub write_propstat_200-HasBalanced :
    (entry : PropEntry) (props : List Bytes) (date : Bytes)
    → format_rfc1123 entry.modified ≡ some date
    → HasBalanced (write_propstat_200 entry props)
unfolding write_propstat_200
write_propstat_200-HasBalanced entry props date dated =
    let all_props = live_props-HasBalanced entry props date dated in
    rw all_props.result_eq
      (balanced (propstat-IsBalanced (codes "HTTP/1.1 200 OK") all_props.is_balanced))
