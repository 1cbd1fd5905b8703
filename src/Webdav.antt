-- ===== src/Webdav.antt =====
-- PROPFIND and PROPPATCH of src/handlers/webdav.rs, on the disk of the platform.
pub mod Stacks
pub mod Entries
pub mod Below
pub mod Walk
pub mod Collect
pub mod Propfind
pub mod Patch
pub mod Transfer
use rshs.App.{
  DeadPropertyStore, Handler, Platform, Request, Response, document, or_status, ◌>>=◌, ◌>>◌,
}
use rshs.Body.{Parsed, PropPatchAction, parse_error, parsed}
use rshs.Body.Proppatch.{parse_proppatch_request}
use rshs.Common.{
  Bytes, List, [], bytes_key, codes, if◌then◌else◌, is_empty, none, some, ℕ, ◌++◌, ◌∷◌,
}
use rshs.FileHandlers.{existing_target}
use rshs.FilePath.{FilePath, path_key}
use rshs.Http.{bad_request, err, multi_status, ok}
use rshs.Lock.{LockStore, active_slice}
use rshs.Map.{HashMap, get, insert, nat_key, or_default, remove}
use rshs.Xml.{
  Document, clark_parts, dav, decl, each, empty_tag, end_tag, namespace_dav, open_tag, start_tag,
  text_node, write_status,
}
use rshs.Xml.Multistatus.{PropEntry}

-- the answer 207 (`multistatus` of src/webdav/xml.rs)
abbrev pub multistatus : Document → Response
multistatus xml = document multi_status xml

-- The dead properties and the active locks of one entry.
unfoldable pub with_state : ℕ → DeadPropertyStore → LockStore → PropEntry → PropEntry
unfolding active_slice get
with_state now dead_store lock_store entry = elim entry.canonical_path [
  | none ↦ entry
  | some cp ↦
      let active = active_slice now (or_default (get lock_store cp)) in
      record entry {
        dead_props = get dead_store cp;
        active_locks = (if is_empty active then entry.active_locks else some active);
      }
]

-- one action of a PROPPATCH on the properties of the resource
unfoldable pub apply_action : HashMap Bytes Bytes → PropPatchAction → HashMap Bytes Bytes
unfolding insert remove
apply_action props action = elim action.value [
  | none ↦ remove props action.name
  | some value ↦ insert props action.name value
]

unfoldable pub apply_actions : HashMap Bytes Bytes → List PropPatchAction → HashMap Bytes Bytes
unfolding apply_action
apply_actions props [] = props
apply_actions props (action ∷ actions) = apply_actions (apply_action props action) actions

unfoldable pub write_proppatch_result : Bytes → Bytes → Document
unfolding clark_parts
write_proppatch_result href key =
    let (local, attrs) = clark_parts key in
    open_tag (dav "response")
      ∷ open_tag (dav "href")
      ∷ text_node href
      ∷ end_tag (dav "href")
      ∷ open_tag (dav "propstat")
      ∷ open_tag (dav "prop")
      ∷ empty_tag local attrs
      ∷ end_tag (dav "prop")
      ∷ write_status (codes "HTTP/1.1 200 OK")
    ++ end_tag (dav "propstat") ∷ end_tag (dav "response") ∷ []

unfoldable pub build_proppatch_response : Bytes → List PropPatchAction → Document
unfolding write_proppatch_result each
build_proppatch_response request_path actions =
    decl
      ∷ start_tag (dav "multistatus") namespace_dav
      ∷ each (λ action. write_proppatch_result request_path action.name) actions
    ++ end_tag (dav "multistatus") ∷ []

module _ {Disk : Type 0} where
  -- the body, which must not be too long
  unfoldable pub body_of : Request → Handler Disk Bytes
  unfolding or_status
  body_of req = or_status req.body bad_request

  -- `or_400` on the result of a parser
  unfoldable pub or_400 : {A : Type 0} → Parsed A → Handler Disk A
  or_400 (parsed a) s = (ok a, s)
  or_400 (parse_error e) s = (err bad_request, s)

  unfoldable pub patch_at : Bytes → FilePath → List PropPatchAction → Handler Disk Response
  unfolding apply_actions build_proppatch_response insert get
  patch_at request_path fs_path actions s = (
    ok (multistatus (build_proppatch_response request_path actions)),
    record s {
      dead_props =
          insert s.dead_props fs_path
            (apply_actions (or_default (get s.dead_props fs_path)) actions);
    },
  )

module _ {Disk : Type 0} (sys : Platform Disk) where
  unfoldable pub handle_proppatch : Request → Handler Disk Response
  unfolding existing_target body_of or_400 parse_proppatch_request patch_at
  handle_proppatch req = do
    fs_path ← existing_target sys req.path
    body_bytes ← body_of req
    actions ← or_400 (parse_proppatch_request sys.utf8_lossy sys.xml_events body_bytes)
    patch_at req.path fs_path actions
