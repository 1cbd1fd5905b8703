-- ===== src/Webdav/Patch/Outcome.antt =====
-- PROPPATCH of src/handlers/webdav.rs from the request to the answer.
use rshs.App.{AppState, Platform, Request, Response, or_status}
use rshs.Body.{Parsed-cases, PropPatchAction, parsed}
use rshs.Body.Proppatch.{parse_proppatch_request}
use rshs.Common.{
  Bytes, List, Option-cases, [], bytes_eq, bytes_key, if◌then◌else◌, inl, inr, or_value, refl, some,
  ◌==◌, ◌≡◌, ◌⊎◌,
}
use rshs.FileHandlers.{existing_target}
use rshs.FilePath.{FilePath, path_key}
use rshs.Http.{Result, bad_request, err, not_found, ok}
use rshs.Map.{get, nat_key, or_default}
use rshs.Resolve.{resolve_existing}
use rshs.Resolve.State.{state_resolve_existing}
use rshs.Webdav.{
  body_of, build_proppatch_response, handle_proppatch, multistatus, or_400, patch_at,
  write_proppatch_result,
}
use rshs.Webdav.Patch.{last_action, patch_at-dead_props}
use rshs.Xml.{Document, dav, namespace_dav}
use rshs.Xml.Tags.{IsBalanced, closes, each-IsBalanced, frame-IsBalanced}

write_proppatch_result-IsBalanced :
    (href key : Bytes) → IsBalanced (write_proppatch_result href key)
unfolding write_proppatch_result closes bytes_eq
write_proppatch_result-IsBalanced href key = record { stays = λ opened. refl }

-- Every end tag of the answer closes the tag that was opened last.
build_proppatch_response-balanced :
    (request_path : Bytes) (actions : List PropPatchAction)
    → closes [] (build_proppatch_response request_path actions) ≡ some []
unfolding build_proppatch_response closes
build_proppatch_response-balanced request_path actions =
    (frame-IsBalanced (dav "multistatus") namespace_dav (
        each-IsBalanced (λ action. write_proppatch_result request_path action.name)
          (λ action. write_proppatch_result-IsBalanced request_path action.name) actions)).stays
      []

module _ {Disk : Type 0} (sys : Platform Disk) (req : Request) (s : AppState Disk) where
  -- Refused: the state stays.
  abbrev pub IsRefused : Result Response × AppState Disk → Type 0
  IsRefused (r, s') = (s' ≡ s) × ((r ≡ err not_found) ⊎ (r ≡ err bad_request))

  -- Done: the resource and the actions are those of the request, the answer is a document, and of the
  -- state only the dead properties change, as the last action on each says.
  pub record IsPatched (r : Result Response) (s' : AppState Disk) : Type 0 where
    pub p : FilePath
    pub body : Bytes
    pub actions : List PropPatchAction
    pub doc : Document
    pub found : resolve_existing sys s.root_dir s.root_canonical req.path s.disk ≡ some p
    pub body_read : req.body ≡ some body
    pub meant : parse_proppatch_request sys.utf8_lossy sys.xml_events body ≡ parsed actions
    pub answered : r ≡ ok (multistatus doc)
    pub closed : closes [] doc ≡ some []
    pub rest_stays : s' ≡ record s { dead_props = s'.dead_props }
    pub patched :
        (q : FilePath) (name : Bytes)
        → get (or_default (get s'.dead_props q)) name ≡ (
            if p == q
            then or_value (last_action name actions) (get (or_default (get s.dead_props p)) name)
            else get (or_default (get s.dead_props q)) name)

  -- A PROPPATCH is refused with 404 or 400 and leaves the state, or it is answered with 207 and a
  -- document in which every end tag closes the tag that was opened last, with none left open. Then each
  -- property of the resource is left at the value of the last action on it, and those of other
  -- resources, the locks, the cache and the disk as they were.
  pub handle_proppatch-outcome :
      IsRefused (handle_proppatch sys req s)
      ⊎ IsPatched (handle_proppatch sys req s).0 (handle_proppatch sys req s).1
  unfolding handle_proppatch patch_at existing_target state_resolve_existing or_status body_of
      or_400
  handle_proppatch-outcome =
      elim (Option-cases (resolve_existing sys s.root_dir s.root_canonical req.path s.disk)) [
        | inl missing ↦ rw (missing, handle_proppatch) (inl (refl, inl refl))
        | inr (p, found) ↦ elim (Option-cases req.body) [
          | inl too_long ↦ rw (found, too_long, handle_proppatch) (inl (refl, inr refl))
          | inr (body, body_read) ↦
              elim (Parsed-cases (parse_proppatch_request sys.utf8_lossy sys.xml_events body)) [
                | inr (e, unclear) ↦
                    rw (found, body_read, unclear, handle_proppatch) (inl (refl, inr refl))
                | inl (actions, meant) ↦
                    rw (found, body_read, meant, handle_proppatch)
                      (inr (record {
                        p = p;
                        body = body;
                        actions = actions;
                        doc = build_proppatch_response req.path actions;
                        found = found;
                        body_read = refl;
                        meant = meant;
                        answered = refl;
                        closed = build_proppatch_response-balanced req.path actions;
                        rest_stays = refl;
                        patched = patch_at-dead_props req.path p actions s;
                      }))
              ]
        ]
      ]
