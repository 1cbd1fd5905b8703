-- ===== src/Examples/Patches.antt =====
-- PROPPATCH: the theorem at a request that sets two properties and removes one of them.
use rshs.App.{Platform, XmlEvent, or_status, xml_empty, xml_end, xml_start}
use rshs.Body.{extract_element_ns}
use rshs.Body.Proppatch.{
  parse_proppatch_request, proppatch_empty, proppatch_end, proppatch_scan, proppatch_start,
}
use rshs.Common.{
  List, [], bytes_eq, bytes_key, codes, refl, some, trim_start_matches, ◌∷◌, ◌≡◌, ◌⊎◌,
}
use rshs.Examples.{file_f, put_request, still_platform, still_state}
use rshs.FileHandlers.{existing_target}
use rshs.FilePath.{join, parse_path, path_eq, path_key, starts_with}
use rshs.Headers.Clark.{clark_key}
use rshs.Map.{get, insert, nat_key, or_default, remove}
use rshs.Resolve.{resolve_existing}
use rshs.Resolve.State.{state_resolve_existing}
use rshs.Webdav.{apply_action, apply_actions, body_of, handle_proppatch, or_400, patch_at}
use rshs.Webdav.Patch.Outcome.{IsPatched, IsRefused, handle_proppatch-outcome}

-- <propertyupdate><set><prop><a/><b/></prop></set><remove><prop><a/></prop></remove></propertyupdate>
abbrev update_events : List XmlEvent
update_events =
    xml_start (codes "propertyupdate") (codes "propertyupdate") []
    ∷ xml_start (codes "set") (codes "set") []
    ∷ xml_start (codes "prop") (codes "prop") []
    ∷ xml_empty (codes "a") (codes "a") []
    ∷ xml_empty (codes "b") (codes "b") []
    ∷ xml_end (codes "prop")
    ∷ xml_end (codes "set")
    ∷ xml_start (codes "remove") (codes "remove") []
    ∷ xml_start (codes "prop") (codes "prop") []
    ∷ xml_empty (codes "a") (codes "a") []
    ∷ xml_end (codes "prop")
    ∷ xml_end (codes "remove")
    ∷ xml_end (codes "propertyupdate")
    ∷ []

abbrev update_platform : Platform (Unit {0})
update_platform = record still_platform { xml_events = λ s. update_events }

-- the properties that are left
patched_b :
    get
      (or_default
        (get (handle_proppatch update_platform put_request still_state).1.dead_props file_f))
      (codes "b")
    ≡ some []
unfolding handle_proppatch existing_target state_resolve_existing resolve_existing or_status body_of
    or_400 parse_proppatch_request proppatch_scan proppatch_start proppatch_empty proppatch_end
    patch_at apply_actions apply_action get insert remove bytes_eq path_eq extract_element_ns
    clark_key starts_with join parse_path trim_start_matches
patched_b = refl

handle_proppatch-outcome_example :
    IsRefused update_platform put_request still_state
      (handle_proppatch update_platform put_request still_state)
    ⊎ IsPatched update_platform put_request still_state
        (handle_proppatch update_platform put_request still_state).0
        (handle_proppatch update_platform put_request still_state).1
handle_proppatch-outcome_example = handle_proppatch-outcome update_platform put_request still_state
