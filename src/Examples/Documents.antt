-- ===== src/Examples/Documents.antt =====
-- Bodies and documents: the theorems on PROPFIND and PROPPATCH.
use rshs.Body.{named}
use rshs.Common.{Bytes, List, [], codes, none, or_value, some, true, ◌∷◌}
use rshs.Examples.{exclusive_lock}
use rshs.Time.{since_epoch}
use rshs.Xml.{Document}
use rshs.Xml.Multistatus.{PropEntry, write_response}

abbrev one_entry : PropEntry
one_entry = record {
  href = codes "/f";
  modified = since_epoch 1716134400000000000;
  created = none;
  size = 42;
  is_dir = true;
  content_type = none;
  dead_props = some ((codes "{urn:x}a", codes "1") ∷ []);
  active_locks = some (exclusive_lock ∷ []);
  canonical_path = none;
}

abbrev asked : List Bytes
asked = codes "getetag" ∷ codes "{urn:x}b" ∷ []

abbrev answer : Document
answer = or_value (write_response one_entry (named asked)) []
