-- ===== src/Webdav/Entries.antt =====
-- src/webdav/fs.rs: the resources that an answer to PROPFIND lists.
use rshs.App.{AppState, Metadata, Platform, Response}
use rshs.Body.{PropRequest}
use rshs.Chain.{◌>>=◌}
use rshs.Common.{
  Bool, Bytes, List, Option, [], codes, if◌then◌else◌, map, none, not, or_value, reverse, some, suc,
  true, zero, ℕ, ◌&&◌, ◌++◌, ◌∷◌,
}
use rshs.FilePath.{FilePath, join, normal}
use rshs.Lock.{Depth, depth_infinity, depth_one, depth_zero}
use rshs.Resolve.{ends_with_slash}
use rshs.Scan.{DirEntryMeta, batch_read_dir_entries}
use rshs.Time.{since_epoch}
use rshs.Webdav.{multistatus, with_state}
use rshs.Xml.Multistatus.{PropEntry, build_multistatus}

unfoldable pub normalize_href : Bytes → Bool → Bytes
unfolding ends_with_slash
normalize_href path is_dir =
    if is_dir && not (ends_with_slash path) then path ++ codes "/" else path

unfoldable pub normalize_href_dir : Bytes → Bytes
unfolding ends_with_slash
normalize_href_dir path = if ends_with_slash path then path else path ++ codes "/"

-- `PropEntry::from_meta`
unfoldable pub from_meta : Metadata → Bytes → Bool → PropEntry
from_meta meta href is_dir = record {
  href = href;
  modified = or_value meta.modified (since_epoch 0);
  created = meta.created;
  size = meta.len;
  is_dir = is_dir;
  content_type = none;
  dead_props = none;
  active_locks = none;
  canonical_path = none;
}

-- `PropEntry::from_dirent`
unfoldable pub from_dirent : DirEntryMeta → Bytes → PropEntry
from_dirent meta href = record {
  href = href;
  modified = meta.modified;
  created = meta.created;
  size = meta.size;
  is_dir = meta.is_dir;
  content_type = none;
  dead_props = none;
  active_locks = none;
  canonical_path = none;
}

module _ {Disk : Type 0} (sys : Platform Disk) (linux : Bool) where
  -- the entry of a child: its name is lossy UTF-8, percent-encoded
  unfoldable pub child_entry : Bytes → DirEntryMeta → PropEntry
  unfolding from_dirent
  child_entry base child =
      let entry = from_dirent child (base ++ sys.percent_encode (sys.utf8_lossy child.name)) in
      if child.is_dir
      then entry
      else record entry { content_type = sys.guess_mime (normal child.name ∷ []) }

  unfoldable pub collect_direct_children : Disk → FilePath → Bytes → List PropEntry
  unfolding child_entry batch_read_dir_entries normalize_href
  collect_direct_children disk dir_path parent_href =
      elim (batch_read_dir_entries sys linux disk dir_path) [
        | none ↦ []
        | some children ↦ map (child_entry (normalize_href parent_href true)) children
      ]

  -- the directories among the children, as they go on the stack
  unfoldable pub subdirs : FilePath → Bytes → List DirEntryMeta → List (FilePath × Bytes)
  unfolding child_entry normalize_href_dir
  subdirs dir_path parent_href [] = []
  subdirs dir_path parent_href (child ∷ children) =
      let rest = subdirs dir_path parent_href children in
      let href = (child_entry parent_href child).href in
      if child.is_dir
      then (join dir_path (normal child.name ∷ []), normalize_href_dir href) ∷ rest
      else rest

  -- One directory is read in each round; the top of the stack is the head of the list. `none` means
  -- that the fuel is not enough.
  unfoldable pub collect_descendants : ℕ → Disk → List (FilePath × Bytes) → Option (List PropEntry)
  unfolding child_entry batch_read_dir_entries subdirs
  collect_descendants fuel disk [] = some []
  collect_descendants zero disk (dir ∷ stack) = none
  collect_descendants (suc fuel) disk ((dir_path, parent_href) ∷ stack) =
      elim (batch_read_dir_entries sys linux disk dir_path) [
        | none ↦ collect_descendants fuel disk stack
        | some children ↦ (do
          rest ←
              collect_descendants fuel disk
                (reverse (subdirs dir_path parent_href children) ++ stack)
          some (map (child_entry parent_href) children ++ rest))
      ]

  unfoldable pub base_entry : FilePath → Bytes → Metadata → PropEntry
  unfolding from_meta normalize_href
  base_entry fs_path request_path meta =
      let entry = from_meta meta (normalize_href request_path meta.is_dir) meta.is_dir in
      record entry {
        canonical_path = some fs_path;
        content_type = (if meta.is_dir then none else sys.guess_mime fs_path);
      }

  unfoldable pub collect_children : ℕ → Disk → FilePath → Bytes → Depth → Option (List PropEntry)
  unfolding collect_direct_children collect_descendants normalize_href
  collect_children fuel disk fs_path request_path depth_zero = some []
  collect_children fuel disk fs_path request_path depth_one =
      some (collect_direct_children disk fs_path request_path)
  collect_children fuel disk fs_path request_path depth_infinity =
      collect_descendants fuel disk ((fs_path, normalize_href request_path true) ∷ [])

  unfoldable pub collect_entries : ℕ → Disk → FilePath → Bytes → Depth → Option (List PropEntry)
  unfolding base_entry collect_children
  collect_entries fuel disk fs_path request_path depth = elim (sys.metadata disk fs_path) [
    | none ↦ some []
    | some meta ↦ (do
      children ←
          if meta.is_dir then collect_children fuel disk fs_path request_path depth else some []
      some (base_entry fs_path request_path meta ∷ children))
  ]

  -- The answer of `handle_propfind`, from what its guards let through. `none` is a walk out of fuel,
  -- or a panic of a date.
  unfoldable pub propfind_answer :
      ℕ → ℕ → AppState Disk → FilePath → Bytes → Depth → PropRequest → Option Response
  unfolding collect_entries with_state build_multistatus
  propfind_answer fuel now s fs_path request_path depth request = do
    entries ← collect_entries fuel s.disk fs_path request_path depth
    xml ← build_multistatus (map (with_state now s.dead_props s.locks) entries) request
    some (multistatus xml)
