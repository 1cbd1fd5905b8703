-- ===== src/Examples/Walks.antt =====
-- PROPFIND: the theorems on a folder that has one folder.
use rshs.App.{DirEntry, Metadata, Platform, type_dir}
use rshs.Common.{
  Bool-cases, IsIn, List, [], arith, bytes_eq, bytes_key, codes, false, if◌then◌else◌, inl, inr,
  none, refl, some, true, ℕ, ◌<◌, ◌==◌, ◌↔◌, ◌∷◌, ◌≡◌,
}
use rshs.Examples.{folder_d, put_request, still_platform, still_state}
use rshs.FilePath.{FilePath, join, path_eq, path_eq_iff, path_key}
use rshs.Lock.{depth_infinity}
use rshs.Map.{nat_key}
use rshs.Scan.{DirEntryMeta, batch_fallback, batch_read_dir_entries, fallback_entries}
use rshs.Time.{since_epoch}
use rshs.Webdav.Below.{Below}
use rshs.Webdav.Collect.{IsBounded, children_weight, collect_entries-lists}
use rshs.Webdav.Entries.{base_entry, collect_entries, normalize_href}
use rshs.Webdav.Propfind.{handle_propfind}
use rshs.Webdav.Propfind.Answers.{IsAnswered, handle_propfind-IsAnswered}
use rshs.Webdav.Propfind.Dates.{HasDates}
use rshs.Xml.Multistatus.{PropEntry}

abbrev x_entry : DirEntry
x_entry = record { name = codes "x"; file_type = some type_dir }

abbrev folder_meta : Metadata
folder_meta = record {
  is_dir = true;
  is_file = false;
  len = 0;
  modified = some (since_epoch 1716134400000000000);
  created = none;
}

-- everything is a folder, and one of them has the folder "x"
abbrev tree_platform : Platform (Unit {0})
tree_platform = record still_platform {
  metadata = λ d p. some folder_meta;
  read_dir = λ d p. if p == folder_d then some (some x_entry ∷ []) else none;
}

abbrev tree_weight : FilePath → ℕ
tree_weight p = if p == folder_d then 1 else 0

tree_enough : (p : FilePath) → tree_weight p < 2
tree_enough p = ground arith

abbrev x_meta : DirEntryMeta
x_meta = record {
  name = codes "x";
  is_dir = true;
  size = 0;
  modified = since_epoch 1716134400000000000;
  created = none;
}

-- the scan of a folder
tree_scan :
    (dir : FilePath) (children : List DirEntryMeta)
    → batch_read_dir_entries tree_platform false tt dir ≡ some children
    → (dir ≡ folder_d) × (children ≡ x_meta ∷ [])
unfolding batch_read_dir_entries batch_fallback fallback_entries
tree_scan dir children h = elim (Bool-cases (dir == folder_d)) [
  | inl same ↦
      let scanned : some (x_meta ∷ []) ≡ some children = rw same at h in
      ((path_eq_iff dir folder_d).0 same, ground arith)
  | inr other ↦ let missing : none ≡ some children = rw other at h in absurd cc
]

tree_bounded : IsBounded tree_platform false tt tree_weight
unfolding children_weight path_eq bytes_eq join
tree_bounded dir children h =
    let (here, listed) = tree_scan dir children h in rw (here, listed) (omega arith)

tree_dates : HasDates tree_platform false tt
tree_dates = record {
  scanned = λ dir children h.
      let (here, listed) = tree_scan dir children h in rw listed (omega arith, tt);
  stated = λ p meta h. let same : folder_meta ≡ meta = ground arith in rw (← same) (omega arith);
}

collect_entries-lists_example :
    (children : List PropEntry) × (collect_entries tree_platform false 2 tt folder_d
        (codes "/d")
        depth_infinity
      ≡ some (base_entry tree_platform false folder_d (codes "/d") folder_meta ∷ children))
    × ((e : PropEntry)
        → IsIn e children
          ↔ Below tree_platform false tt e folder_d (normalize_href (codes "/d") true))
collect_entries-lists_example =
    collect_entries-lists tree_platform false tt tree_weight tree_bounded 2 folder_d (codes "/d")
      folder_meta (tree_enough folder_d) refl refl

handle_propfind-IsAnswered_example :
    IsAnswered still_state (handle_propfind tree_platform false 2 7 put_request still_state)
handle_propfind-IsAnswered_example =
    handle_propfind-IsAnswered tree_platform false tree_weight 2 tree_enough 7 put_request
      still_state tree_bounded tree_dates
