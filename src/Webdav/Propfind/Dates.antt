-- ===== src/Webdav/Propfind/Dates.antt =====
-- The dates of the resources that src/webdav/fs.rs collects are those of the disk.
use rshs.App.{Metadata, Platform}
use rshs.Common.{
  All, All-IsIn, All-of_IsIn, Bool, Bool-cases, Bytes, List, Option-cases, [], inl, inr, map,
  or_value, refl, some, true, ℕ, ◌<◌, ◌∷◌, ◌≡◌,
}
use rshs.FilePath.{FilePath}
use rshs.Lock.{Depth, depth_infinity, depth_one, depth_zero}
use rshs.Scan.{DirEntryMeta, batch_read_dir_entries}
use rshs.Time.{since_epoch}
use rshs.Time.Dated.{IsDated}
use rshs.Webdav.Below.{Below, child, deeper}
use rshs.Webdav.Collect.{IsBounded, collect_entries-lists}
use rshs.Webdav.Entries.{
  base_entry, child_entry, collect_children, collect_direct_children, collect_entries, from_dirent,
  from_meta,
}
use rshs.Xml.Multistatus.{PropEntry}

module _ {Disk : Type 0} (sys : Platform Disk) (linux : Bool) (disk : Disk) where
  -- Every date on the disk has a day that fits in an `i32`, for the scan and for the metadata alike.
  pub record HasDates : Type 0 where
    pub scanned :
        (dir : FilePath) (children : List DirEntryMeta)
        → batch_read_dir_entries sys linux disk dir ≡ some children
        → All (λ c. IsDated c.modified) children
    pub stated :
        (p : FilePath) (meta : Metadata)
        → sys.metadata disk p ≡ some meta
        → IsDated (or_value meta.modified (since_epoch 0))

  child_entry-modified :
      (href : Bytes) (c : DirEntryMeta) → (child_entry sys linux href c).modified ≡ c.modified
  unfolding child_entry from_dirent
  child_entry-modified href c = elim (Bool-cases c.is_dir) [
    | inl is_dir ↦ rw is_dir refl
    | inr is_file ↦ rw is_file refl
  ]

  module _ (dates : HasDates) where
    children-IsDated :
        (href : Bytes) (cs : List DirEntryMeta)
        → All (λ c. IsDated c.modified) cs
        → All (λ e. IsDated e.modified) (map (child_entry sys linux href) cs)
    children-IsDated href [] h = tt
    children-IsDated href (c ∷ cs) (here, h) =
        (rw (child_entry-modified href c) here, children-IsDated href cs h)

    Below-IsDated :
        (e : PropEntry) (dir : FilePath) (href : Bytes)
        → Below sys linux disk e dir href
        → IsDated e.modified
    Below-IsDated e dir href (child _ _ cs c k i same) =
        let dated = All-IsIn _ cs c (dates.scanned dir cs k) i in
        rw (← same) (rw (child_entry-modified href c) dated)
    Below-IsDated e dir href (deeper _ _ cs c k i d b) = Below-IsDated e _ _ b

    base-IsDated :
        (p : FilePath) (path : Bytes) (meta : Metadata)
        → sys.metadata disk p ≡ some meta
        → IsDated (base_entry sys linux p path meta).modified
    unfolding base_entry from_meta
    base-IsDated p path meta found = dates.stated p meta found

    direct-IsDated :
        (dir : FilePath) (href : Bytes)
        → All (λ e. IsDated e.modified) (collect_direct_children sys linux disk dir href)
    unfolding collect_direct_children
    direct-IsDated dir href = elim (Option-cases (batch_read_dir_entries sys linux disk dir)) [
      | inl unread ↦ rw (unread, collect_direct_children) tt
      | inr (cs, listed) ↦
          rw (listed, collect_direct_children) (children-IsDated _ cs (dates.scanned dir cs listed))
    ]

    module _ (weight : FilePath → ℕ) (bounded : IsBounded sys linux disk weight) (fuel : ℕ)
        (enough : (p : FilePath) → weight p < fuel) where
      -- The collection of the resources ends, with dates in range.
      pub collect_entries-IsDated :
          (p : FilePath) (path : Bytes) (depth : Depth)
          → (entries : List PropEntry) × (collect_entries sys linux fuel disk p path depth
              ≡ some entries)
            × All (λ e. IsDated e.modified) entries
      unfolding collect_entries collect_children
      collect_entries-IsDated p path depth = elim (Option-cases (sys.metadata disk p)) [
        | inl missing ↦ rw (missing, collect_entries) ([], refl, tt)
        | inr (meta, found) ↦ elim (Bool-cases meta.is_dir) [
          | inl is_dir ↦ by_depth meta found is_dir depth
          | inr is_file ↦
              rw (found, collect_entries)
                (rw is_file (_, refl, (base-IsDated p path meta found, tt)))
        ]
      ]
        where
          by_depth :
              (meta : Metadata)
              → sys.metadata disk p ≡ some meta
              → meta.is_dir ≡ true
              → (depth : Depth)
              → (entries : List PropEntry) × (collect_entries sys linux fuel disk p path depth
                  ≡ some entries)
                × All (λ e. IsDated e.modified) entries
          by_depth meta found is_dir depth_zero =
              rw (found, collect_entries)
                (rw is_dir (_, refl, (base-IsDated p path meta found, tt)))
          by_depth meta found is_dir depth_one =
              rw (found, collect_entries)
                (rw is_dir (_, refl, (base-IsDated p path meta found, direct-IsDated p path)))
          by_depth meta found is_dir depth_infinity =
              let (children, walked, below) =
                collect_entries-lists sys linux disk weight bounded fuel p path meta (enough p)
                  found is_dir in
              (
                _,
                walked,
                (
                  base-IsDated p path meta found,
                  All-of_IsIn children (λ e i. Below-IsDated e _ _ ((below e).0 i)),
                ),
              )
