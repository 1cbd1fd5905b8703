-- ===== src/Webdav/Collect.antt =====
-- `collect_entries` of src/webdav/fs.rs: its walk ends where the directories below one have a bound,
-- and lists each entry below.
use rshs.App.{Metadata, Platform}
use rshs.Common.{
  Bool, Bytes, IsIn, List, Option-cases, [], arith, iff_trans, if◌then◌else◌, inl, inr, refl,
  reverse, some, suc, sum-empty, true, zero, ℕ, ◌++◌, ◌+◌, ◌<◌, ◌↔◌, ◌∷◌, ◌≡◌, ◌≤◌,
}
use rshs.FilePath.{FilePath, join, normal}
use rshs.Lock.{depth_infinity}
use rshs.Scan.{DirEntryMeta, batch_read_dir_entries}
use rshs.Webdav.Below.{Below}
use rshs.Webdav.Entries.{
  base_entry, collect_children, collect_descendants, collect_entries, normalize_href, subdirs,
}
use rshs.Webdav.Stacks.{no_weight, stack_weight, stack_weight-push}
use rshs.Webdav.Walk.{collect_descendants-lists}
use rshs.Xml.Multistatus.{PropEntry}

module _ {Disk : Type 0} (sys : Platform Disk) (linux : Bool) (disk : Disk)
    (weight : FilePath → ℕ) where
  -- what the directories among the children of a directory weigh
  unfoldable pub children_weight : FilePath → List DirEntryMeta → ℕ
  children_weight dir [] = 0
  children_weight dir (c ∷ cs) =
      (if c.is_dir then suc (weight (join dir (normal c.name ∷ []))) else 0)
      + children_weight dir cs

  subdirs-weight :
      (dir : FilePath) (href : Bytes) (cs : List DirEntryMeta)
      → stack_weight weight (subdirs sys linux dir href cs) ≡ children_weight dir cs
  unfolding subdirs stack_weight children_weight
  subdirs-weight dir href [] = refl
  subdirs-weight dir href (c ∷ cs) = ground (arith, subdirs-weight dir href cs)

  -- Every directory weighs at least as much as the directories in it.
  abbrev pub IsBounded : Type 0
  IsBounded =
      (dir : FilePath) (children : List DirEntryMeta)
      → batch_read_dir_entries sys linux disk dir ≡ some children
      → children_weight dir children ≤ weight dir

  module _ (bounded : IsBounded) where
    collect_descendants-ends :
        (fuel : ℕ) (stack : List (FilePath × Bytes))
        → stack_weight weight stack ≤ fuel
        → (entries : List PropEntry) × (collect_descendants sys linux fuel disk stack
            ≡ some entries)
    unfolding collect_descendants stack_weight
    collect_descendants-ends fuel [] h = ([], refl)
    collect_descendants-ends zero ((dir, href) ∷ stack) h =
        absurd (no_weight (weight dir) (stack_weight weight stack) h)
    collect_descendants-ends (suc fuel) ((dir, href) ∷ stack) h =
        elim (Option-cases (batch_read_dir_entries sys linux disk dir)) [
          | inl unread ↦
              rw (unread, collect_descendants) (collect_descendants-ends fuel stack (omega arith))
          | inr (children, listed) ↦
              let more = subdirs sys linux dir href children in
              let (rest, walked) = collect_descendants-ends fuel (reverse more ++ stack) (
                omega (
                  arith,
                  bounded dir children listed,
                  subdirs-weight dir href children,
                  stack_weight-push weight more stack,
                )) in
              rw (listed, walked, collect_descendants) (_, refl)
        ]

    -- A PROPFIND of a directory with depth infinity: with fuel above the weight of the directory,
    -- where every directory weighs at least as much as those in it, the walk ends, and behind the
    -- directory itself it lists exactly the entries below it.
    pub collect_entries-lists :
        (fuel : ℕ) (fs_path : FilePath) (request_path : Bytes) (meta : Metadata)
        → weight fs_path < fuel
        → sys.metadata disk fs_path ≡ some meta
        → meta.is_dir ≡ true
        → (children : List PropEntry) × (collect_entries sys linux fuel disk fs_path request_path
              depth_infinity
            ≡ some (base_entry sys linux fs_path request_path meta ∷ children))
          × ((e : PropEntry)
              → IsIn e children ↔ Below sys linux disk e fs_path (normalize_href request_path true))
    unfolding collect_entries collect_children stack_weight
    collect_entries-lists fuel fs_path request_path meta h found is_dir =
        let start = normalize_href request_path true in
        let (children, walked) =
          collect_descendants-ends fuel ((fs_path, start) ∷ []) (omega arith) in
        (
          children,
          rw (found, collect_entries) (rw is_dir (rw walked refl)),
          λ e.
              iff_trans
                (collect_descendants-lists sys linux disk fuel ((fs_path, start) ∷ []) children
                  walked e)
                sum-empty,
        )
