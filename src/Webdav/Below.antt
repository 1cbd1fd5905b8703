-- ===== src/Webdav/Below.antt =====
-- The walk over all directories below one, `collect_descendants` of src/webdav/fs.rs: it ends, and it
-- lists what is below.
use rshs.App.{Platform}
use rshs.Common.{
  AnyOf, AnyOf-IsIn, AnyOf-elim, Bool, Bytes, IsIn, List, [], arith, inl, inr, none, some, true,
  ◌↔◌, ◌∷◌, ◌≡◌, ◌⊎◌,
}
use rshs.FilePath.{FilePath, join, normal}
use rshs.Scan.{DirEntryMeta, batch_read_dir_entries}
use rshs.Webdav.Entries.{child_entry, normalize_href_dir}
use rshs.Xml.Multistatus.{PropEntry}

module _ {Disk : Type 0} (sys : Platform Disk) (linux : Bool) (disk : Disk) where
  -- An entry lies below a directory whose links begin with `href`: it is one of its children, or
  -- lies below one that is a directory.
  pub data Below (e : PropEntry) : FilePath → Bytes → Type 0 where
    child :
        (dir : FilePath) (href : Bytes) (children : List DirEntryMeta) (c : DirEntryMeta)
        → batch_read_dir_entries sys linux disk dir ≡ some children
        → IsIn c children
        → child_entry sys linux href c ≡ e
        → Below e dir href
    deeper :
        (dir : FilePath) (href : Bytes) (children : List DirEntryMeta) (c : DirEntryMeta)
        → batch_read_dir_entries sys linux disk dir ≡ some children
        → IsIn c children
        → c.is_dir ≡ true
        → Below e
            (join dir (normal c.name ∷ []))
            (normalize_href_dir (child_entry sys linux href c).href)
        → Below e dir href

  abbrev pub Pending : PropEntry → FilePath × Bytes → Type 0
  Pending e (dir, href) = Below e dir href

  module _ (e : PropEntry) (dir : FilePath) (href : Bytes) where
    -- What a child adds: itself, and what is below it.
    abbrev pub Through : DirEntryMeta → Type 0
    Through c =
        (child_entry sys linux href c ≡ e)
        ⊎ ((c.is_dir ≡ true)
            × Below e (join dir (normal c.name ∷ []))
                (normalize_href_dir (child_entry sys linux href c).href))

  pub Below-iff :
      (e : PropEntry) (dir : FilePath) (href : Bytes) (children : List DirEntryMeta)
      → batch_read_dir_entries sys linux disk dir ≡ some children
      → Below e dir href ↔ AnyOf (Through e dir href) children
  Below-iff e dir href children h = (through, λ found. AnyOf-elim _ children found below)
    where
      through : Below e dir href → AnyOf (Through e dir href) children
      through (child _ _ cs c k i same) =
          let listed : cs ≡ children = ground arith in
          AnyOf-IsIn (Through e dir href) children c (rw listed at i) (inl same)
      through (deeper _ _ cs c k i d b) =
          let listed : cs ≡ children = ground arith in
          AnyOf-IsIn (Through e dir href) children c (rw listed at i) (inr (d, b))

      below : (c : DirEntryMeta) → IsIn c children → Through e dir href c → Below e dir href
      below c i (inl same) = child dir href children c h i same
      below c i (inr (d, b)) = deeper dir href children c h i d b

  -- Nothing is below a directory that cannot be read.
  pub Below-unread :
      (e : PropEntry) (dir : FilePath) (href : Bytes)
      → batch_read_dir_entries sys linux disk dir ≡ none
      → Below e dir href
      → ⊥
  Below-unread e dir href h (child _ _ cs c k i same) = ground arith
  Below-unread e dir href h (deeper _ _ cs c k i d b) = ground arith
