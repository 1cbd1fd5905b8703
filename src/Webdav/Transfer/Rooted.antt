-- ===== src/Webdav/Transfer/Rooted.antt =====
-- COPY and MOVE of src/handlers/webdav.rs stay inside the served root.
use rshs.App.{AppState, Platform, Request}
use rshs.Common.{Bool, false, true, ◌≡◌, ◌⊎◌}
use rshs.FilePath.{FilePath, starts_with}
use rshs.Resolve.Guard.{IsGuarded}
use rshs.Webdav.Transfer.{Transfer}
use rshs.Webdav.Transfer.Outside.{CallsKeep, Kept}

module _ {Disk : Type 0} (sys : Platform Disk) (req : Request) (s : AppState Disk) where
  -- what the checks have established
  abbrev IsRooted : Transfer → Type 0
  IsRooted t = (starts_with t.src s.root_canonical ≡ true) × IsGuarded sys s.root_canonical t.dest

  module _ {A : Type 0} (look : Disk → FilePath → A) where
    -- The disk is the same, or differs only at a guarded destination, at the source of a MOVE, which
    -- is inside the root, and below these.
    abbrev pub StaysInside : Bool → AppState Disk → Type 0
    StaysInside is_move s' =
        (s'.disk ≡ s.disk)
        ⊎ ((src : FilePath) × (dest : FilePath) × (starts_with src s.root_canonical ≡ true)
            × IsGuarded sys s.root_canonical dest
            × ((q : FilePath)
                → starts_with q dest ≡ false
                → ((is_move ≡ true) → starts_with q src ≡ false)
                → look s'.disk q ≡ look s.disk q))

  module _ {A : Type 0} (look : Disk → FilePath → A) (is_link : Disk → FilePath → Bool)
      (calls : CallsKeep sys look is_link s.root_canonical) where
    abbrev Keeps : FilePath → Disk → Disk → Type 0
    Keeps = Kept sys look is_link s.root_canonical
