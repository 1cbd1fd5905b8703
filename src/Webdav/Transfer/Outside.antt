-- ===== src/Webdav/Transfer/Outside.antt =====
-- The walk of `copy_dir` of src/handlers/webdav.rs writes only below its destination.
use rshs.App.{
  DirEntry, FileType, IoOutcome, Platform, io_done, io_exists, io_failed, is_done, type_dir,
  type_other, type_symlink,
}
use rshs.Common.{
  All, All-append, Bool, Bool-cases, Bytes, List, Option, Option-cases, [], ap, append_assoc, arith,
  false, false≢true, inl, inr, none, refl, reverse, reverse_aux, some, split, suc, sym, true, zero,
  ℕ, ◌++◌, ◌∙◌, ◌∷◌, ◌≡◌,
}
use rshs.FilePath.{FilePath, join, normal, starts_with}
use rshs.Http.{Result, err, internal_server_error}
use rshs.LockStore.Ancestor.{starts_with-append, starts_with_sound}
use rshs.LockStore.Walk.{starts_with-append_right}
use rshs.Webdav.Transfer.{copy_dir, copy_entries, copy_entry, copy_stack, made}

joined : (name : Bytes) (p : FilePath) → join p (normal name ∷ []) ≡ p ++ normal name ∷ []
unfolding join
joined name [] = refl
joined name (c ∷ p) = refl

-- A path outside of a folder is outside of each of its members.
member-outside :
    (q dir : FilePath) (name : Bytes)
    → starts_with q dir ≡ false
    → starts_with q (join dir (normal name ∷ [])) ≡ false
unfolding join
member-outside q dir name h = elim (Bool-cases (starts_with q (join dir (normal name ∷ [])))) [
  | inr outside ↦ outside
  | inl within ↦
      let (rest, split) = starts_with_sound q (join dir (normal name ∷ [])) within in
      let split' : q ≡ dir ++ normal name ∷ rest =
        split ∙ ap (λ p. p ++ rest) (joined name dir) ∙ append_assoc dir (normal name ∷ []) rest in
      absurd (false≢true (sym h ∙ rw split' (starts_with-append dir (normal name ∷ rest))))
]

member-inside :
    (dir : FilePath) (name : Bytes) (root : FilePath)
    → starts_with dir root ≡ true
    → starts_with (join dir (normal name ∷ [])) root ≡ true
member-inside dir name root h =
    rw (joined name dir) (starts_with-append_right dir root (normal name ∷ []) h)

module _ {Disk : Type 0} (sys : Platform Disk) {A : Type 0} (look : Disk → FilePath → A)
    (is_link : Disk → FilePath → Bool) (root : FilePath) where
  -- In the tree under the root, nothing leads to another path: there is no symbolic link, and no file
  -- with a second name.
  abbrev pub HasNoLinks : Disk → Type 0
  HasNoLinks d = (p : FilePath) → starts_with p root ≡ true → is_link d p ≡ false

  -- A call at a path under the root makes no link, and changes what is at that path and below alone.
  abbrev pub ChangesAt : FilePath → Disk → Disk → Type 0
  ChangesAt p d d' =
      HasNoLinks d' × ((q : FilePath) → starts_with q p ≡ false → look d' q ≡ look d q)

  -- What the calls of tokio::fs do in a tree without links.
  pub record CallsKeep : Type 0 where
    pub create_dir_keeps :
        (d : Disk) (p : FilePath)
        → HasNoLinks d
        → starts_with p root ≡ true
        → ChangesAt p d (sys.create_dir d p).1
    pub copy_keeps :
        (d : Disk) (src p : FilePath)
        → HasNoLinks d
        → starts_with p root ≡ true
        → ChangesAt p d (sys.copy d src p).1
    pub remove_dir_all_keeps :
        (d : Disk) (p : FilePath)
        → HasNoLinks d
        → starts_with p root ≡ true
        → ChangesAt p d (sys.remove_dir_all d p).1
    pub remove_file_keeps :
        (d : Disk) (p : FilePath)
        → HasNoLinks d
        → starts_with p root ≡ true
        → ChangesAt p d (sys.remove_file d p).1
    pub rename_keeps :
        (d : Disk) (p p' : FilePath)
        → HasNoLinks d
        → starts_with p root ≡ true
        → starts_with p' root ≡ true
        → HasNoLinks (sys.rename d p p').1
          × ((q : FilePath)
              → starts_with q p ≡ false
              → starts_with q p' ≡ false
              → look (sys.rename d p p').1 q ≡ look d q)

  -- What is at a path is as it was, and there is still no link.
  abbrev pub Kept : FilePath → Disk → Disk → Type 0
  Kept q d d' = HasNoLinks d → HasNoLinks d' × (look d' q ≡ look d q)

  pub Kept-same : {q : FilePath} {d : Disk} → Kept q d d
  Kept-same h = (h, refl)

  pub Kept-after : {q : FilePath} {d d' d'' : Disk} → Kept q d' d'' → Kept q d d' → Kept q d d''
  Kept-after later first h =
      let (links, e) = first h in let (links', e') = later links in (links', e' ∙ e)

  pub Kept-by :
      (p : FilePath) {q : FilePath} {d d' : Disk}
      → (HasNoLinks d → ChangesAt p d d')
      → starts_with q p ≡ false
      → Kept q d d'
  Kept-by p {q = q} call outside h = let (links, same) = call h in (links, same q outside)

  module _ (calls : CallsKeep) (q : FilePath) where
    -- a destination under the root that does not hold the path
    abbrev pub IsAway : FilePath → Type 0
    IsAway dest = (starts_with q dest ≡ false) × (starts_with dest root ≡ true)

    abbrev Avoids : FilePath × FilePath → Type 0
    Avoids (src, dest) = IsAway dest

    member-IsAway :
        (dir : FilePath) (name : Bytes) → IsAway dir → IsAway (join dir (normal name ∷ []))
    member-IsAway dir name (outside, inside) =
        (member-outside q dir name outside, member-inside dir name root inside)

    copy_entry-keeps :
        (entry_src entry_dest : FilePath) (type : Option FileType) (disk : Disk)
        → IsAway entry_dest
        → Kept q disk (copy_entry sys entry_src entry_dest type disk).1
    unfolding copy_entry
    copy_entry-keeps entry_src entry_dest none disk h = Kept-same
    copy_entry-keeps entry_src entry_dest (some type_dir) disk h =
        Kept-by _ (λ links. calls.create_dir_keeps disk entry_dest links h.1) h.0
    copy_entry-keeps entry_src entry_dest (some type_symlink) disk h = Kept-same
    copy_entry-keeps entry_src entry_dest (some type_other) disk h =
        Kept-by _ (λ links. calls.copy_keeps disk entry_src entry_dest links h.1) h.0

    copy_entry-Avoids :
        (entry_src entry_dest : FilePath) (type : Option FileType) (disk : Disk)
        (dirs : List (FilePath × FilePath))
        → IsAway entry_dest
        → (copy_entry sys entry_src entry_dest type disk).0 ≡ some dirs
        → All Avoids dirs
    unfolding copy_entry
    copy_entry-Avoids entry_src entry_dest none disk dirs h e = cc
    copy_entry-Avoids entry_src entry_dest (some type_dir) disk dirs h e =
        elim (Bool-cases (made sys (sys.create_dir disk entry_dest).0)) [
          | inl done ↦
              let same : (entry_src, entry_dest) ∷ [] ≡ dirs = ground (arith, rw done at e) in
              rw (← same) (h, tt)
          | inr undone ↦ ground (arith, rw undone at e)
        ]
    copy_entry-Avoids entry_src entry_dest (some type_symlink) disk dirs h e =
        let same : [] ≡ dirs = ground arith in rw (← same) tt
    copy_entry-Avoids entry_src entry_dest (some type_other) disk dirs h e =
        elim (Bool-cases (is_done (sys.copy disk entry_src entry_dest).0)) [
          | inl done ↦ let same : [] ≡ dirs = ground (arith, rw done at e) in rw (← same) tt
          | inr undone ↦ ground (arith, rw undone at e)
        ]

    copy_entries-keeps :
        (src_dir dest_dir : FilePath) (entries : List (Option DirEntry)) (disk : Disk)
        → IsAway dest_dir
        → Kept q disk (copy_entries sys src_dir dest_dir entries disk).1
    unfolding copy_entries
    copy_entries-keeps src_dir dest_dir [] disk h = Kept-same
    copy_entries-keeps src_dir dest_dir (none ∷ entries) disk h = Kept-same
    copy_entries-keeps src_dir dest_dir (some e ∷ entries) disk h =
        let name = normal e.name ∷ [] in
        let outside = member-IsAway dest_dir e.name h in
        let one =
          copy_entry-keeps (join src_dir name) (join dest_dir name) e.file_type disk outside in
        let (pushed, disk') =
          copy_entry sys (join src_dir name) (join dest_dir name) e.file_type disk in
        elim (Option-cases pushed) [
          | inl stuck ↦ rw (stuck, copy_entries) one
          | inr (dirs, found) ↦
              rw (found, copy_entries)
                (Kept-after (copy_entries-keeps src_dir dest_dir entries disk' h) one)
        ]

    copy_entries-Avoids :
        (src_dir dest_dir : FilePath) (entries : List (Option DirEntry)) (disk : Disk)
        (found : List (FilePath × FilePath))
        → IsAway dest_dir
        → (copy_entries sys src_dir dest_dir entries disk).0 ≡ some found
        → All Avoids found
    unfolding copy_entries
    copy_entries-Avoids src_dir dest_dir [] disk found h k =
        let same : [] ≡ found = ground arith in rw (← same) tt
    copy_entries-Avoids src_dir dest_dir (none ∷ entries) disk found h k = cc
    copy_entries-Avoids src_dir dest_dir (some e ∷ entries) disk found h k =
        let name = normal e.name ∷ [] in
        let (pushed, disk') =
          copy_entry sys (join src_dir name) (join dest_dir name) e.file_type disk in
        elim (Option-cases pushed) [
          | inl stuck ↦ ground (arith, rw (stuck, copy_entries) at k)
          | inr (dirs, e') ↦
              elim (Option-cases (copy_entries sys src_dir dest_dir entries disk').0) [
                | inl stuck ↦ ground (arith, rw (e', stuck, copy_entries) at k)
                | inr (more, f) ↦
                    let sum : some (dirs ++ more) ≡ some found = rw (e', f, copy_entries) at k in
                    let same : dirs ++ more ≡ found = ground arith in
                    let outside = member-IsAway dest_dir e.name h in
                    rw (← same) (
                      All-append Avoids dirs more
                        (copy_entry-Avoids _ _ e.file_type disk dirs outside e')
                        (copy_entries-Avoids src_dir dest_dir entries disk' more h f))
              ]
        ]

    All-reverse_aux :
        (xs ys : List (FilePath × FilePath))
        → All Avoids xs
        → All Avoids ys
        → All Avoids (reverse_aux xs ys)
    All-reverse_aux [] ys h k = k
    All-reverse_aux (x ∷ xs) ys (here, h) k = All-reverse_aux xs (x ∷ ys) h (here, k)

    copy_stack-keeps :
        (fuel : ℕ) (stack : List (FilePath × FilePath)) (disk : Disk) (r : Result (Unit {0}))
        (disk' : Disk)
        → All Avoids stack
        → copy_stack sys fuel stack disk ≡ some (r, disk')
        → Kept q disk disk'
    unfolding copy_stack
    copy_stack-keeps fuel [] disk r disk' h e =
        let same : disk ≡ disk' = ground arith in rw (← same) Kept-same
    copy_stack-keeps zero (dir ∷ stack) disk r disk' h e = cc
    copy_stack-keeps (suc fuel) ((src_dir, dest_dir) ∷ stack) disk r disk' (here, h) e =
        elim (Option-cases (sys.read_dir disk src_dir)) [
          | inl unread ↦
              let same : disk ≡ disk' = ground (arith, rw (unread, copy_stack) at e) in
              rw (← same) Kept-same
          | inr (entries, opened) ↦
              let kept_so = copy_entries-keeps src_dir dest_dir entries disk here in
              let (dirs, disk'') = copy_entries sys src_dir dest_dir entries disk in
              elim (Option-cases dirs) [
                | inl stuck ↦
                    let same : disk'' ≡ disk' =
                      ground (arith, rw (opened, stuck, copy_stack) at e) in
                    rw (← same) kept_so
                | inr (found, f) ↦
                    Kept-after
                      (copy_stack-keeps fuel (reverse found ++ stack) disk'' r disk'
                        (All-append Avoids (reverse found) stack
                          (All-reverse_aux found []
                            (copy_entries-Avoids src_dir dest_dir entries disk found here f) tt)
                          h)
                        (rw (opened, f, copy_stack) at e))
                      kept_so
              ]
        ]

    -- The copy of a directory changes nothing outside of its destination.
    pub copy_dir-keeps :
        (fuel : ℕ) (src dest : FilePath) (dest_existed : Bool) (disk : Disk) (r : Result (Unit {0}))
        (disk' : Disk)
        → IsAway dest
        → copy_dir sys fuel src dest dest_existed disk ≡ some (r, disk')
        → Kept q disk disk'
    unfolding copy_dir
    copy_dir-keeps fuel src dest true disk r disk' h e =
        copy_stack-keeps fuel ((src, dest) ∷ []) disk r disk' (h, tt) e
    copy_dir-keeps fuel src dest false disk r disk' h e =
        Kept-after (made_dir (sys.create_dir disk dest).0 (sys.create_dir disk dest).1 e)
          (Kept-by _ (λ links. calls.create_dir_keeps disk dest links h.1) h.0)
      where
        made_dir :
            (o : IoOutcome) (d : Disk)
            → (elim o as (λ x. Option (Result (Unit {0}) × Disk)) [
              | io_done ↦ copy_stack sys fuel ((src, dest) ∷ []) d
              | _ ↦ some (err internal_server_error, d)
            ])
              ≡ some (r, disk')
            → Kept q d disk'
        made_dir io_done d k = copy_stack-keeps fuel ((src, dest) ∷ []) d r disk' (h, tt) k
        made_dir io_exists d k = let same : d ≡ disk' = ground arith in rw (← same) Kept-same
        made_dir io_failed d k = let same : d ≡ disk' = ground arith in rw (← same) Kept-same
