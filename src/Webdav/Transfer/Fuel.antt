-- ===== src/Webdav/Transfer/Fuel.antt =====
-- The walk of `copy_dir` of src/handlers/webdav.rs ends where the directories below one have a bound.
use rshs.App.{
  DirEntry, FileType, IoOutcome, Platform, io_done, io_exists, io_failed, type_dir, type_other,
  type_symlink,
}
use rshs.Common.{
  Bool, List, Option, Option-cases, [], arith, false, inl, inr, none, refl, reverse, some, suc,
  true, zero, ℕ, ◌++◌, ◌+◌, ◌<◌, ◌∷◌, ◌≡◌, ◌≤◌,
}
use rshs.FilePath.{FilePath, join, normal}
use rshs.Http.{Result, err, internal_server_error}
use rshs.Webdav.Stacks.{no_weight, stack_weight, stack_weight-append, stack_weight-push}
use rshs.Webdav.Transfer.{copy_dir, copy_entries, copy_entry, copy_stack}

module _ {Disk : Type 0} (sys : Platform Disk) (weight : FilePath → ℕ) where
  -- what the directories among the entries of a directory weigh
  unfoldable pub type_weight : FilePath → Option FileType → ℕ
  type_weight p (some type_dir) = suc (weight p)
  type_weight p _ = 0

  unfoldable pub entries_weight : FilePath → List (Option DirEntry) → ℕ
  unfolding type_weight
  entries_weight p [] = 0
  entries_weight p (none ∷ entries) = entries_weight p entries
  entries_weight p (some e ∷ entries) =
      type_weight (join p (normal e.name ∷ [])) e.file_type + entries_weight p entries

  copy_entry-weight :
      (entry_src entry_dest : FilePath) (type : Option FileType) (disk : Disk)
      (dirs : List (FilePath × FilePath))
      → (copy_entry sys entry_src entry_dest type disk).0 ≡ some dirs
      → stack_weight weight dirs ≤ type_weight entry_src type
  unfolding copy_entry stack_weight type_weight
  copy_entry-weight entry_src entry_dest none disk dirs h = cc
  copy_entry-weight entry_src entry_dest (some type_dir) disk dirs h = ground arith
  copy_entry-weight entry_src entry_dest (some type_symlink) disk dirs h = ground arith
  copy_entry-weight entry_src entry_dest (some type_other) disk dirs h = ground arith

  -- The directories that are found weigh no more than the entries.
  copy_entries-weight :
      (src_dir dest_dir : FilePath) (entries : List (Option DirEntry)) (disk : Disk)
      (found : List (FilePath × FilePath))
      → (copy_entries sys src_dir dest_dir entries disk).0 ≡ some found
      → stack_weight weight found ≤ entries_weight src_dir entries
  unfolding copy_entries stack_weight entries_weight
  copy_entries-weight src_dir dest_dir [] disk found h = ground arith
  copy_entries-weight src_dir dest_dir (none ∷ entries) disk found h = cc
  copy_entries-weight src_dir dest_dir (some e ∷ entries) disk found h =
      let name = normal e.name ∷ [] in
      let (pushed, disk') =
        copy_entry sys (join src_dir name) (join dest_dir name) e.file_type disk in
      elim (Option-cases pushed) [
        | inl stuck ↦ ground (arith, rw (stuck, copy_entries) at h)
        | inr (dirs, e') ↦ elim (Option-cases (copy_entries sys src_dir dest_dir entries disk').0) [
          | inl stuck ↦ ground (arith, rw (e', stuck, copy_entries) at h)
          | inr (more, f) ↦
              let sum : some (dirs ++ more) ≡ some found = rw (e', f, copy_entries) at h in
              let total = stack_weight-append weight dirs more in
              let here_dirs = copy_entry-weight _ _ e.file_type disk dirs e' in
              let later = copy_entries-weight src_dir dest_dir entries disk' more f in
              let same : dirs ++ more ≡ found = ground arith in
              rw (← same) (omega (arith, total, here_dirs, later))
        ]
      ]

  module _
      (bounded : (disk : Disk) (p : FilePath) (entries : List (Option DirEntry))
        → sys.read_dir disk p ≡ some entries
        → entries_weight p entries ≤ weight p) where
    copy_stack-ends :
        (fuel : ℕ) (stack : List (FilePath × FilePath)) (disk : Disk)
        → stack_weight weight stack ≤ fuel
        → (r : Result (Unit {0}) × Disk) × (copy_stack sys fuel stack disk ≡ some r)
    unfolding copy_stack stack_weight
    copy_stack-ends fuel [] disk h = (_, refl)
    copy_stack-ends zero ((src, dest) ∷ stack) disk h =
        absurd (no_weight (weight src) (stack_weight weight stack) h)
    copy_stack-ends (suc fuel) ((src_dir, dest_dir) ∷ stack) disk h =
        elim (Option-cases (sys.read_dir disk src_dir)) [
          | inl unread ↦ rw (unread, copy_stack) (_, refl)
          | inr (entries, opened) ↦
              let (dirs, disk') = copy_entries sys src_dir dest_dir entries disk in
              elim (Option-cases dirs) [
                | inl stuck ↦ rw (opened, stuck, copy_stack) (_, refl)
                | inr (found, e) ↦
                    rw (opened, e, copy_stack)
                      (copy_stack-ends fuel (reverse found ++ stack) disk' (
                        omega (
                          arith,
                          bounded disk src_dir entries opened,
                          copy_entries-weight src_dir dest_dir entries disk found e,
                          stack_weight-push weight found stack,
                        )))
              ]
        ]

    -- Where every directory weighs at least as much as the directories in it, at every moment, the
    -- copy of a directory ends with a result for every fuel above its weight.
    pub copy_dir-ends :
        (fuel : ℕ) (src dest : FilePath) (dest_existed : Bool) (disk : Disk)
        → weight src < fuel
        → (r : Result (Unit {0}) × Disk) × (copy_dir sys fuel src dest dest_existed disk ≡ some r)
    unfolding copy_dir stack_weight
    copy_dir-ends fuel src dest true disk h =
        copy_stack-ends fuel ((src, dest) ∷ []) disk (ground arith)
    copy_dir-ends fuel src dest false disk h =
        made_dir (sys.create_dir disk dest).0 (sys.create_dir disk dest).1
          (copy_stack-ends fuel ((src, dest) ∷ []) (sys.create_dir disk dest).1 (ground arith))
      where
        made_dir :
            (o : IoOutcome) (d : Disk) {walk : Option (Result (Unit {0}) × Disk)}
            → (r : Result (Unit {0}) × Disk) × (walk ≡ some r)
            → (r : Result (Unit {0}) × Disk) × ((elim o
                  as (λ x. Option (Result (Unit {0}) × Disk)) [
                    | io_done ↦ walk
                    | _ ↦ some (err internal_server_error, d)
                  ])
                ≡ some r)
        made_dir io_done d ends = ends
        made_dir io_exists d ends = (_, refl)
        made_dir io_failed d ends = (_, refl)
