-- ===== src/Webdav/Walk.antt =====
-- `collect_descendants` of src/webdav/fs.rs ends, with what is below the directories of its stack.
use rshs.App.{Platform}
use rshs.Common.{
  AnyOf, AnyOf-append, AnyOf-if, AnyOf-push, Bool, Bytes, IsIn, List, Option-cases, [], arith,
  iff_refl, iff_sym, iff_trans, inl, inr, map, none, reverse, some, suc, sum_absent, sum_assoc,
  sum_cong, sum_swap, zero, ℕ, ◌++◌, ◌↔◌, ◌∷◌, ◌≡◌, ◌⊎◌,
}
use rshs.FilePath.{FilePath}
use rshs.Scan.{DirEntryMeta, batch_read_dir_entries}
use rshs.Webdav.Below.{Below-unread, Below-iff, Pending, Through}
use rshs.Webdav.Entries.{child_entry, collect_descendants, subdirs}
use rshs.Xml.Multistatus.{PropEntry}

module _ {Disk : Type 0} (sys : Platform Disk) (linux : Bool) (disk : Disk) where
  -- The entries that a directory adds, and those that its directories will add.
  Through-iff :
      (e : PropEntry) (dir : FilePath) (href : Bytes) (cs : List DirEntryMeta)
      → AnyOf (Through sys linux disk e dir href) cs ↔ (
          IsIn e (map (child_entry sys linux href) cs)
          ⊎ AnyOf (Pending sys linux disk e) (subdirs sys linux dir href cs))
  unfolding subdirs
  Through-iff e dir href [] = (λ h. inl h, λ h. elim h [ inl k ↦ k | inr k ↦ k ])
  Through-iff e dir href (c ∷ cs) = iff_trans (sum_cong iff_refl (Through-iff e dir href cs)) (
      iff_trans sum_swap (
        sum_cong iff_refl (
          let (found, taken) = AnyOf-if (Pending sys linux disk e) c.is_dir _ _ in (taken, found))))

  -- What the walk of a stack lists, if it ends.
  pub collect_descendants-lists :
      (fuel : ℕ) (stack : List (FilePath × Bytes)) (entries : List PropEntry)
      → collect_descendants sys linux fuel disk stack ≡ some entries
      → (e : PropEntry) → IsIn e entries ↔ AnyOf (Pending sys linux disk e) stack
  unfolding collect_descendants
  collect_descendants-lists fuel [] entries h e =
      let none_left : [] ≡ entries = ground arith in rw (← none_left) iff_refl
  collect_descendants-lists zero (dir ∷ stack) entries h e = cc
  collect_descendants-lists (suc fuel) ((dir, href) ∷ stack) entries h e =
      elim (Option-cases (batch_read_dir_entries sys linux disk dir)) [
        | inl unread ↦
            iff_trans
              (collect_descendants-lists fuel stack entries (rw (unread, collect_descendants) at h)
                e)
              (sum_absent (Below-unread sys linux disk e dir href unread))
        | inr (children, listed) ↦
            let more = subdirs sys linux dir href children in
            elim (Option-cases (collect_descendants sys linux fuel disk (reverse more ++ stack))) [
              | inl out ↦
                  let missing : none ≡ some entries = rw (listed, out, collect_descendants) at h in
                  absurd cc
              | inr (rest, walked) ↦
                  let all_of : map (child_entry sys linux href) children ++ rest ≡ entries =
                    ground (arith, rw (listed, walked, collect_descendants) at h) in
                  rw (← all_of) (
                    iff_trans (AnyOf-append _ (map (child_entry sys linux href) children) rest) (
                      iff_trans
                        (sum_cong iff_refl
                          (collect_descendants-lists fuel (reverse more ++ stack) rest walked e))
                        (iff_trans (sum_cong iff_refl (AnyOf-push _ more stack)) (
                          iff_trans (iff_sym sum_assoc) (
                            sum_cong
                              (iff_sym (
                                iff_trans (Below-iff sys linux disk e dir href children listed)
                                  (Through-iff e dir href children)))
                              iff_refl)))))
            ]
      ]
