-- ===== src/LockStore/Strategies.antt =====
-- `walk_locked_ancestors` as a whole: whichever strategy the number of entries selects, it holds
-- exactly when a lock entry above the target satisfies the predicate.
use rshs.Common.{
  All, Bool, Bool-cases, List, Option-cases, [], arith, bytes_key, false, inl, inr, is_empty, leb,
  length, length-append, refl, some, true, ◌++◌, ◌==◌, ◌↔◌, ◌∷◌, ◌≡◌,
}
use rshs.FilePath.{
  Component, FilePath, cur_dir, normal, parent, parent_dir, path_eq_iff, path_key, root_dir,
  starts_with,
}
use rshs.Lock.{LockInfo, LockStore}
use rshs.LockStore.{
  has_infinity, infinity_entries, walk_entries, walk_locked_ancestors, walk_parents,
}
use rshs.LockStore.Ancestor.{IsBelow, IsCanonical, is_ancestor_of_iff}
use rshs.LockStore.Walk.{
  IsAbove, IsBelow-parent, IsFound, drop_last, get-retain, length-drop_last, parent-append,
  retain-HasDistinctKeys, walk_entries_complete, walk_entries_sound, walk_parents_complete,
  walk_parents_sound,
}
use rshs.Map.{get}
use rshs.Map.Laws.{HasDistinctKeys}

-- Every path of the store is canonical and inside the served root.
abbrev pub IsRooted : FilePath → LockStore → Type 0
IsRooted root locks = All (λ e. IsCanonical e.0 × (starts_with e.0 root ≡ true)) locks

All-get :
    (P : FilePath × List LockInfo → Type 0) (m : LockStore) (p : FilePath) (v : List LockInfo)
    → All P m
    → get m p ≡ some v
    → P (p, v)
unfolding get
All-get P [] p v h e = cc
All-get P ((k, w) ∷ m) p v (here, h) e = elim (Bool-cases (k == p)) [
  | inl same ↦
      let value : w ≡ v = ground arith in rw (← (path_eq_iff k p).0 same) (rw (← value) here)
  | inr other ↦ All-get P m p v h (ground arith)
]

get-ne-empty :
    (m : LockStore) (p : FilePath) (v : List LockInfo) → get m p ≡ some v → is_empty m ≡ false
unfolding get
get-ne-empty [] p v e = cc
get-ne-empty (x ∷ m) p v e = refl

module _ (f : List LockInfo → Bool) (locks : LockStore) (root target : FilePath)
    (distinct : HasDistinctKeys locks) where
  stored_infinity :
      (p : FilePath) (infos : List LockInfo)
      → get (infinity_entries locks) p ≡ some infos
      → get locks p ≡ some infos
  stored_infinity p infos e =
      let by_lookup = get-retain has_infinity locks p distinct in ground (arith, by_lookup)

  infinity_stored :
      (p : FilePath) (infos : List LockInfo)
      → get locks p ≡ some infos
      → has_infinity infos ≡ true
      → get (infinity_entries locks) p ≡ some infos
  infinity_stored p infos e h =
      let by_lookup = get-retain has_infinity locks p distinct in ground (arith, by_lookup)

  IsFound-infinity : IsFound f (infinity_entries locks) target → IsFound f locks target
  IsFound-infinity found = record {
    path = found.path;
    infos = found.infos;
    stored = stored_infinity found.path found.infos found.stored;
    above = found.above;
    holds = found.holds;
  }

  IsAbove-start : IsAbove target (parent target)
  IsAbove-start = elim (Option-cases (parent target)) [
    | inl top ↦ rw top tt
    | inr (q, e) ↦ rw e (IsBelow-parent target q e)
  ]

  walk_sound : walk_locked_ancestors locks target root f ≡ true → IsFound f locks target
  unfolding walk_locked_ancestors
  walk_sound h = elim (Bool-cases (leb (length (infinity_entries locks)) 10)) [
    | inl few ↦ IsFound-infinity (
        walk_entries_sound f target (infinity_entries locks)
          (retain-HasDistinctKeys has_infinity locks distinct) (ground arith))
    | inr many ↦
        walk_parents_sound f locks root target (length target) (parent target) IsAbove-start
          (ground arith)
  ]

  module _ (inside : IsRooted root locks) (canonical : IsCanonical target)
      (needs : (infos : List LockInfo) → f infos ≡ true → has_infinity infos ≡ true) where
    up_complete :
        (p : FilePath) (c : Component) (rest : FilePath) (infos : List LockInfo)
        → target ≡ root_dir ∷ (p ++ c ∷ rest)
        → get locks (root_dir ∷ p) ≡ some infos
        → f infos ≡ true
        → starts_with (root_dir ∷ p) root ≡ true
        → walk_parents (length target) f locks root (parent target) ≡ true
    up_complete p c rest infos e stored good below = rw e (
        rw (parent-append root_dir p c rest) (
          walk_parents_complete f locks root target (length (root_dir ∷ (p ++ c ∷ rest))) p
            (drop_last (c ∷ rest)) infos
            (omega (arith, length-append p (c ∷ rest), length-drop_last c rest)) stored good below))

    up_found :
        IsFound f locks target → walk_parents (length target) f locks root (parent target) ≡ true
    up_found found =
        go found.path found.stored found.above
          (All-get _ locks found.path found.infos inside found.stored)
      where
        go :
            (p : FilePath)
            → get locks p ≡ some found.infos
            → IsBelow target p
            → IsCanonical p × (starts_with p root ≡ true)
            → walk_parents (length target) f locks root (parent target) ≡ true
        go (root_dir ∷ p) stored (c, rest, e) (_, below) =
            up_complete p c rest found.infos e stored found.holds below
        go [] stored above (no_path, below) = elim no_path [ ]
        go (cur_dir ∷ p) stored above (no_path, below) = elim no_path [ ]
        go (parent_dir ∷ p) stored above (no_path, below) = elim no_path [ ]
        go (normal s ∷ p) stored above (no_path, below) = elim no_path [ ]

    entries_found : IsFound f locks target → walk_entries f target (infinity_entries locks) ≡ true
    entries_found found =
        let (path_canonical, _) = All-get _ locks found.path found.infos inside found.stored in
        walk_entries_complete f target (infinity_entries locks) found.path found.infos
          (infinity_stored found.path found.infos found.stored (needs found.infos found.holds))
          ((is_ancestor_of_iff found.path target path_canonical canonical).1 found.above)
          found.holds

    walk_complete : IsFound f locks target → walk_locked_ancestors locks target root f ≡ true
    unfolding walk_locked_ancestors
    walk_complete found =
        let some_lock = get-ne-empty locks found.path found.infos found.stored in
        let some_entry =
          get-ne-empty (infinity_entries locks) found.path found.infos
            (infinity_stored found.path found.infos found.stored (needs found.infos found.holds)) in
        rw some_lock (rw some_entry (ground (arith, entries_found found, up_found found)))

-- The walk, by whichever of its two strategies, holds exactly when a lock entry of the store lies
-- strictly above the target and satisfies `f`. The store has distinct, canonical paths inside the
-- root, the target is canonical, and `f` holds only of entries with a lock of infinite depth.
pub walk_locked_ancestors_iff :
    (f : List LockInfo → Bool) (locks : LockStore) (root target : FilePath)
    → HasDistinctKeys locks
    → IsRooted root locks
    → IsCanonical target
    → ((infos : List LockInfo) → f infos ≡ true → has_infinity infos ≡ true)
    → (walk_locked_ancestors locks target root f ≡ true) ↔ IsFound f locks target
walk_locked_ancestors_iff f locks root target distinct inside canonical needs = (
  walk_sound f locks root target distinct,
  walk_complete f locks root target distinct inside canonical needs,
)
