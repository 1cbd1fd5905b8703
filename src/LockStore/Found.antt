-- ===== src/LockStore/Found.antt =====
-- `find_ancestor_lock` of src/webdav/ls.rs: the walk of `walk_locked_ancestors` with a closure that
-- leaves the lock it stops at in `result`.
use rshs.Common.{
  Bool, List, Option, [], arith, bytes_key, find, if◌then◌else◌, is_empty, is_some, leb, length,
  none, not, refl, some, suc, zero, ℕ, ◌||◌, ◌∷◌, ◌≡◌,
}
use rshs.FilePath.{FilePath, parent, path_key, starts_with}
use rshs.Lock.{LockInfo, LockStore}
use rshs.LockStore.{
  holds_at, infinity_entries, is_ancestor_of, is_match, walk_entries, walk_locked_ancestors,
  walk_parents,
}
use rshs.Map.{get, nat_key}

-- The closure: `some` where it sets `result` and returns `true`, `none` where it returns `false`.
unfoldable found_in : ℕ → (LockInfo → Bool) → List LockInfo → Option LockInfo
unfolding is_match
found_in now predicate infos = find (is_match now predicate) infos

abbrev first_found : Option LockInfo → Option LockInfo → Option LockInfo
first_found none later = later
first_found (some l) later = some l

-- `if let Some(infos) = locks.get(parent) && f(infos)`
abbrev found_at : (List LockInfo → Option LockInfo) → Option (List LockInfo) → Option LockInfo
found_at f none = none
found_at f (some infos) = f infos

unfoldable found_entries :
    (List LockInfo → Option LockInfo) → FilePath → LockStore → Option LockInfo
found_entries f target [] = none
found_entries f target ((lock_path, infos) ∷ rest) =
    let later = found_entries f target rest in
    if is_ancestor_of lock_path target then first_found (f infos) later else later

unfoldable found_parents :
    ℕ → (List LockInfo → Option LockInfo) → LockStore → FilePath → Option FilePath → Option LockInfo
found_parents zero f locks root current = none
found_parents (suc fuel) f locks root none = none
found_parents (suc fuel) f locks root (some p) =
    let later = found_parents fuel f locks root (parent p) in
    if not (starts_with p root)
    then none
    else elim (get locks p) [ none ↦ later | some infos ↦ first_found (f infos) later ]

unfoldable find_ancestor_lock :
    ℕ → LockStore → FilePath → FilePath → (LockInfo → Bool) → Option LockInfo
unfolding found_in found_entries found_parents
find_ancestor_lock now locks target root_canonical predicate =
    let inf_entries = infinity_entries locks in
    let up =
      found_parents (length target) (found_in now predicate) locks root_canonical (parent target) in
    if is_empty locks
    then none
    else if is_empty inf_entries
    then none
    else if leb (length inf_entries) 10
    then found_entries (found_in now predicate) target inf_entries
    else up

is_some-first_found : (a b : Option LockInfo) → is_some (first_found a b) ≡ (is_some a || is_some b)
is_some-first_found none b = refl
is_some-first_found (some l) b = refl

is_some-found_at :
    (f : List LockInfo → Option LockInfo) (entry : Option (List LockInfo))
    → is_some (found_at f entry) ≡ holds_at (λ infos. is_some (f infos)) entry
is_some-found_at f none = refl
is_some-found_at f (some infos) = refl

is_some-found_entries :
    (f : List LockInfo → Option LockInfo) (target : FilePath) (locks : LockStore)
    → is_some (found_entries f target locks)
      ≡ walk_entries (λ infos. is_some (f infos)) target locks
unfolding found_entries walk_entries
is_some-found_entries f target [] = refl
is_some-found_entries f target ((p, infos) ∷ rest) =
    let ih = is_some-found_entries f target rest in
    let first = is_some-first_found (f infos) (found_entries f target rest) in
    ground (arith, ih, first)

is_some-found_parents :
    (fuel : ℕ) (f : List LockInfo → Option LockInfo) (locks : LockStore) (root : FilePath)
    (current : Option FilePath)
    → is_some (found_parents fuel f locks root current)
      ≡ walk_parents fuel (λ infos. is_some (f infos)) locks root current
unfolding found_parents walk_parents
is_some-found_parents zero f locks root current = refl
is_some-found_parents (suc fuel) f locks root none = refl
is_some-found_parents (suc fuel) f locks root (some p) =
    let ih = is_some-found_parents fuel f locks root (parent p) in
    let here = is_some-found_at f (get locks p) in
    let first =
      is_some-first_found (found_at f (get locks p)) (found_parents fuel f locks root (parent p)) in
    ground (arith, ih, here, first)

-- A lock is found exactly where `walk_locked_ancestors` answers `true` for a closure that tests
-- for one.
is_some-find_ancestor_lock :
    (now : ℕ) (locks : LockStore) (target root : FilePath) (predicate : LockInfo → Bool)
    → is_some (find_ancestor_lock now locks target root predicate)
      ≡ walk_locked_ancestors locks target root (λ infos. is_some (found_in now predicate infos))
unfolding find_ancestor_lock walk_locked_ancestors
is_some-find_ancestor_lock now locks target root predicate =
    let few = is_some-found_entries (found_in now predicate) target (infinity_entries locks) in
    let many =
      is_some-found_parents (length target) (found_in now predicate) locks root (parent target) in
    ground (arith, few, many)
