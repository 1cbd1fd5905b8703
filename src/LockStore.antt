-- ===== src/LockStore.antt =====
-- Finding locks on the ancestors of a path: `walk_locked_ancestors`, `is_ancestor_of`,
-- `find_ancestor_lock` and `find_and_refresh_ancestor_lock` of src/webdav/ls.rs, and
-- `is_path_locked` of src/middleware/lock.rs.
pub mod Ancestor
pub mod Walk
pub mod Strategies
pub mod Enforced
pub mod Expiry
pub mod Found
use rshs.Common.{
  Bool, Bytes, List, Option, [], any, bytes_key, codes, eqb, false, find, if◌then◌else◌, is_empty,
  leb, length, none, not, retain, some, suc, true, zero, ℕ, ◌&&◌, ◌==◌, ◌||◌, ◌∷◌,
}
use rshs.FilePath.{FilePath, as_encoded_bytes, parent, path_key, starts_with}
use rshs.IfHeader.{IfList, eval_if}
use rshs.Lock.{LockInfo, LockStore, active_slice, is_expired, is_infinity}
use rshs.Map.{get, insert, nat_key, or_default}

abbrev pub root_bytes : Bytes
root_bytes = codes "/"

-- `bytes[i]` with the bounds check that the source relies on: `none` is a panic
unfoldable pub get_byte : Bytes → ℕ → Option ℕ
get_byte [] i = none
get_byte (c ∷ s) zero = some c
get_byte (c ∷ s) (suc i) = get_byte s i

abbrev is_slash : Option ℕ → Bool
is_slash none = false
is_slash (some c) = eqb c b'/'

unfoldable pub is_ancestor_of : FilePath → FilePath → Bool
unfolding as_encoded_bytes get_byte
is_ancestor_of ancestor target =
    let an = as_encoded_bytes ancestor in
    let ta = as_encoded_bytes target in
    if is_empty an || leb (length ta) (length an)
    then false
    else if not (starts_with target ancestor)
    then false
    else if an == root_bytes
    then true
    else is_slash (get_byte ta (length an))

unfoldable pub has_infinity : List LockInfo → Bool
has_infinity infos = any (λ l. is_infinity l.depth) infos

-- The first strategy: over the entries that hold a lock of infinite depth.
unfoldable pub walk_entries : (List LockInfo → Bool) → FilePath → LockStore → Bool
walk_entries f target [] = false
walk_entries f target ((lock_path, infos) ∷ rest) =
    (is_ancestor_of lock_path target && f infos) || walk_entries f target rest

-- `if let Some(infos) = locks.get(parent) && f(infos)`
abbrev pub holds_at : (List LockInfo → Bool) → Option (List LockInfo) → Bool
holds_at f none = false
holds_at f (some infos) = f infos

-- The second strategy: up the parents of the target while they stay below the root. Each round
-- takes one component off, so the length of the target is fuel enough.
unfoldable pub walk_parents :
    ℕ → (List LockInfo → Bool) → LockStore → FilePath → Option FilePath → Bool
walk_parents zero f locks root current = false
walk_parents (suc fuel) f locks root none = false
walk_parents (suc fuel) f locks root (some p) =
    let rest = walk_parents fuel f locks root (parent p) in
    if not (starts_with p root) then false else if holds_at f (get locks p) then true else rest

abbrev pub infinity_entries : LockStore → LockStore
infinity_entries locks = retain (λ e. has_infinity e.1) locks

unfoldable pub walk_locked_ancestors :
    LockStore → FilePath → FilePath → (List LockInfo → Bool) → Bool
unfolding walk_entries has_infinity walk_parents
walk_locked_ancestors locks target root_canonical f =
    let inf_entries = infinity_entries locks in
    let up = walk_parents (length target) f locks root_canonical (parent target) in
    if is_empty locks
    then false
    else if is_empty inf_entries
    then false
    else if leb (length inf_entries) 10
    then walk_entries f target inf_entries
    else up

-- `is_path_locked` of the lock middleware
unfoldable pub is_path_locked : ℕ → LockStore → FilePath → List IfList → FilePath → Bytes → Bool
is_path_locked now locks path lists root_canonical request_path =
    if not (eval_if now lists (or_default (get locks path)) request_path)
    then true
    else walk_locked_ancestors locks path root_canonical (λ infos.
      any (λ l. is_infinity l.depth) (active_slice now infos)
      && not (eval_if now lists infos request_path))

-- The lock that `find_and_refresh_ancestor_lock` is looking for.
unfoldable pub is_match : ℕ → (LockInfo → Bool) → LockInfo → Bool
is_match now predicate l = is_infinity l.depth && not (is_expired now l) && predicate l

-- `lock.created = SystemTime::now()` at the first lock that matches
unfoldable pub refresh_first : ℕ → (LockInfo → Bool) → List LockInfo → List LockInfo
unfolding is_match
refresh_first now predicate [] = []
refresh_first now predicate (l ∷ infos) =
    let rest = refresh_first now predicate infos in
    if is_match now predicate l then record l { created = now } ∷ infos else l ∷ rest

-- `candidate_paths`
unfoldable pub candidates : ℕ → FilePath → LockStore → List FilePath
candidates now target [] = []
candidates now target ((path, infos) ∷ rest) =
    let others = candidates now target rest in
    if any (λ l. is_infinity l.depth && not (is_expired now l)) infos && is_ancestor_of path target
    then path ∷ others
    else others

-- The loop over the candidates.
unfoldable pub refresh_candidates :
    ℕ → (LockInfo → Bool) → LockStore → List FilePath → Option LockInfo × LockStore
unfolding refresh_first
refresh_candidates now predicate locks [] = (none, locks)
refresh_candidates now predicate locks (path ∷ rest) =
    let others = refresh_candidates now predicate locks rest in
    elim (find (is_match now predicate) (or_default (get locks path))) [
      | none ↦ others
      | some l ↦ (
        some (record l { created = now }),
        insert locks path (refresh_first now predicate (or_default (get locks path))),
      )
    ]

unfoldable pub find_and_refresh_ancestor_lock :
    ℕ → LockStore → FilePath → (LockInfo → Bool) → Option LockInfo × LockStore
unfolding refresh_candidates candidates
find_and_refresh_ancestor_lock now locks target predicate =
    refresh_candidates now predicate locks (candidates now target locks)
