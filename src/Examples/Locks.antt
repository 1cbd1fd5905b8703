-- ===== src/Examples/Locks.antt =====
-- Locks: the theorems on the lock store and the LOCK and UNLOCK handlers, at concrete stores.
use rshs.Common.{
  [], any, arith, bytes_eq, bytes_key, codes, false, if◌then◌else◌, not, refl, retain, true, ◌==◌,
  ◌↔◌, ◌≡◌, ◌⊎◌,
}
use rshs.Examples.{exclusive_request, file_f, folder_d, one_lock, served, token_t}
use rshs.FilePath.{FilePath, component_eq, path_key, starts_with}
use rshs.Http.{err, forbidden, no_content, ok}
use rshs.IfHeader.{eval_if}
use rshs.Lock.{LockInfo}
use rshs.Lock.Token.{generate_lock_token}
use rshs.LockHandler.{lock_acquire, lock_commit, new_lock, unlock}
use rshs.LockHandler.Exclusive.{unlock_iff}
use rshs.LockStore.{has_infinity, is_ancestor_of, is_path_locked, walk_locked_ancestors}
use rshs.LockStore.Ancestor.{IsBelow, is_ancestor_of_iff}
use rshs.LockStore.Enforced.{blocks, is_path_locked_iff}
use rshs.LockStore.Strategies.{IsRooted, walk_locked_ancestors_iff}
use rshs.LockStore.Walk.{IsFound}
use rshs.Locking.{Reach, System, acquire, cleanup_locks, commit, reach_after, reach_here, tick}
use rshs.Locking.Cleanup.{cleanup_locks-is_path_locked}
use rshs.Locking.Invariant.{IsConsistent, Reach-IsConsistent}
use rshs.Map.{get, nat_key, or_default}
use rshs.Map.Laws.{HasDistinctKeys}

abbrev final : System
final = record {
  clock = 3;
  locks =
      (lock_commit (λ n. n) (lock_acquire (λ n. n) [] file_f exclusive_request 0).1 file_f
        exclusive_request 3).1;
}

empty_IsConsistent : IsConsistent 0 []
unfolding get
empty_IsConsistent = record { distinct = tt; compatible = λ p infos e. cc }

run : Reach (λ n. n) (record { clock = 0; locks = [] }) final
run =
    reach_after
      (reach_after (reach_after reach_here (acquire _ file_f exclusive_request)) (tick _ 3))
      (commit _ file_f exclusive_request)

Reach-IsConsistent_example : IsConsistent 3 final.locks
Reach-IsConsistent_example = Reach-IsConsistent empty_IsConsistent run

pub one_lock_distinct : HasDistinctKeys one_lock
unfolding get
one_lock_distinct = (refl, tt)

pub one_lock-IsRooted : IsRooted served one_lock
unfolding starts_with component_eq bytes_eq
one_lock-IsRooted = (((tt, (tt, tt)), refl), tt)

is_path_locked_iff_example : (is_path_locked 6 one_lock file_f [] served (codes "/d/f") ≡ true) ↔ (
    (eval_if 6 [] (or_default (get one_lock file_f)) (codes "/d/f") ≡ false)
    ⊎ IsFound (blocks 6 [] (codes "/d/f")) one_lock file_f)
is_path_locked_iff_example =
    is_path_locked_iff 6 one_lock file_f served [] (codes "/d/f") one_lock_distinct
      one_lock-IsRooted (tt, (tt, (tt, tt)))

walk_locked_ancestors_iff_example :
    (walk_locked_ancestors one_lock file_f served has_infinity ≡ true)
    ↔ IsFound has_infinity one_lock file_f
walk_locked_ancestors_iff_example =
    walk_locked_ancestors_iff has_infinity one_lock served file_f one_lock_distinct
      one_lock-IsRooted (tt, (tt, (tt, tt))) (λ infos e. e)

is_ancestor_of_iff_example : (is_ancestor_of folder_d file_f ≡ true) ↔ IsBelow file_f folder_d
is_ancestor_of_iff_example = is_ancestor_of_iff folder_d file_f (tt, (tt, tt)) (tt, (tt, (tt, tt)))

cleanup_locks-is_path_locked_example :
    is_path_locked 200 (cleanup_locks 150 one_lock) file_f [] served (codes "/d/f")
    ≡ is_path_locked 200 one_lock file_f [] served (codes "/d/f")
cleanup_locks-is_path_locked_example =
    cleanup_locks-is_path_locked 150 200 (omega arith) one_lock one_lock_distinct [] (codes "/d/f")
      file_f served one_lock-IsRooted (tt, (tt, (tt, tt)))

abbrev committed : LockInfo
committed = new_lock exclusive_request (generate_lock_token (λ n. n) 5) 5

unlock_iff_example :
    (((unlock one_lock folder_d token_t).0 ≡ ok no_content)
      ↔ (any (λ l. l.token == token_t) (or_default (get one_lock folder_d)) ≡ true))
    × (((unlock one_lock folder_d token_t).0 ≡ ok no_content)
        ⊎ ((unlock one_lock folder_d token_t).0 ≡ err forbidden))
    × ((j : FilePath)
        → or_default (get (unlock one_lock folder_d token_t).1 j) ≡ (
            if folder_d == j
            then retain (λ l. not (l.token == token_t)) (or_default (get one_lock j))
            else or_default (get one_lock j)))
unlock_iff_example = unlock_iff one_lock folder_d token_t
