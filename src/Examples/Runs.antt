-- ===== src/Examples/Runs.antt =====
-- Runs of the lock system and of the server: the theorems on who may take a lock away, on a store
-- with one exclusive lock.
use rshs.Common.{
  Bool-cases, IsIn, List, [], any, arith, bytes_eq, bytes_key, false, inl, inr, none, refl, retain,
  some, ◌==◌, ◌∷◌, ◌≡◌,
}
use rshs.Examples.{
  exclusive_lock, exclusive_request, file_f, folder_d, one_lock, still_platform, token_t,
}
use rshs.Examples.Access.{plain_crates}
use rshs.Examples.Gate.{ann_put, calm, one_server}
use rshs.Examples.Locks.{one_lock_distinct}
use rshs.FilePath.{FilePath, component_eq, path_eq, path_key}
use rshs.Headers.{parse_lock_token_header}
use rshs.Http.{header_text}
use rshs.IfHeader.{contains}
use rshs.IfHeader.Parse.{parse_if_header}
use rshs.Lock.{LockInfo, LockStore, active_slice, is_expired}
use rshs.LockHandler.{LockRequest, lock_acquire}
use rshs.LockHandler.Handlers.{positive_tokens_all}
use rshs.Locking.{Reach, System, acquire, reach_after, reach_here, tick}
use rshs.Locking.Compatible.{IsCompatible, IsCompatible-one}
use rshs.Locking.Held.{Along, IsForeign, held_until_expiry}
use rshs.Locking.Invariant.{IsConsistent}
use rshs.Locking.Refines.{Step-Allows}
use rshs.Locking.Runs.{Ran, Ran-wait}
use rshs.Locking.Spec.{Allows, given, lock_asked, view}
use rshs.Map.{get, nat_key, or_default}
use rshs.Server.{run_request}
use rshs.Server.Held.{IsForeignTo, run_request-held}
use rshs.Server.Locks.{run_request-Ran}
use rshs.Server.Runs.{IsOrderly, moment}

IsCompatible-one_lock :
    (p : FilePath) (infos : List LockInfo) → get one_lock p ≡ some infos → IsCompatible 5 infos
unfolding get
IsCompatible-one_lock p infos e = elim (Bool-cases (folder_d == p)) [
  | inr other ↦ let nothing : none ≡ some infos = rw other at e in cc
  | inl same ↦
      let stored : some (exclusive_lock ∷ []) ≡ some infos = rw same at e in
      let there : exclusive_lock ∷ [] ≡ infos = cc in
      rw (← there) (IsCompatible-one 5 exclusive_lock)
]

one_lock-IsConsistent : IsConsistent 5 one_lock
one_lock-IsConsistent = record { distinct = one_lock_distinct; compatible = IsCompatible-one_lock }

abbrev owner_request : LockRequest
owner_request = record exclusive_request { if_tokens = token_t ∷ [] }

-- The owner's LOCK below the folder renews the folder's lock.
Step-Allows_example :
    Allows
      (λ n. n)
      (view (moment 5 one_lock))
      (view (moment 5 (lock_acquire (λ n. n) one_lock file_f owner_request 5).1))
      (lock_asked file_f owner_request
        (given (lock_acquire (λ n. n) one_lock file_f owner_request 5).0))
Step-Allows_example =
    Step-Allows {hash = λ n. n} (acquire (moment 5 one_lock) file_f owner_request)
      one_lock-IsConsistent

abbrev after_foreign : System
after_foreign = moment 9 (lock_acquire (λ n. n) one_lock folder_d exclusive_request 5).1

foreign_run : Reach (λ n. n) (moment 5 one_lock) after_foreign
foreign_run =
    reach_after (reach_after reach_here (acquire (moment 5 one_lock) folder_d exclusive_request))
      (tick _ 4)

held_at_5 : IsIn exclusive_lock ((view (moment 5 one_lock)).held folder_d)
unfolding get path_eq component_eq bytes_eq active_slice retain is_expired
held_at_5 = inl refl

alive_at_9 : is_expired 9 exclusive_lock ≡ false
unfolding is_expired
alive_at_9 = refl

foreign_tokens : Along (IsForeign token_t) foreign_run
unfolding contains any foreign_run
foreign_tokens = ((tt, refl), tt)

held_until_expiry_example : IsIn exclusive_lock ((view after_foreign).held folder_d)
held_until_expiry_example =
    held_until_expiry exclusive_lock folder_d one_lock-IsConsistent foreign_run foreign_tokens
      held_at_5 alive_at_9

ann-IsForeignTo : IsForeignTo token_t ann_put.headers
unfolding parse_if_header positive_tokens_all contains any header_text parse_lock_token_header
    bytes_eq
ann-IsForeignTo = record { unconditional = refl; unreleased = λ t e. cc }

waiting : (locks : LockStore) → Ran (λ n. n) (IsForeign token_t) (moment 5 locks) (moment 9 locks)
waiting locks = Ran-wait (IsForeign token_t) (λ n. tt) 5 9 locks (omega arith)

run_request-held_example :
    let locks' = (run_request still_platform plain_crates calm ann_put one_server).1.app.locks in
    IsConsistent 9 locks' × IsIn exclusive_lock (active_slice 9 (or_default (get locks' folder_d)))
run_request-held_example =
    run_request-held still_platform plain_crates calm ann_put one_server exclusive_lock folder_d
      one_lock-IsConsistent held_at_5 ann-IsForeignTo (omega arith) waiting alive_at_9

calm-IsOrderly : IsOrderly still_platform calm (λ a. Unit) ann_put.headers
calm-IsOrderly = record {
  ticks = λ n. tt;
  locks_own = λ target q reply e. tt;
  unlocks_own = λ p token e. tt;
  ordered = omega arith;
  others = λ locks. Ran-wait (λ a. Unit) (λ n. tt) 5 9 locks (omega arith);
}

run_request-Ran_example :
    Ran
      (λ n. n)
      (λ a. Unit)
      (moment 5 one_lock)
      (moment 9 (run_request still_platform plain_crates calm ann_put one_server).1.app.locks)
run_request-Ran_example =
    run_request-Ran still_platform plain_crates calm (λ a. Unit) ann_put one_server calm-IsOrderly
