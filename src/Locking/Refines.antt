-- ===== src/Locking/Refines.antt =====
-- The store that the handlers, the cleanup task and the clock change implements the table of
-- Locking.Spec: each step is one of its actions.
use rshs.Common.{
  Bool, Bool-cases, Bytes, List, Option, [], ap, arith, bytes_key, if◌then◌else◌, inl, inr,
  is_empty, is_empty_iff, none, not, refl, retain, retain-append, retain-retain, retain_comm, some,
  true, ℕ, ◌++◌, ◌==◌, ◌∙◌, ◌∷◌, ◌≡◌,
}
use rshs.FilePath.{FilePath, path_eq_iff, path_key}
use rshs.Http.{Result, err, ok}
use rshs.IfHeader.{contains}
use rshs.Lock.{LockInfo, LockStore, active_slice, is_expired}
use rshs.Lock.Token.{generate_lock_token}
use rshs.LockHandler.{
  LockRequest, TryAcquire, acquire_at, acquired, finish, lock_acquire, lock_commit, needs_lock_null,
  new_lock, or_acquire, unlock,
}
use rshs.LockHandler.Exclusive.{unlock_iff}
use rshs.LockStore.{is_match}
use rshs.Locking.{Step, System, acquire, commit, prune, release, tick}
use rshs.Locking.Cleanup.{active-cleanup_locks}
use rshs.Locking.Compatible.{
  CanTake, IsCompatible, IsCompatible-one, active_slice-later, decide-CanTake,
}
use rshs.Locking.Invariant.{IsCompatible-entry, IsConsistent}
use rshs.Locking.Renews.{Searched, find_and_refresh-Searched}
use rshs.Locking.Spec.{
  Allows, LockTable, action_of, commit_given, elapses, given, grants, keeps_house, lock_asked,
  refuses, releases, renews, unlock_asked, view,
}
use rshs.Locking.Takes.{Takes, decide-Takes}
use rshs.Map.{get, insert, nat_key, or_default}
use rshs.Map.Laws.{get-insert}

held-insert :
    (now : ℕ) (locks : LockStore) (p : FilePath) (entry : List LockInfo) (j : FilePath)
    → active_slice now (or_default (get (insert locks p entry) j))
      ≡ (if p == j then active_slice now entry else active_slice now (or_default (get locks j)))
held-insert now locks p entry j = elim (Bool-cases (p == j)) [
  | inl same ↦ rw (get-insert locks p j entry) (rw same refl)
  | inr other ↦ rw (get-insert locks p j entry) (rw other refl)
]

-- An insert that leaves the active locks of its path leaves the table.
held-insert_same :
    (now : ℕ) (locks : LockStore) (p : FilePath) (entry : List LockInfo)
    → active_slice now entry ≡ active_slice now (or_default (get locks p))
    → (j : FilePath)
    → active_slice now (or_default (get (insert locks p entry) j))
      ≡ active_slice now (or_default (get locks j))
held-insert_same now locks p entry e j = elim (Bool-cases (p == j)) [
  | inl same ↦ held-insert now locks p entry j ∙ rw same (rw (← (path_eq_iff p j).0 same) e)
  | inr other ↦ held-insert now locks p entry j ∙ rw other refl
]

IsCompatible-active :
    (now : ℕ) (infos held : List LockInfo)
    → held ≡ active_slice now infos
    → IsCompatible now infos
    → IsCompatible now held
unfolding active_slice
IsCompatible-active now infos held e h =
    rw e (rw (retain-retain (λ l. not (is_expired now l)) infos) h)

module _ (hash : ℕ → ℕ) (clock : ℕ) (locks : LockStore) (target : FilePath) (q : LockRequest) where
  abbrev before : LockTable
  before = view (record { clock = clock; locks = locks })

  abbrev after : LockStore → LockTable
  after locks' = view (record { clock = clock; locks = locks' })

  abbrev entry_of : List LockInfo
  entry_of = or_default (get locks target)

  self : (target == target) ≡ true
  self = (path_eq_iff target target).1 refl

  taken :
      (entry : List LockInfo) (token : Bytes) (keep : LockInfo → Bool)
      → active_slice clock entry ≡ retain keep (active_slice clock entry_of)
      → (p : FilePath)
      → (after (insert locks target (entry ++ new_lock q token clock ∷ []))).held p ≡ (
          if target == p
          then retain keep (before.held p) ++ active_slice clock (new_lock q token clock ∷ [])
          else before.held p)
  unfolding active_slice
  taken entry token keep e p =
      held-insert clock locks target (entry ++ new_lock q token clock ∷ []) p
      ∙ elim (Bool-cases (target == p)) [
        | inr other ↦ rw other refl
        | inl same ↦ rw same (
            rw (← (path_eq_iff target p).0 same) (
              retain-append (λ l. not (is_expired clock l)) entry (new_lock q token clock ∷ [])
              ∙ ap (λ xs. xs ++ active_slice clock (new_lock q token clock ∷ [])) e))
      ]

  finish-Allows :
      (d : Result TryAcquire × List LockInfo)
      → Takes hash clock q entry_of d
      → CanTake clock q clock d
      → Allows hash before
          (after (finish locks target q clock d).1)
          (lock_asked target q (given (finish locks target q clock d).0))
  unfolding finish
  finish-Allows (err code, entry) e c =
      refuses target q refl (held-insert_same clock locks target entry e)
  finish-Allows (ok needs_lock_null, entry) e c =
      refuses target q refl (held-insert_same clock locks target entry e)
  finish-Allows (ok (acquired token), entry) (keep, own, stays, left) c =
      let full = entry ++ new_lock q token clock ∷ [] in
      let here : active_slice clock (or_default (get (insert locks target full) target))
          ≡ active_slice clock full =
        held-insert clock locks target full target ∙ rw self refl in
      grants target q token keep own refl stays (IsCompatible-active clock full _ here c)
        (taken entry token keep left)

  acquire_at-Allows :
      IsCompatible clock entry_of
      → Allows hash before
          (after (acquire_at locks target q clock (generate_lock_token hash clock)).1)
          (lock_asked target q
            (given (acquire_at locks target q clock (generate_lock_token hash clock)).0))
  unfolding acquire_at
  acquire_at-Allows h =
      finish-Allows _ (decide-Takes hash clock q entry_of h)
        (decide-CanTake clock q clock entry_of q.if_tokens (generate_lock_token hash clock) h)

  commit-Allows :
      Allows hash before
        (after (lock_commit hash locks target q clock).1)
        (lock_asked target q (commit_given (lock_commit hash locks target q clock).0))
  unfolding lock_commit
  commit-Allows = elim (Bool-cases (is_empty entry_of)) [
    | inr full ↦ rw full (refuses target q refl (held-insert_same clock locks target entry_of refl))
    | inl empty ↦
        let token = generate_lock_token hash clock in
        let nothing : entry_of ≡ [] = (is_empty_iff entry_of).0 empty in
        let full = [] ++ new_lock q token clock ∷ [] in
        let here : active_slice clock (or_default (get (insert locks target full) target))
            ≡ active_slice clock full =
          held-insert clock locks target full target ∙ rw self refl in
        rw empty (
          rw nothing (
            grants target q token (λ _. true) (inl refl) refl
              (rw nothing (unfold active_slice retain in tt))
              (IsCompatible-active clock full _ here
                (IsCompatible-one clock (new_lock q token clock)))
              (taken [] token (λ _. true) (rw nothing (unfold active_slice retain in refl)))))
  ]

  renewed-Allows :
      (m : LockInfo) (locks' : LockStore)
      → Searched clock (λ l. contains q.if_tokens l.token) target locks (some m, locks')
      → Allows hash before (after locks') (lock_asked target q (some m))
  unfolding is_match
  renewed-Allows m locks' (p, infos, l, above, stored, same, r) =
      let here : active_slice clock (or_default (get locks' p)) ≡ active_slice clock infos =
        rw stored (held-insert clock locks p infos p ∙ rw ((path_eq_iff p p).1 refl) refl) in
      rw same (
        renews target q p l r.front r.back refl above (ground (arith, r.matches))
          (ground (arith, r.matches)) r.was (here ∙ r.is)
          (λ j other. rw stored (held-insert clock locks p infos j ∙ rw other refl)))

  or_acquire-Allows :
      IsCompatible clock entry_of
      → (r : Option LockInfo × LockStore)
      → Searched clock (λ m. contains q.if_tokens m.token) target locks r
      → Allows hash before
          (after (or_acquire locks target q clock (generate_lock_token hash clock) r).1)
          (lock_asked target q
            (given (or_acquire locks target q clock (generate_lock_token hash clock) r).0))
  or_acquire-Allows h (some l, locks') e = renewed-Allows l locks' e
  or_acquire-Allows h (none, locks') e = rw e (acquire_at-Allows h)

  acquire-Allows :
      IsCompatible clock entry_of
      → Allows hash before
          (after (lock_acquire hash locks target q clock).1)
          (lock_asked target q (given (lock_acquire hash locks target q clock).0))
  unfolding lock_acquire
  acquire-Allows h =
      or_acquire-Allows h _
        (find_and_refresh-Searched clock (λ m. contains q.if_tokens m.token) target locks)

unlock-Allows :
    (hash : ℕ → ℕ) (s : System) (p : FilePath) (token : Bytes)
    → Allows hash
        (view s)
        (view (record s { locks = (unlock s.locks p token).1 }))
        (unlock_asked p token)
unfolding active_slice
unlock-Allows hash s p token = releases p token refl λ j. elim (Bool-cases (p == j)) [
  | inl same ↦
      let left : or_default (get (unlock s.locks p token).1 j)
          ≡ retain (λ l. not (l.token == token)) (or_default (get s.locks j)) =
        (unlock_iff s.locks p token).2 j ∙ rw same refl in
      rw left (
        rw same (
          retain_comm (λ l. not (is_expired s.clock l)) (λ l. not (l.token == token))
            (or_default (get s.locks j))))
  | inr other ↦
      let left : or_default (get (unlock s.locks p token).1 j) ≡ or_default (get s.locks j) =
        (unlock_iff s.locks p token).2 j ∙ rw other refl in
      rw left (rw other refl)
]

-- From a consistent store, each step of the system is an action that the abstract table of active
-- locks allows, with the request of the step and the lock that it answers with: a LOCK that gives no
-- lock changes nothing; one that gives a lock takes away only locks whose tokens the request holds and
-- adds the lock that it gives, with a new token or one that the request holds, without leaving an
-- exclusive lock beside another, or renews one lock of infinite depth above the target, whose token
-- the request holds; UNLOCK takes away the locks with its token and nothing else; time takes away what
-- has expired; the cleanup task changes nothing.
pub Step-Allows :
    {hash : ℕ → ℕ} {s t : System} (step : Step hash s t)
    → IsConsistent s.clock s.locks
    → Allows hash (view s) (view t) (action_of step)
Step-Allows (tick s n) h =
    elapses n refl λ p. active_slice-later s.clock n (or_default (get s.locks p))
Step-Allows {hash} (acquire s target q) h =
    acquire-Allows hash s.clock s.locks target q (IsCompatible-entry s.clock s.locks h target)
Step-Allows {hash} (commit s target q) h = commit-Allows hash s.clock s.locks target q
Step-Allows {hash} (release s target token) h = unlock-Allows hash s target token
Step-Allows (prune s) h =
    keeps_house refl λ p. active-cleanup_locks s.clock s.clock (omega arith) s.locks h.distinct p
