-- ===== src/Locking/Invariant.antt =====
-- Mutual exclusion of locks, as an invariant of every interleaving of requests, pruning and time.
use rshs.Common.{
  Bool, Bool-cases, Bytes, List, Option, Option-cases, [], any, arith, bytes_key, find, inl, inr,
  is_empty, is_empty_iff, length, ltb, none, not, refl, retain, some, sym, ℕ, ◌+◌, ◌==◌, ◌∙◌, ◌∷◌,
  ◌≡◌,
}
use rshs.FilePath.{FilePath, path_key}
use rshs.Http.{Result, err, ok}
use rshs.IfHeader.{contains}
use rshs.Lock.{LockInfo, LockStore, active_slice, is_expired}
use rshs.Lock.Token.{generate_lock_token}
use rshs.LockHandler.{
  LockRequest, TryAcquire, acquire_at, acquired, finish, lock_acquire, lock_commit, needs_lock_null,
  new_lock, or_acquire, unlock,
}
use rshs.LockStore.{candidates, find_and_refresh_ancestor_lock, is_match, refresh_candidates}
use rshs.Locking.{
  Reach, Step, System, acquire, cleanup_locks, commit, prune, reach_after, reach_here, release,
  tick,
}
use rshs.Locking.Compatible.{
  CanTake, IsCompatible, IsCompatible-later, IsCompatible-one, decide-CanTake, retain-IsCompatible,
}
use rshs.Locking.Refresh.{refresh_first-IsCompatible}
use rshs.Map.{get, insert, or_default}
use rshs.Map.Laws.{
  HasDistinctKeys, get-insert, get-retain_mut, insert-HasDistinctKeys, kept-some,
  retain_mut-HasDistinctKeys,
}

pub record IsConsistent (clock : ℕ) (locks : LockStore) : Type 0 where
  pub distinct : HasDistinctKeys locks
  pub compatible :
      (p : FilePath) (infos : List LockInfo) → get locks p ≡ some infos → IsCompatible clock infos

IsCompatible-empty : (clock : ℕ) → IsCompatible clock []
unfolding active_slice retain any
IsCompatible-empty clock = inl refl

module _ (clock : ℕ) (locks : LockStore) (h : IsConsistent clock locks) where
  pub IsCompatible-entry : (p : FilePath) → IsCompatible clock (or_default (get locks p))
  IsCompatible-entry p = elim (Option-cases (get locks p)) [
    | inl missing ↦ rw missing (IsCompatible-empty clock)
    | inr (infos, stored) ↦ rw stored (h.compatible p infos stored)
  ]

  insert-IsConsistent :
      (p : FilePath) (entry : List LockInfo)
      → IsCompatible clock entry
      → IsConsistent clock (insert locks p entry)
  insert-IsConsistent p entry new = record {
    distinct = insert-HasDistinctKeys locks p entry h.distinct;
    compatible = λ j infos stored. elim (Bool-cases (p == j)) [
      | inl same ↦
          let value : entry ≡ infos = ground (arith, get-insert locks p j entry) in rw (← value) new
      | inr other ↦ h.compatible j infos (ground (arith, get-insert locks p j entry))
    ];
  }

  refresh_candidates-IsConsistent :
      (predicate : LockInfo → Bool) (paths : List FilePath)
      → IsConsistent clock (refresh_candidates clock predicate locks paths).1
  unfolding refresh_candidates
  refresh_candidates-IsConsistent predicate [] = h
  refresh_candidates-IsConsistent predicate (path ∷ rest) =
      elim (Option-cases (find (is_match clock predicate) (or_default (get locks path)))) [
        | inl missed ↦
            rw (missed, refresh_candidates) (refresh_candidates-IsConsistent predicate rest)
        | inr (l, found) ↦
            rw (found, refresh_candidates)
              (insert-IsConsistent path _
                (refresh_first-IsCompatible clock predicate _ (IsCompatible-entry path)))
      ]

  finish-IsConsistent :
      (target : FilePath) (q : LockRequest) (d : Result TryAcquire × List LockInfo)
      → CanTake clock q clock d
      → IsConsistent clock (finish locks target q clock d).1
  unfolding finish
  finish-IsConsistent target q (err code, entry) e = insert-IsConsistent target entry e
  finish-IsConsistent target q (ok needs_lock_null, entry) e = insert-IsConsistent target entry e
  finish-IsConsistent target q (ok (acquired token), entry) e = insert-IsConsistent target _ e

  acquire_at-IsConsistent :
      (target : FilePath) (q : LockRequest) (fresh : Bytes)
      → IsConsistent clock (acquire_at locks target q clock fresh).1
  unfolding acquire_at
  acquire_at-IsConsistent target q fresh =
      finish-IsConsistent target q _
        (decide-CanTake clock q clock _ q.if_tokens fresh (IsCompatible-entry target))

  lock_commit-IsConsistent :
      (hash : ℕ → ℕ) (target : FilePath) (q : LockRequest)
      → IsConsistent clock (lock_commit hash locks target q clock).1
  unfolding lock_commit
  lock_commit-IsConsistent hash target q =
      elim (Bool-cases (is_empty (or_default (get locks target)))) [
        | inr full ↦ rw full (insert-IsConsistent target _ (IsCompatible-entry target))
        | inl empty ↦
            let lock = new_lock q (generate_lock_token hash clock) clock in
            let nothing = (is_empty_iff (or_default (get locks target))).0 empty in
            rw nothing (insert-IsConsistent target (lock ∷ []) (IsCompatible-one clock lock))
      ]

  unlock-IsConsistent : (p : FilePath) (token : Bytes) → IsConsistent clock (unlock locks p token).1
  unfolding unlock
  unlock-IsConsistent p token = elim (Option-cases (get locks p)) [
    | inl missing ↦ rw (missing, unlock) h
    | inr (entry, stored) ↦
        let left = retain (λ l. not (l.token == token)) entry in
        let good =
          insert-IsConsistent p left
            (retain-IsCompatible clock _ entry (h.compatible p entry stored)) in
        elim (Bool-cases (ltb (length left) (length entry))) [
          | inl removed ↦ rw (stored, unlock) (rw removed good)
          | inr same ↦ rw (stored, unlock) (rw same good)
        ]
  ]

  pub tick-IsConsistent : (n : ℕ) → IsConsistent (clock + n) locks
  tick-IsConsistent n = record {
    distinct = h.distinct;
    compatible = λ p infos stored. IsCompatible-later clock n infos (h.compatible p infos stored);
  }

  pub cleanup-IsConsistent : IsConsistent clock (cleanup_locks clock locks)
  unfolding cleanup_locks active_slice
  cleanup-IsConsistent = record {
    distinct = retain_mut-HasDistinctKeys (active_slice clock) _ locks h.distinct;
    compatible = λ p infos stored.
        let by_lookup =
          get-retain_mut (active_slice clock) (λ l. not (is_empty l)) locks p h.distinct in
        let (old, found, same) =
          kept-some (active_slice clock) (λ l. not (is_empty l)) (get locks p) infos
            (sym by_lookup ∙ stored) in
        rw (← same) (
          retain-IsCompatible clock (λ l. not (is_expired clock l)) old (h.compatible p old found));
  }

or_acquire-IsConsistent :
    (clock : ℕ) (locks : LockStore) (target : FilePath) (q : LockRequest) (fresh : Bytes)
    (r : Option LockInfo × LockStore)
    → IsConsistent clock r.1
    → IsConsistent clock (or_acquire locks target q clock fresh r).1
or_acquire-IsConsistent clock locks target q fresh (some l, locks') h = h
or_acquire-IsConsistent clock locks target q fresh (none, locks') h =
    acquire_at-IsConsistent clock locks' h target q fresh

-- Each step keeps the store consistent at its clock.
Step-IsConsistent :
    {hash : ℕ → ℕ} {s t : System}
    → Step hash s t
    → IsConsistent s.clock s.locks
    → IsConsistent t.clock t.locks
unfolding lock_acquire find_and_refresh_ancestor_lock
Step-IsConsistent (tick s n) h = tick-IsConsistent s.clock s.locks h n
Step-IsConsistent {hash} (acquire s target q) h =
    or_acquire-IsConsistent s.clock s.locks target q (generate_lock_token hash s.clock)
      (find_and_refresh_ancestor_lock s.clock s.locks target (λ l. contains q.if_tokens l.token))
      (refresh_candidates-IsConsistent s.clock s.locks h (λ l. contains q.if_tokens l.token)
        (candidates s.clock target s.locks))
Step-IsConsistent {hash} (commit s target q) h =
    lock_commit-IsConsistent s.clock s.locks h hash target q
Step-IsConsistent (release s target token) h = unlock-IsConsistent s.clock s.locks h target token
Step-IsConsistent (prune s) h = cleanup-IsConsistent s.clock s.locks h

-- In every interleaving of LOCK and UNLOCK requests, pruning and time from a consistent store (the
-- empty one is), no path ever has an active exclusive lock beside another active lock. The two
-- sections of a LOCK that creates a lock-null resource may have any steps between them.
pub Reach-IsConsistent :
    {hash : ℕ → ℕ} {s t : System}
    → IsConsistent s.clock s.locks
    → Reach hash s t
    → IsConsistent t.clock t.locks
Reach-IsConsistent h reach_here = h
Reach-IsConsistent h (reach_after r step) = Step-IsConsistent step (Reach-IsConsistent h r)
