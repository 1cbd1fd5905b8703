-- ===== src/Locking/Spec.antt =====
-- What clients may rely on of the lock store, without its representation: a table of the locks that
-- are active, and what one action may do to it. Entries that have expired, empty entries, the order
-- of the paths and the cleanup task do not show in it.
use rshs.Common.{
  All, Bool, Bytes, List, Option, [], bytes_key, false, if◌then◌else◌, none, not, retain, some,
  true, ℕ, ◌++◌, ◌+◌, ◌==◌, ◌∷◌, ◌≡◌, ◌⊎◌,
}
use rshs.FilePath.{FilePath, path_key}
use rshs.Http.{Result, err, ok}
use rshs.IfHeader.{contains}
use rshs.Lock.{LockInfo, active_slice, is_infinity}
use rshs.Lock.Token.{generate_lock_token}
use rshs.LockHandler.{
  Acquired, LockRequest, granted, lock_acquire, lock_commit, lock_null_needed, lock_refused,
  new_lock, refreshed,
}
use rshs.LockStore.{is_ancestor_of}
use rshs.Locking.{Step, System, acquire, commit, prune, release, tick}
use rshs.Locking.Compatible.{IsCompatible}
use rshs.Map.{get, nat_key, or_default}

pub record LockTable : Type 0 where
  pub time : ℕ
  pub held : FilePath → List LockInfo

pub data Action : Type 0 where
  -- with the lock of the answer, if it gives one
  lock_asked : FilePath → LockRequest → Option LockInfo → Action
  unlock_asked : FilePath → Bytes → Action
  time_passes : ℕ → Action
  housekeeping : Action

-- A token that is new, or that the request holds.
abbrev pub IsOwn : (ℕ → ℕ) → ℕ → LockRequest → Bytes → Type 0
IsOwn hash now q token =
    (token ≡ generate_lock_token hash now) ⊎ (contains q.if_tokens token ≡ true)

pub data Allows (hash : ℕ → ℕ) (w w' : LockTable) : Action → Type 0 where
  -- A LOCK that gives no lock changes nothing.
  refuses :
      (target : FilePath) (q : LockRequest)
      → w'.time ≡ w.time
      → ((p : FilePath) → w'.held p ≡ w.held p)
      → Allows hash w w' (lock_asked target q none)
  keeps_house :
      w'.time ≡ w.time → ((p : FilePath) → w'.held p ≡ w.held p) → Allows hash w w' housekeeping
  -- what has run out is gone
  elapses :
      (n : ℕ)
      → w'.time ≡ w.time + n
      → ((p : FilePath) → w'.held p ≡ active_slice w'.time (w.held p))
      → Allows hash w w' (time_passes n)
  -- A LOCK takes away only locks whose tokens the request holds, and adds the one that it gives;
  -- after it, the path has no exclusive lock beside another.
  grants :
      (target : FilePath) (q : LockRequest) (token : Bytes) (keep : LockInfo → Bool)
      → IsOwn hash w.time q token
      → w'.time ≡ w.time
      → All (λ l. (keep l ≡ true) ⊎ (contains q.if_tokens l.token ≡ true)) (w.held target)
      → IsCompatible w.time (w'.held target)
      → ((p : FilePath)
          → w'.held p ≡ (
              if target == p
              then retain keep (w.held p) ++ active_slice w.time (new_lock q token w.time ∷ [])
              else w.held p))
      → Allows hash w w' (lock_asked target q (some (new_lock q token w.time)))
  -- A LOCK that holds the token of a lock of infinite depth on an ancestor renews that lock alone, and
  -- gives it.
  renews :
      (target : FilePath) (q : LockRequest) (p : FilePath) (l : LockInfo)
      (front back : List LockInfo)
      → w'.time ≡ w.time
      → is_ancestor_of p target ≡ true
      → is_infinity l.depth ≡ true
      → contains q.if_tokens l.token ≡ true
      → w.held p ≡ front ++ l ∷ back
      → w'.held p ≡ front ++ record l { created = w.time } ∷ back
      → ((j : FilePath) → (p == j) ≡ false → w'.held j ≡ w.held j)
      → Allows hash w w' (lock_asked target q (some (record l { created = w.time })))
  -- UNLOCK takes away the locks with the token on the path, and nothing else.
  releases :
      (p : FilePath) (token : Bytes)
      → w'.time ≡ w.time
      → ((j : FilePath)
          → w'.held j
            ≡ (if p == j then retain (λ l. not (l.token == token)) (w.held j) else w.held j))
      → Allows hash w w' (unlock_asked p token)

-- The active locks of the store.
abbrev pub view : System → LockTable
view s = record { time = s.clock; held = λ p. active_slice s.clock (or_default (get s.locks p)) }

abbrev pub given : Acquired → Option LockInfo
given (refreshed l) = some l
given (granted l) = some l
given lock_null_needed = none
given (lock_refused code) = none

abbrev pub commit_given : Result LockInfo → Option LockInfo
commit_given (ok l) = some l
commit_given (err code) = none

abbrev pub action_of : {hash : ℕ → ℕ} {s t : System} → Step hash s t → Action
action_of (tick s n) = time_passes n
action_of {hash} (acquire s target q) =
    lock_asked target q (given (lock_acquire hash s.locks target q s.clock).0)
action_of {hash} (commit s target q) =
    lock_asked target q (commit_given (lock_commit hash s.locks target q s.clock).0)
action_of (release s target token) = unlock_asked target token
action_of (prune s) = housekeeping
