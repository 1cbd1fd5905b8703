-- ===== src/Locking.antt =====
-- The lock store over time: requests, the cleanup task and the clock as steps that interleave.
pub mod Compatible
pub mod Refresh
pub mod Invariant
pub mod Cleanup
pub mod Spec
pub mod Takes
pub mod Renews
pub mod Refines
pub mod Held
pub mod Runs
use rshs.Common.{Bytes, is_empty, not, ℕ, ◌+◌}
use rshs.FilePath.{FilePath}
use rshs.Lock.{LockStore, active_slice}
use rshs.LockHandler.{LockRequest, lock_acquire, lock_commit, unlock}
use rshs.Map.{retain_mut}

-- The pruning of `cleanup_task` in src/server/cleanup.rs.
unfoldable pub cleanup_locks : ℕ → LockStore → LockStore
cleanup_locks now locks = retain_mut (active_slice now) (λ infos. not (is_empty infos)) locks

-- The shared store and the clock.
pub record System : Type 0 where
  pub clock : ℕ
  pub locks : LockStore

-- One step: time passes, or a task runs one section under the write guard. A LOCK request runs
-- `lock_acquire` and perhaps later `lock_commit`, with any steps of other tasks between them.
pub data Step (hash : ℕ → ℕ) : System → System → Type 0 where
  tick : (s : System) (n : ℕ) → Step hash s (record s { clock = s.clock + n })
  acquire :
      (s : System) (target : FilePath) (q : LockRequest)
      → Step hash s (record s { locks = (lock_acquire hash s.locks target q s.clock).1 })
  commit :
      (s : System) (target : FilePath) (q : LockRequest)
      → Step hash s (record s { locks = (lock_commit hash s.locks target q s.clock).1 })
  release :
      (s : System) (target : FilePath) (token : Bytes)
      → Step hash s (record s { locks = (unlock s.locks target token).1 })
  prune : (s : System) → Step hash s (record s { locks = cleanup_locks s.clock s.locks })

pub data Reach (hash : ℕ → ℕ) (s : System) : System → Type 0 where
  reach_here : Reach hash s s
  reach_after : {t u : System} → Reach hash s t → Step hash t u → Reach hash s u
