-- ===== src/LockHandler/Excludes.antt =====
-- What a lock that LOCK has granted with exclusive scope does to later requests.
use rshs.Common.{IsIn, bytes_key, true, ℕ, ◌≡◌}
use rshs.FilePath.{FilePath, path_key}
use rshs.Http.{locked}
use rshs.IfHeader.{contains}
use rshs.Lock.{LockInfo, LockStore, active_slice, is_infinity}
use rshs.LockHandler.{Acquired, LockRequest, lock_refused, refreshed}
use rshs.LockStore.{is_ancestor_of}
use rshs.Map.{get, nat_key, or_default}

-- A LOCK on a path that a foreign lock is on: refused, or the renewal of a lock above.
pub data IsKeptOut (now : ℕ) (locks : LockStore) (target : FilePath) (r : LockRequest)
    : Acquired → Type 0 where
  refused_there : IsKeptOut now locks target r (lock_refused locked)
  -- `l` is an active lock of infinite depth on a path above, whose token the request holds
  renewed_above :
      (above : FilePath) (l : LockInfo)
      → IsIn l (active_slice now (or_default (get locks above)))
      → is_ancestor_of above target ≡ true
      → is_infinity l.depth ≡ true
      → contains r.if_tokens l.token ≡ true
      → IsKeptOut now locks target r (refreshed (record l { created = now }))
