-- ===== src/Server/Cleanup.antt =====
-- `cleanup_task` of src/server/cleanup.rs: a loop over the timer and the notification of the
-- shutdown.
use rshs.Auth.{AuthCache, cleanup_cache}
use rshs.Common.{Bool, List, [], false, if◌then◌else◌, refl, true, ℕ, ◌++◌, ◌∷◌, ◌≡◌}
use rshs.Lock.{LockStore}
use rshs.Locking.{cleanup_locks}

-- What wakes the task: the timer, with the clock readings for the locks and for the cache and
-- whether the mutex of the cache is poisoned, or the shutdown.
pub data Wake : Type 0 where
  timer : ℕ → ℕ → Bool → Wake
  notified : Wake

-- What the task shares with the server.
pub record Shared : Type 0 where
  pub locks : LockStore
  pub auth_cache : AuthCache

-- One round; with a poisoned mutex it ends behind the locks.
unfoldable pub cleanup_round : ℕ → ℕ → Bool → Shared → Shared
unfolding cleanup_locks cleanup_cache
cleanup_round now later poisoned s =
    let s' = record s { locks = cleanup_locks now s.locks } in
    if poisoned then s' else record s' { auth_cache = cleanup_cache later s'.auth_cache }

-- The loop, and whether it has ended.
unfoldable pub cleanup_task : List Wake → Shared → Shared × Bool
unfolding cleanup_round
cleanup_task [] s = (s, false)
cleanup_task (timer now later poisoned ∷ wakes) s =
    cleanup_task wakes (cleanup_round now later poisoned s)
cleanup_task (notified ∷ wakes) s = (s, true)

abbrev rounds_of : List (ℕ × ℕ × Bool) → List Wake
rounds_of [] = []
rounds_of ((now, later, poisoned) ∷ rounds) = timer now later poisoned ∷ rounds_of rounds

abbrev pub after_rounds : List (ℕ × ℕ × Bool) → Shared → Shared
after_rounds [] s = s
after_rounds ((now, later, poisoned) ∷ rounds) s =
    after_rounds rounds (cleanup_round now later poisoned s)

-- The task ends at the first notification, in the state behind the rounds before it, whatever would
-- wake it later.
cleanup_task-notified :
    (rounds : List (ℕ × ℕ × Bool)) (later : List Wake) (s : Shared)
    → cleanup_task (rounds_of rounds ++ notified ∷ later) s ≡ (after_rounds rounds s, true)
unfolding cleanup_task
cleanup_task-notified [] later s = refl
cleanup_task-notified ((now, next, poisoned) ∷ rounds) later s =
    cleanup_task-notified rounds later (cleanup_round now next poisoned s)
