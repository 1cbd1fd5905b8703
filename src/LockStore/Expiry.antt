-- ===== src/LockStore/Expiry.antt =====
-- Locks with a timeout end: from some time on they keep no request from writing.
use rshs.Common.{All, List, [], bytes_key, is_some, or_value, true, ℕ, ◌+◌, ◌∷◌, ◌≡◌}
use rshs.FilePath.{FilePath, path_key}
use rshs.Lock.{LockInfo, LockStore}
use rshs.Map.{nat_key}

-- a time at which all of the locks have expired
deadline : List LockInfo → ℕ
deadline [] = 0
deadline (l ∷ infos) = l.created + or_value l.timeout 0 + deadline infos

store_deadline : LockStore → ℕ
unfolding deadline
store_deadline [] = 0
store_deadline ((p, infos) ∷ locks) = deadline infos + store_deadline locks

-- Every lock has a timeout.
abbrev pub HasTimeouts : LockStore → Type 0
HasTimeouts locks = All (λ entry. All (λ l. is_some l.timeout ≡ true) entry.1) locks
