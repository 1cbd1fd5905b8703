-- ===== src/Server/Held.antt =====
-- What the whole server promises to a client that holds a lock.
use rshs.App.{Platform, Request}
use rshs.Auth.{AuthCrates}
use rshs.Common.{Bytes, IsIn, bytes_key, false, some, ◌==◌, ◌≡◌, ◌≤◌}
use rshs.FilePath.{FilePath, path_key}
use rshs.Headers.{parse_lock_token_header}
use rshs.Http.{HeaderMap}
use rshs.IfHeader.{contains}
use rshs.IfHeader.Parse.{parse_if_header}
use rshs.Lock.{LockInfo, LockStore, active_slice, is_expired}
use rshs.LockHandler.Handlers.{positive_tokens_all}
use rshs.Locking.Held.{IsForeign, held_until_expiry}
use rshs.Locking.Invariant.{IsConsistent, Reach-IsConsistent}
use rshs.Locking.Runs.{Ran}
use rshs.Map.{get, nat_key, or_default}
use rshs.Server.{ServerState, Surroundings, run_request}
use rshs.Server.Locks.{run_request-Ran}
use rshs.Server.Runs.{IsOrderly, moment}

-- The headers carry neither the token's `If` condition nor its `Lock-Token`.
pub record IsForeignTo (token : Bytes) (headers : HeaderMap) : Type 0 where
  pub unconditional : contains (positive_tokens_all (parse_if_header headers)) token ≡ false
  pub unreleased : (t : Bytes) → parse_lock_token_header headers ≡ some t → (token == t) ≡ false

foreign-IsOrderly :
    {Disk : Type 0} (sys : Platform Disk) (env : Surroundings) (token : Bytes) (headers : HeaderMap)
    → IsForeignTo token headers
    → env.now ≤ env.later
    → ((locks : LockStore)
        → Ran sys.hash
            (IsForeign token)
            (moment env.now locks)
            (moment env.later (env.between locks)))
    → IsOrderly sys env (IsForeign token) headers
foreign-IsOrderly sys env token headers foreign ordered others = record {
  ticks = λ n. tt;
  locks_own = λ target q reply own. rw own foreign.unconditional;
  unlocks_own = λ p t e. foreign.unreleased t e;
  ordered = ordered;
  others = others;
}

module _ {Disk : Type 0} (sys : Platform Disk) (crates : AuthCrates) (env : Surroundings) where
  -- A request that carries a lock's token neither in its `If` header nor as its `Lock-Token` cannot
  -- take the lock away, whatever its method, while other tasks do not carry it either: from a
  -- consistent store with the lock, it leaves a consistent store in which the lock stands unchanged
  -- on its path, unless it has expired.
  pub run_request-held :
      (req : Request) (s : ServerState Disk) (l : LockInfo) (p : FilePath)
      → IsConsistent env.now s.app.locks
      → IsIn l (active_slice env.now (or_default (get s.app.locks p)))
      → IsForeignTo l.token req.headers
      → env.now ≤ env.later
      → ((locks : LockStore)
          → Ran sys.hash
              (IsForeign l.token)
              (moment env.now locks)
              (moment env.later (env.between locks)))
      → is_expired env.later l ≡ false
      → let locks' = (run_request sys crates env req s).1.app.locks in
        IsConsistent env.later locks' × IsIn l (active_slice env.later (or_default (get locks' p)))
  run_request-held req s l p consistent here foreign ordered others alive =
      let ran =
        run_request-Ran sys crates env (IsForeign l.token) req s
          (foreign-IsOrderly sys env l.token req.headers foreign ordered others) in
      (
        Reach-IsConsistent consistent ran.run,
        held_until_expiry l p consistent ran.run ran.steps here alive,
      )
