-- ===== src/Server/Runs.antt =====
-- The server drives the lock store only through the steps of Locking: each request is a run of them.
use rshs.App.{
  AppState, Handler, Platform, Request, answer, fail, lock_document, or_status, proceed,
  status_only, ◌>>=◌, ◌>>◌,
}
use rshs.Common.{
  Bool, Bytes, Option, Option-cases, if◌then◌else◌, inl, inr, refl, some, trim_end_matches, ℕ, ◌≡◌,
  ◌≤◌,
}
use rshs.FilePath.{FilePath}
use rshs.Headers.{parse_lock_token_header}
use rshs.Http.{
  HeaderMap, Result, bad_request, err, forbidden, not_found, ok, status_created, status_ok,
}
use rshs.IfHeader.Parse.{parse_if_header}
use rshs.Lock.{LockInfo, LockStore}
use rshs.LockHandler.{
  Acquired, LockRequest, granted, lock_acquire, lock_commit, lock_null_needed, lock_refused,
  refreshed, unlock,
}
use rshs.LockHandler.Handlers.{
  acquire_section, after_acquire, commit_section, ensure_lock_null_resource, handle_lock,
  handle_unlock, interfere, lock_null, lock_request, positive_tokens_all, request_of,
  unlock_section,
}
use rshs.Locking.{System, acquire, commit, release}
use rshs.Locking.Runs.{Ran, Ran-append, Ran-here, Ran-step, Ran-wait}
use rshs.Locking.Spec.{Action, lock_asked, time_passes, unlock_asked}
use rshs.Resolve.State.{guarded_target, state_resolve_existing}
use rshs.Server.{Surroundings}
use rshs.Server.Frame.{
  KeepsLocks, guarded_target-KeepsLocks, or_status-KeepsLocks, proceed-KeepsLocks,
}

abbrev pub moment : ℕ → LockStore → System
moment clock locks = record { clock = clock; locks = locks }

-- What is known of the steps around one request: they have a property that passing time has, as
-- have the LOCK, whatever it answers, and the UNLOCK with the tokens of the request's headers; its two readings of the
-- clock are in order; and other tasks, between them, take such steps too.
pub record IsOrderly {Disk : Type 0} (sys : Platform Disk) (env : Surroundings)
    (P : Action → Type 0) (headers : HeaderMap) : Type 0 where
  pub ticks : (n : ℕ) → P (time_passes n)
  pub locks_own :
      (target : FilePath) (q : LockRequest) (reply : Option LockInfo)
      → q.if_tokens ≡ positive_tokens_all (parse_if_header headers)
      → P (lock_asked target q reply)
  pub unlocks_own :
      (p : FilePath) (token : Bytes)
      → parse_lock_token_header headers ≡ some token
      → P (unlock_asked p token)
  pub ordered : env.now ≤ env.later
  pub others :
      (locks : LockStore)
      → Ran sys.hash P (moment env.now locks) (moment env.later (env.between locks))

module _ {Disk : Type 0} (sys : Platform Disk) (env : Surroundings) (P : Action → Type 0)
    (req : Request) (h : IsOrderly sys env P req.headers) where
  abbrev pub Runs : {A : Type 0} → Handler Disk A → Type 0
  Runs m =
      (s : AppState Disk) → Ran sys.hash P (moment env.now s.locks) (moment env.later (m s).1.locks)

  pub waits : (locks : LockStore) → Ran sys.hash P (moment env.now locks) (moment env.later locks)
  waits locks = Ran-wait P h.ticks env.now env.later locks h.ordered

  pub Runs-KeepsLocks : {A : Type 0} (m : Handler Disk A) → KeepsLocks m → Runs m
  Runs-KeepsLocks m keeps s = rw (keeps s) (waits s.locks)

  same_start :
      {old new : LockStore} {t : System}
      → new ≡ old
      → Ran sys.hash P (moment env.now new) t
      → Ran sys.hash P (moment env.now old) t
  same_start e r = rw (← e) r

  proceed-Runs :
      {A B : Type 0} (r : Result A) (f : A → Handler Disk B)
      → ((a : A) → Runs (f a))
      → Runs (proceed r f)
  proceed-Runs (ok a) f runs s = runs a s
  proceed-Runs (err code) f runs s = waits s.locks

  pub bind-Runs :
      {A B : Type 0} (m : Handler Disk A) (f : A → Handler Disk B)
      → KeepsLocks m
      → ((a : A) → Runs (f a))
      → Runs (m >>= f)
  bind-Runs m f keeps runs s = same_start (keeps s) (proceed-Runs (m s).0 f runs (m s).1)

  module _ (target : FilePath) (q : LockRequest)
      (own : q.if_tokens ≡ positive_tokens_all (parse_if_header req.headers)) where
    -- the second section, after other tasks had their turn
    committed :
        (is_new : Bool)
        → Runs (
            interfere sys env.between
            >> (commit_section sys env.later target q >>= λ lock.
                answer (lock_document (if is_new then status_created else status_ok) lock)))
    unfolding interfere commit_section answer
    committed is_new s =
        let between = env.between s.locks in
        let made = lock_commit sys.hash between target q env.later in
        let same : (proceed made.0
              (λ lock. answer (lock_document (if is_new then status_created else status_ok) lock))
              (record s { locks = made.1 })).1.locks
            ≡ made.1 =
          proceed-KeepsLocks made.0 _ (λ lock t. refl) (record s { locks = made.1 }) in
        rw same (
          Ran-step P (h.others s.locks) (commit (moment env.later between) target q)
            (h.locks_own target q _ own))

    lock_null-Runs : Runs (lock_null sys env.later env.between target q)
    unfolding lock_null
    lock_null-Runs =
        bind-Runs (ensure_lock_null_resource sys target) _
          (unfold ensure_lock_null_resource in λ s. refl) committed

    after_acquire-Runs :
        (found : Acquired) → Runs (after_acquire sys env.later env.between target q found)
    unfolding after_acquire answer fail
    after_acquire-Runs (refreshed l) s = waits s.locks
    after_acquire-Runs (granted l) s = waits s.locks
    after_acquire-Runs (lock_refused code) s = waits s.locks
    after_acquire-Runs lock_null_needed s = lock_null-Runs s

    acquired_then : Runs (
        acquire_section sys env.now target q >>= λ found.
        after_acquire sys env.later env.between target q found)
    unfolding acquire_section
    acquired_then s =
        let (found, locks') = lock_acquire sys.hash s.locks target q env.now in
        Ran-append P
          (Ran-step P (Ran-here P (moment env.now s.locks))
            (acquire (moment env.now s.locks) target q) (h.locks_own target q _ own))
          (after_acquire-Runs (lock_acquire sys.hash s.locks target q env.now).0
            (record s { locks = (lock_acquire sys.hash s.locks target q env.now).1 }))

  pub handle_lock-Runs : Runs (handle_lock sys env.now env.later env.between req)
  unfolding handle_lock request_of lock_request
  handle_lock-Runs =
      bind-Runs (guarded_target sys forbidden (trim_end_matches b'/' req.path)) _
        (guarded_target-KeepsLocks sys forbidden (trim_end_matches b'/' req.path))
        λ target.
          bind-Runs (or_status req.body bad_request) _ (or_status-KeepsLocks req.body bad_request)
            λ body s. acquired_then target (lock_request sys req body s) refl s

  unlocked :
      (p : FilePath) (token : Bytes)
      → parse_lock_token_header req.headers ≡ some token
      → Runs (unlock_section sys p token >>= λ status. answer (status_only status))
  unfolding unlock_section answer
  unlocked p token e s =
      let released = unlock s.locks p token in
      let same : (proceed released.0 (λ status. answer (status_only status))
            (record s { locks = released.1 })).1.locks
          ≡ released.1 =
        proceed-KeepsLocks released.0 _ (λ status t. refl) (record s { locks = released.1 }) in
      rw same (
        Ran-append P
          (Ran-step P (Ran-here P (moment env.now s.locks))
            (release (moment env.now s.locks) p token) (h.unlocks_own p token e))
          (waits released.1))

  pub handle_unlock-Runs : Runs (handle_unlock sys req)
  unfolding handle_unlock or_status
  handle_unlock-Runs s = elim (Option-cases (parse_lock_token_header req.headers)) [
    | inl missing ↦ rw missing (waits s.locks)
    | inr (token, e) ↦ rw e (
        bind-Runs (state_resolve_existing sys req.path) _
          (unfold state_resolve_existing in λ t. refl)
          (λ found.
            bind-Runs (or_status found not_found) _ (or_status-KeepsLocks found not_found)
              (λ p. unlocked p token e))
          s)
  ]
