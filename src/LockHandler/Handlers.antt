-- ===== src/LockHandler/Handlers.antt =====
-- `handle_lock` and `handle_unlock` of src/handlers/locks.rs. `between` is what other tasks do to
-- the lock store while the handler has dropped its guard; `now` and `later` are the clock readings
-- of the two sections.
pub mod Laws
use rshs.App.{
  AppState, Handler, Platform, Request, Response, answer, fail, io_done, io_exists, io_failed,
  lock_document, or_status, status_only, ◌>>=◌, ◌>>◌,
}
use rshs.Common.{
  Bool, Bytes, List, Option, [], eqb, false, if◌then◌else◌, none, some, trim_end_matches, true, ℕ,
  ◌++◌, ◌∷◌,
}
use rshs.FilePath.{FilePath}
use rshs.Headers.{parse_depth, parse_lock_token_header, parse_timeout}
use rshs.Http.{
  StatusCode, bad_request, err, forbidden, internal_server_error, not_found, ok, status_created,
  status_ok,
}
use rshs.IfHeader.{IfList, positive_tokens}
use rshs.IfHeader.Parse.{parse_if_header}
use rshs.Lock.{LockInfo, LockStore}
use rshs.LockHandler.{
  Acquired, LockRequest, granted, lock_acquire, lock_commit, lock_null_needed, lock_refused,
  parse_lock_body, refreshed, unlock,
}
use rshs.Resolve.State.{guarded_target, state_resolve_existing}

-- `parse_timeout(…).or_else(…)`: a zero default means that locks never expire
abbrev lock_timeout_of : Option ℕ → ℕ → Option ℕ
lock_timeout_of (some t) default = some t
lock_timeout_of none default = if eqb default 0 then none else some default

unfoldable pub positive_tokens_all : List IfList → List Bytes
positive_tokens_all [] = []
positive_tokens_all (l ∷ ls) = positive_tokens l ++ positive_tokens_all ls

module _ {Disk : Type 0} (sys : Platform Disk) where
  unfoldable pub lock_request : Request → Bytes → AppState Disk → LockRequest
  unfolding positive_tokens_all
  lock_request req body s =
      let (owner, scope) = parse_lock_body sys.utf8_lossy (sys.xml_events body) in
      record {
        if_tokens = positive_tokens_all (parse_if_header req.headers);
        scope = scope;
        owner = owner;
        timeout = lock_timeout_of (parse_timeout req.headers) s.lock_timeout;
        depth = parse_depth req.headers;
      }

  unfoldable pub acquire_section : ℕ → FilePath → LockRequest → Handler Disk Acquired
  acquire_section now target q s =
      let (r, locks') = lock_acquire sys.hash s.locks target q now in
      (ok r, record s { locks = locks' })

  unfoldable pub commit_section : ℕ → FilePath → LockRequest → Handler Disk LockInfo
  commit_section later target q s =
      let (r, locks') = lock_commit sys.hash s.locks target q later in
      (r, record s { locks = locks' })

  -- other tasks, while the guard is dropped
  unfoldable pub interfere : (LockStore → LockStore) → Handler Disk (Unit {0})
  interfere between s = (ok tt, record s { locks = between s.locks })

  -- `true` if the file is new
  unfoldable pub ensure_lock_null_resource : FilePath → Handler Disk Bool
  ensure_lock_null_resource target s =
      let (outcome, disk') = sys.create_new s.disk target in
      (
        elim outcome [
          | io_done ↦ ok true
          | io_exists ↦ ok false
          | io_failed ↦ err internal_server_error
        ],
        record s { disk = disk' },
      )

  unfoldable pub lock_null :
      ℕ → (LockStore → LockStore) → FilePath → LockRequest → Handler Disk Response
  unfolding ensure_lock_null_resource interfere commit_section answer
  lock_null later between target q = do
    is_new ← ensure_lock_null_resource target
    interfere between
    lock ← commit_section later target q
    answer (lock_document (if is_new then status_created else status_ok) lock)

  unfoldable pub after_acquire :
      ℕ → (LockStore → LockStore) → FilePath → LockRequest → Acquired → Handler Disk Response
  unfolding answer fail
  after_acquire later between target q (refreshed l) = answer (lock_document status_ok l)
  after_acquire later between target q (granted l) = answer (lock_document status_ok l)
  after_acquire later between target q (lock_refused code) = fail code
  after_acquire later between target q lock_null_needed = lock_null later between target q

  unfoldable pub request_of : Request → Bytes → Handler Disk LockRequest
  request_of req body s = (ok (lock_request req body s), s)

  unfoldable pub handle_lock : ℕ → ℕ → (LockStore → LockStore) → Request → Handler Disk Response
  unfolding or_status request_of
  handle_lock now later between req = do
    target ← guarded_target sys forbidden (trim_end_matches b'/' req.path)
    body ← or_status req.body bad_request
    q ← request_of req body
    found ← acquire_section now target q
    after_acquire later between target q found

  unfoldable pub unlock_section : FilePath → Bytes → Handler Disk StatusCode
  unlock_section fs_path token s =
      let (r, locks') = unlock s.locks fs_path token in (r, record s { locks = locks' })

  unfoldable pub handle_unlock : Request → Handler Disk Response
  unfolding or_status unlock_section answer
  handle_unlock req = do
    token ← or_status (parse_lock_token_header req.headers) bad_request
    found ← state_resolve_existing sys req.path
    fs_path ← or_status found not_found
    status ← unlock_section fs_path token
    answer (status_only status)
