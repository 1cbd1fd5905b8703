-- ===== src/Middleware/LockEnforce.antt =====
-- `lock_enforce` of src/middleware/lock.rs: write requests must satisfy their `If` header on the
-- locks of the paths that they change. `next` is the rest of the stack.
pub mod Laws
use rshs.App.{AppState, Handler, Platform, Request, answer, fail, proceed, ◌>>=◌, ◌>>◌}
use rshs.Common.{
  Bool, Bytes, List, Option, any, codes, false, if◌then◌else◌, is_empty, none, not, some,
  trim_end_matches, true, ℕ, ◌&&◌,
}
use rshs.Headers.{parse_destination}
use rshs.Http.{HeaderMap, contains_key, err, locked, ok, precondition_failed}
use rshs.IfHeader.{IfList, has_lock_token}
use rshs.IfHeader.Parse.{parse_if_header}
use rshs.LockStore.{is_path_locked}
use rshs.Method.{
  Method, copy_method, delete, from_http_method, mkcol, move_method, proppatch, put_method,
}
use rshs.Resolve.{Resolved, panicked, refused, resolved}
use rshs.Resolve.State.{state_resolve_and_guard}

unfoldable pub is_write : Method → Bool
is_write put_method = true
is_write delete = true
is_write mkcol = true
is_write proppatch = true
is_write move_method = true
is_write copy_method = true
is_write _ = false

abbrev pub is_copy : Method → Bool
is_copy copy_method = true
is_copy _ = false

abbrev pub is_copy_or_move : Method → Bool
is_copy_or_move copy_method = true
is_copy_or_move move_method = true
is_copy_or_move _ = false

-- the `If` header names no lock token, and there is no `Lock-Token` header
unfoldable pub lacks_token : HeaderMap → List IfList → Bool
lacks_token headers lists =
    not (is_empty lists)
    && not (any has_lock_token lists)
    && not (contains_key headers (codes "lock-token"))

module _ {Disk : Type 0} (sys : Platform Disk) where
  abbrev pub locked_at : ℕ → List IfList → Bytes → Resolved → AppState Disk → Bool
  locked_at now lists request_path (resolved path) s =
      is_path_locked now s.locks path lists s.root_canonical request_path
  locked_at now lists request_path (refused e) s = false
  locked_at now lists request_path panicked s = false

  -- fails with 423 if the path resolves and is locked against the request
  unfoldable pub check_unlocked : ℕ → List IfList → Bytes → Handler Disk (Unit {0})
  unfolding state_resolve_and_guard
  check_unlocked now lists request_path s =
      let (r, s') = state_resolve_and_guard sys request_path s in
      proceed r
        (λ found t. (if locked_at now lists request_path found t then err locked else ok tt, t)) s'

  unfoldable pub check_source : ℕ → List IfList → Method → Bytes → Handler Disk (Unit {0})
  unfolding answer
  check_source now lists method request_path =
      if is_copy method then answer tt else check_unlocked now lists request_path

  abbrev pub check_given : ℕ → List IfList → Option Bytes → Handler Disk (Unit {0})
  check_given now lists none s = (ok tt, s)
  check_given now lists (some dest) s = check_unlocked now lists (trim_end_matches b'/' dest) s

  unfoldable pub check_destination : ℕ → List IfList → Method → HeaderMap → Handler Disk (Unit {0})
  unfolding answer
  check_destination now lists method headers =
      if is_copy_or_move method
      then check_given now lists (parse_destination sys.percent_decode headers)
      else answer tt

  unfoldable pub enforce : {A : Type 0} → ℕ → Method → Request → Handler Disk A → Handler Disk A
  unfolding fail
  enforce now method req next =
      let lists = parse_if_header req.headers in
      if lacks_token req.headers lists then fail precondition_failed else do
        check_source now lists method (trim_end_matches b'/' req.path)
        check_destination now lists method req.headers
        next

  unfoldable pub lock_enforce : {A : Type 0} → ℕ → Request → Handler Disk A → Handler Disk A
  lock_enforce now req next = elim (from_http_method req.method) [
    | none ↦ next
    | some method ↦ if is_write method then enforce now method req next else next
  ]
