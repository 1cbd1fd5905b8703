-- ===== src/Examples/Requests.antt =====
-- Requests: the theorems on the middleware, at a request that a lock keeps out.
use rshs.App.{Handler, Response, status_only}
use rshs.Common.{
  [], any, bytes_eq, bytes_key, codes, inl, refl, retain, trim_end_matches, true, ◌≡◌,
}
use rshs.Examples.{file_f, no_headers, one_lock, put_request, served, still_platform, still_state}
use rshs.Examples.Locks.{one_lock-IsRooted, one_lock_distinct}
use rshs.Examples.Paths.{guarded_f}
use rshs.FilePath.{path_eq, path_key, starts_with}
use rshs.Http.{header_text, ok, status_created}
use rshs.IfHeader.{eval_if}
use rshs.IfHeader.Parse.{parse_if_header, parse_lists, skip_ws}
use rshs.Lock.{active_slice, is_expired}
use rshs.LockStore.{is_ancestor_of, is_path_locked, walk_locked_ancestors}
use rshs.LockStore.Enforced.{is_path_locked_iff}
use rshs.Map.{get, nat_key}
use rshs.Middleware.LockEnforce.{lock_enforce}
use rshs.Middleware.LockEnforce.Laws.{IsKeptOff, IsLockedOut, by_path, lock_enforce-blocks}
use rshs.Resolve.{resolve_and_guard, resolved}

put_found :
    (resolve_and_guard still_platform served served (trim_end_matches b'/' (codes "/d/f")) tt []).0
    ≡ resolved file_f
unfolding trim_end_matches
put_found = guarded_f

put_blocked :
    is_path_locked 6 one_lock file_f
      (parse_if_header no_headers)
      served
      (trim_end_matches b'/' (codes "/d/f"))
    ≡ true
unfolding is_path_locked parse_if_header parse_lists skip_ws header_text trim_end_matches eval_if
    active_slice retain get any walk_locked_ancestors bytes_eq starts_with is_ancestor_of is_expired
    path_eq
put_blocked = refl

abbrev created_answer : Handler (Unit {0}) Response
created_answer s = (ok (status_only status_created), s)

put-IsLockedOut :
    IsLockedOut still_platform 6 put_request created_answer still_state file_f
      (trim_end_matches b'/' (codes "/d/f"))
put-IsLockedOut =
    (is_path_locked_iff 6 one_lock file_f served (parse_if_header no_headers) _ one_lock_distinct
        one_lock-IsRooted (tt, (tt, (tt, tt)))).0
      put_blocked

lock_enforce-blocks_example :
    IsKeptOff still_platform 6 put_request created_answer still_state
      (lock_enforce still_platform 6 put_request created_answer still_state)
lock_enforce-blocks_example =
    lock_enforce-blocks still_platform 6 put_request created_answer still_state
      (trim_end_matches b'/' (codes "/d/f")) file_f one_lock_distinct one_lock-IsRooted
      (tt, (tt, (tt, tt))) (by_path (inl refl)) put_found put-IsLockedOut
