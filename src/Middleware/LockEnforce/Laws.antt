-- ===== src/Middleware/LockEnforce/Laws.antt =====
-- What the lock middleware lets through, and what it keeps out.
use rshs.App.{AppState, Handler, Platform, Request, Response, answer, fail}
use rshs.Common.{
  Bool-cases, Bytes, IsIn, List, [], bytes_eq, bytes_key, codes, false, inl, inr, refl, some,
  trim_end_matches, true, ℕ, ◌∷◌, ◌≡◌, ◌⊎◌,
}
use rshs.FilePath.{FilePath, path_key}
use rshs.Headers.{parse_destination}
use rshs.Http.{Result, err, locked, precondition_failed}
use rshs.IfHeader.{IfList, eval_if}
use rshs.IfHeader.Parse.{parse_if_header}
use rshs.LockStore.{is_path_locked}
use rshs.LockStore.Ancestor.{IsCanonical}
use rshs.LockStore.Enforced.{blocks, is_path_locked_iff}
use rshs.LockStore.Strategies.{IsRooted}
use rshs.LockStore.Walk.{IsFound}
use rshs.Map.{get, nat_key, or_default}
use rshs.Map.Laws.{HasDistinctKeys}
use rshs.Method.{
  Method, copy_method, delete, from_http_method, mkcol, move_method, proppatch, put_method,
}
use rshs.Middleware.LockEnforce.{
  check_destination, check_source, check_unlocked, enforce, is_copy, is_write, lacks_token,
  lock_enforce,
}
use rshs.Resolve.{resolve_and_guard, resolved}
use rshs.Resolve.State.{state_resolve_and_guard}

-- The methods that write at the path of the request, by their names.
abbrev pub writing_methods : List Bytes
writing_methods =
    codes "PUT" ∷ codes "DELETE" ∷ codes "MKCOL" ∷ codes "PROPPATCH" ∷ codes "MOVE" ∷ []

copy_known : from_http_method (codes "COPY") ≡ some copy_method
unfolding from_http_method bytes_eq
copy_known = refl

-- Each of them is checked, with its source.
writing_method :
    (name : Bytes)
    → IsIn name writing_methods
    → (method : Method) × (from_http_method name ≡ some method)
      × (is_write method ≡ true)
      × (is_copy method ≡ false)
unfolding from_http_method is_write bytes_eq
writing_method name (inl e) = rw (← e) (put_method, refl, refl, refl)
writing_method name (inr (inl e)) = rw (← e) (delete, refl, refl, refl)
writing_method name (inr (inr (inl e))) = rw (← e) (mkcol, refl, refl, refl)
writing_method name (inr (inr (inr (inl e)))) = rw (← e) (proppatch, refl, refl, refl)
writing_method name (inr (inr (inr (inr (inl e))))) = rw (← e) (move_method, refl, refl, refl)
writing_method name (inr (inr (inr (inr (inr none_left))))) = absurd none_left

module _ {Disk : Type 0} (sys : Platform Disk) (now : ℕ) (req : Request)
    (inner : Handler Disk Response) (s : AppState Disk) where
  after_guard : Bytes → AppState Disk
  after_guard request_path = record s {
    canonical_cache =
        (resolve_and_guard sys s.root_dir s.root_canonical request_path s.disk s.canonical_cache).1;
  }

  check_unlocked-locked :
      (lists : List IfList) (request_path : Bytes) (path : FilePath)
      → (resolve_and_guard sys s.root_dir s.root_canonical request_path s.disk s.canonical_cache).0
        ≡ resolved path
      → is_path_locked now s.locks path lists s.root_canonical request_path ≡ true
      → check_unlocked sys now lists request_path s ≡ (err locked, after_guard request_path)
  unfolding check_unlocked state_resolve_and_guard after_guard
  check_unlocked-locked lists request_path path found blocked = rw found (rw blocked refl)

  -- The path that a request names and that may be locked against it: the request path, and for a
  -- COPY, which only reads its source, the one of its destination.
  pub data IsTarget : Bytes → Type 0 where
    by_path : IsIn req.method writing_methods → IsTarget (trim_end_matches b'/' req.path)
    by_destination :
        (dest : Bytes)
        → req.method ≡ codes "COPY"
        → parse_destination sys.percent_decode req.headers ≡ some dest
        → IsTarget (trim_end_matches b'/' dest)

  -- The `If` header fails on the path's own locks, or on those of an entry strictly above it that has
  -- an active lock of infinite depth.
  abbrev pub IsLockedOut : FilePath → Bytes → Type 0
  IsLockedOut path request_path =
      let lists = parse_if_header req.headers in
      (eval_if now lists (or_default (get s.locks path)) request_path ≡ false)
      ⊎ IsFound (blocks now lists request_path) s.locks path

  -- Refused, with all but the cache of canonical folders as it was.
  abbrev pub IsKeptOff : Result Response × AppState Disk → Type 0
  IsKeptOff out =
      ((out.0 ≡ err precondition_failed) ⊎ (out.0 ≡ err locked))
      × (record (out.1) { canonical_cache = s.canonical_cache } ≡ s)

  blocked_path :
      (path : FilePath)
      → IsIn req.method writing_methods
      → (resolve_and_guard sys s.root_dir s.root_canonical
          (trim_end_matches b'/' req.path)
          s.disk
          s.canonical_cache).0
        ≡ resolved path
      → is_path_locked now s.locks path
          (parse_if_header req.headers)
          s.root_canonical
          (trim_end_matches b'/' req.path)
        ≡ true
      → IsKeptOff (lock_enforce sys now req inner s)
  unfolding lock_enforce enforce check_source fail after_guard
  blocked_path path listed found blocked =
      let (method, known, writes, no_copy) = writing_method req.method listed in
      elim (Bool-cases (lacks_token req.headers (parse_if_header req.headers))) [
        | inl lacks ↦ rw (known, lock_enforce) (rw writes (rw lacks (inl refl, refl)))
        | inr has ↦
            rw (known, lock_enforce)
              (rw writes (
                rw has (
                  rw no_copy (rw (check_unlocked-locked _ _ path found blocked) (inr refl, refl)))))
      ]

  blocked_destination :
      (path : FilePath) (dest : Bytes)
      → req.method ≡ codes "COPY"
      → parse_destination sys.percent_decode req.headers ≡ some dest
      → (resolve_and_guard sys s.root_dir s.root_canonical
          (trim_end_matches b'/' dest)
          s.disk
          s.canonical_cache).0
        ≡ resolved path
      → is_path_locked now s.locks path
          (parse_if_header req.headers)
          s.root_canonical
          (trim_end_matches b'/' dest)
        ≡ true
      → IsKeptOff (lock_enforce sys now req inner s)
  unfolding lock_enforce enforce check_source check_destination fail after_guard is_write answer
  blocked_destination path dest copies wanted found blocked =
      let known : from_http_method req.method ≡ some copy_method = rw copies copy_known in
      elim (Bool-cases (lacks_token req.headers (parse_if_header req.headers))) [
        | inl lacks ↦ rw (known, lock_enforce) (rw lacks (inl refl, refl))
        | inr has ↦
            rw (known, lock_enforce)
              (rw has
                (rw wanted (rw (check_unlocked-locked _ _ path found blocked) (inr refl, refl))))
      ]

  -- A PUT, DELETE, MKCOL, PROPPATCH or MOVE whose path is locked against it, or a COPY whose
  -- destination is, never reaches its handler: it is refused with 412 or 423, and all but the cache of
  -- canonical folders is as it was. A path is locked against a request if the `If` header fails on its
  -- locks, or on those of an entry strictly above it with an active lock of infinite depth. The paths
  -- of the store are distinct and canonical paths in the root, and the path resolves to a canonical
  -- one.
  pub lock_enforce-blocks :
      (request_path : Bytes) (path : FilePath)
      → HasDistinctKeys s.locks
      → IsRooted s.root_canonical s.locks
      → IsCanonical path
      → IsTarget request_path
      → (resolve_and_guard sys s.root_dir s.root_canonical request_path s.disk s.canonical_cache).0
        ≡ resolved path
      → IsLockedOut path request_path
      → IsKeptOff (lock_enforce sys now req inner s)
  lock_enforce-blocks _ path distinct rooted canonical (by_path listed) found locked_out =
      blocked_path path listed found (
        (is_path_locked_iff now s.locks path s.root_canonical (parse_if_header req.headers) _
            distinct rooted canonical).1
          locked_out)
  lock_enforce-blocks _ path distinct rooted canonical (by_destination dest copies wanted) found
        locked_out =
      blocked_destination path dest copies wanted found (
        (is_path_locked_iff now s.locks path s.root_canonical (parse_if_header req.headers) _
            distinct rooted canonical).1
          locked_out)

  -- A request that does not write goes to its handler unchecked.
  pub lock_enforce-reads :
      (method : Method)
      → from_http_method req.method ≡ some method
      → is_write method ≡ false
      → lock_enforce sys now req inner s ≡ inner s
  unfolding lock_enforce
  lock_enforce-reads method known reads = rw (known, lock_enforce) (rw reads refl)
