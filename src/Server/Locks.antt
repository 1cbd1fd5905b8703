-- ===== src/Server/Locks.antt =====
-- Every request of the server, from the router to its handler, is a run of the lock system.
use rshs.App.{Handler, Platform, Request, answer, fail, ◌>>◌}
use rshs.Auth.{AuthCrates, auth_middleware}
use rshs.Common.{
  Bool-cases, Bytes, List, Option, Option-cases, inl, inr, none, refl, some, trim_end_matches, ℕ,
}
use rshs.FileHandlers.{handle_delete, handle_get_head, handle_mkcol, handle_options, handle_put}
use rshs.Headers.{parse_destination}
use rshs.Http.{HeaderMap, Result-cases}
use rshs.IfHeader.{IfList}
use rshs.IfHeader.Parse.{parse_if_header}
use rshs.Locking.Runs.{Ran}
use rshs.Locking.Spec.{Action, given}
use rshs.Method.{
  Method, copy_method, delete, from_http_method, get_method, head, lock_method, mkcol, move_method,
  options, propfind, proppatch, put_method, unlock_method,
}
use rshs.Middleware.LockEnforce.{
  check_destination, check_given, check_source, check_unlocked, enforce, is_copy, is_copy_or_move,
  is_write, lacks_token, lock_enforce,
}
use rshs.Resolve.State.{state_resolve_and_guard}
use rshs.Server.{
  ServerState, Surroundings, dispatch, dispatch_method, handle_copy, handle_move, is_health_check,
  run_authenticated, run_locked, run_request,
}
use rshs.Server.Frame.{
  KeepsLocks, handle_delete-KeepsLocks, handle_get_head-KeepsLocks, handle_mkcol-KeepsLocks,
  handle_options-KeepsLocks, handle_put-KeepsLocks,
}
use rshs.Server.Runs.{
  IsOrderly, Runs, Runs-KeepsLocks, bind-Runs, handle_lock-Runs, handle_unlock-Runs, moment, waits,
}
use rshs.Server.Walks.{
  handle_copy-KeepsLocks, handle_move-KeepsLocks, handle_propfind-KeepsLocks,
  handle_proppatch-KeepsLocks,
}
use rshs.Tailscale.{tailscale_auth_middleware}
use rshs.Webdav.{handle_proppatch}
use rshs.Webdav.Propfind.{handle_propfind}

module _ {Disk : Type 0} (sys : Platform Disk) where
  check_unlocked-KeepsLocks :
      (now : ℕ) (lists : List IfList) (path : Bytes)
      → KeepsLocks (check_unlocked sys now lists path)
  unfolding check_unlocked state_resolve_and_guard
  check_unlocked-KeepsLocks now lists path s = refl

  check_source-KeepsLocks :
      (now : ℕ) (lists : List IfList) (method : Method) (path : Bytes)
      → KeepsLocks (check_source sys now lists method path)
  unfolding check_source answer
  check_source-KeepsLocks now lists method path s = elim (Bool-cases (is_copy method)) [
    | inl copies ↦ rw copies refl
    | inr other ↦ rw other (check_unlocked-KeepsLocks now lists path s)
  ]

  check_given-KeepsLocks :
      (now : ℕ) (lists : List IfList) (dest : Option Bytes)
      → KeepsLocks (check_given sys now lists dest)
  check_given-KeepsLocks now lists none s = refl
  check_given-KeepsLocks now lists (some dest) s =
      check_unlocked-KeepsLocks now lists (trim_end_matches b'/' dest) s

  check_destination-KeepsLocks :
      (now : ℕ) (lists : List IfList) (method : Method) (headers : HeaderMap)
      → KeepsLocks (check_destination sys now lists method headers)
  unfolding check_destination answer
  check_destination-KeepsLocks now lists method headers s =
      elim (Bool-cases (is_copy_or_move method)) [
        | inl both ↦
            rw both
              (check_given-KeepsLocks now lists (parse_destination sys.percent_decode headers) s)
        | inr other ↦ rw other refl
      ]

module _ {Disk : Type 0} (sys : Platform Disk) (env : Surroundings) (P : Action → Type 0)
    (req : Request) (h : IsOrderly sys env P req.headers) where
  abbrev HandlerRuns : {A : Type 0} → Handler Disk A → Type 0
  HandlerRuns m = Runs sys env P req h m

  keeping : {A : Type 0} (m : Handler Disk A) → KeepsLocks m → HandlerRuns m
  keeping m keeps = Runs-KeepsLocks sys env P req h m keeps

  dispatch_method-Runs : (m : Option Method) → HandlerRuns (dispatch_method sys env m req)
  unfolding dispatch_method fail
  dispatch_method-Runs (some get_method) s =
      keeping (handle_get_head sys req) (handle_get_head-KeepsLocks sys req) s
  dispatch_method-Runs (some head) s =
      keeping (handle_get_head sys req) (handle_get_head-KeepsLocks sys req) s
  dispatch_method-Runs (some put_method) s =
      keeping (handle_put sys req) (handle_put-KeepsLocks sys req) s
  dispatch_method-Runs (some delete) s =
      keeping (handle_delete sys req) (handle_delete-KeepsLocks sys req) s
  dispatch_method-Runs (some options) s =
      keeping (handle_options sys) (handle_options-KeepsLocks sys) s
  dispatch_method-Runs (some propfind) s =
      keeping (handle_propfind sys env.linux env.fuel env.now req)
        (handle_propfind-KeepsLocks sys env.linux env.fuel env.now req) s
  dispatch_method-Runs (some mkcol) s =
      keeping (handle_mkcol sys req) (handle_mkcol-KeepsLocks sys req) s
  dispatch_method-Runs (some copy_method) s =
      keeping (handle_copy sys env req) (handle_copy-KeepsLocks sys env req) s
  dispatch_method-Runs (some move_method) s =
      keeping (handle_move sys env req) (handle_move-KeepsLocks sys env req) s
  dispatch_method-Runs (some proppatch) s =
      keeping (handle_proppatch sys req) (handle_proppatch-KeepsLocks sys req) s
  dispatch_method-Runs (some lock_method) s = handle_lock-Runs sys env P req h s
  dispatch_method-Runs (some unlock_method) s = handle_unlock-Runs sys env P req h s
  dispatch_method-Runs _ s = waits sys env P req h s.locks

  dispatch-Runs : HandlerRuns (dispatch sys env req)
  unfolding dispatch
  dispatch-Runs = dispatch_method-Runs (from_http_method req.method)

  lock_enforce-Runs :
      {A : Type 0} (next : Handler Disk A)
      → HandlerRuns next
      → HandlerRuns (lock_enforce sys env.now req next)
  unfolding lock_enforce enforce fail
  lock_enforce-Runs next runs s = elim (Option-cases (from_http_method req.method)) [
    | inl unknown ↦ rw (unknown, lock_enforce) (runs s)
    | inr (method, e) ↦ elim (Bool-cases (is_write method)) [
      | inr reads ↦ rw (e, lock_enforce) (rw reads (runs s))
      | inl writes ↦ elim (Bool-cases (lacks_token req.headers (parse_if_header req.headers))) [
        | inl lacking ↦
            rw (e, lock_enforce) (rw writes (rw lacking (waits sys env P req h s.locks)))
        | inr given ↦
            let lists = parse_if_header req.headers in
            let path = trim_end_matches b'/' req.path in
            let checked =
              bind-Runs sys env P req h (check_source sys env.now lists method path)
                (λ u. check_destination sys env.now lists method req.headers >> next)
                (check_source-KeepsLocks sys env.now lists method path)
                (λ u.
                  bind-Runs sys env P req h (check_destination sys env.now lists method req.headers)
                    (λ v. next) (check_destination-KeepsLocks sys env.now lists method req.headers)
                    (λ v. runs)) in
            rw (e, lock_enforce) (rw writes (rw given (checked s)))
      ]
    ]
  ]

module _ {Disk : Type 0} (sys : Platform Disk) (crates : AuthCrates) (env : Surroundings)
    (P : Action → Type 0) where
  -- A request to the server, whatever its method and its fate, moves the lock store by a run of the
  -- steps of the lock system, from the clock at its start to its second reading. Each of these steps
  -- has any property that passing time has, that LOCK and UNLOCK with the tokens of the request's own
  -- headers have, and that the steps of other tasks between the sections of the request have.
  pub run_request-Ran :
      (req : Request) (s : ServerState Disk)
      → IsOrderly sys env P req.headers
      → Ran sys.hash P
          (moment env.now s.app.locks)
          (moment env.later (run_request sys crates env req s).1.app.locks)
  unfolding run_request run_authenticated run_locked
  run_request-Ran req s h = elim (Bool-cases (is_health_check req.headers)) [
    | inl health ↦ rw (health, run_request) (waits sys env P req h s.app.locks)
    | inr plain_request ↦ elim (Result-cases (tailscale_auth_middleware s.tailscale req.headers)) [
      | inr (code, refused_so) ↦
          rw (plain_request, refused_so, run_request) (waits sys env P req h s.app.locks)
      | inl (u, admitted) ↦
          elim (Result-cases (auth_middleware crates env.now env.later s.auth req.headers).0) [
            | inr (code, refused_so) ↦
                rw (plain_request, admitted, run_request)
                  (rw (refused_so, run_authenticated) (waits sys env P req h s.app.locks))
            | inl (v, known) ↦
                rw (plain_request, admitted, run_request)
                  (rw (known, run_authenticated)
                    ((lock_enforce-Runs sys env P req h (dispatch sys env req)
                      (dispatch-Runs sys env P req h) s.app)))
          ]
    ]
  ]
