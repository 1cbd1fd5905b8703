-- ===== src/Server.antt =====
-- `make_router` and `dispatch` of src/server/mod.rs, and src/middleware/health.rs: the way of a
-- request through the middleware to a handler. The trace layer has no counterpart.
pub mod Gate
pub mod Cleanup
pub mod Frame
pub mod Walks
pub mod Runs
pub mod Locks
pub mod Held
use rshs.App.{AppState, Handler, Platform, Request, Response, fail, status_only}
use rshs.Auth.{AuthCrates, AuthState, auth_middleware}
use rshs.Common.{Bool, Option, bytes_key, codes, false, if◌then◌else◌, none, some, true, ℕ, ◌==◌}
use rshs.FileHandlers.{handle_delete, handle_get_head, handle_mkcol, handle_options, handle_put}
use rshs.FilePath.{path_key}
use rshs.Http.{HeaderMap, Result, err, map_ok, not_implemented, ok, status_ok}
use rshs.Lock.{LockStore}
use rshs.LockHandler.Handlers.{handle_lock, handle_unlock}
use rshs.Map.{nat_key}
use rshs.Method.{
  Method, copy_method, delete, from_http_method, get_method, head, lock_method, mkcol, move_method,
  options, propfind, proppatch, put_method, unlock_method,
}
use rshs.Middleware.LockEnforce.{lock_enforce}
use rshs.Tailscale.{TailscaleAuthState, tailscale_auth_middleware}
use rshs.Webdav.{handle_proppatch}
use rshs.Webdav.Propfind.{handle_propfind}
use rshs.Webdav.Transfer.{do_move_or_copy}

-- What surrounds one request: the clock readings, what other tasks do to the lock store between the
-- sections of LOCK, the fuel of the walks over directories, and the system.
pub record Surroundings : Type 0 where
  pub now : ℕ
  pub later : ℕ
  pub between : LockStore → LockStore
  pub fuel : ℕ
  pub linux : Bool

unfoldable pub is_health_check : HeaderMap → Bool
is_health_check headers = elim (headers (codes "x-health-check")) [
  | none ↦ false
  | some v ↦ v.bytes == codes "true"
]

module _ {Disk : Type 0} (sys : Platform Disk) (env : Surroundings) where
  -- a handler without a walk
  abbrev pub direct : Handler Disk Response → Handler Disk (Option Response)
  direct handle s = let (r, s') = handle s in (map_ok some r, s')

  -- COPY and MOVE: out of fuel, nothing is said of the state
  unfoldable pub walking : Option (Result Response × AppState Disk) → Handler Disk (Option Response)
  walking none s = (ok none, s)
  walking (some (r, s')) s = (map_ok some r, s')

  -- `handle_copy` and `handle_move`
  unfoldable pub handle_copy : Request → Handler Disk (Option Response)
  unfolding walking do_move_or_copy
  handle_copy req s = walking (do_move_or_copy sys env.fuel false req s) s

  unfoldable pub handle_move : Request → Handler Disk (Option Response)
  unfolding walking do_move_or_copy
  handle_move req s = walking (do_move_or_copy sys env.fuel true req s) s

  unfoldable pub dispatch_method : Option Method → Request → Handler Disk (Option Response)
  unfolding handle_copy handle_move fail
  dispatch_method (some get_method) req = direct (handle_get_head sys req)
  dispatch_method (some head) req = direct (handle_get_head sys req)
  dispatch_method (some put_method) req = direct (handle_put sys req)
  dispatch_method (some delete) req = direct (handle_delete sys req)
  dispatch_method (some options) req = direct (handle_options sys)
  dispatch_method (some propfind) req = handle_propfind sys env.linux env.fuel env.now req
  dispatch_method (some mkcol) req = direct (handle_mkcol sys req)
  dispatch_method (some copy_method) req = handle_copy req
  dispatch_method (some move_method) req = handle_move req
  dispatch_method (some proppatch) req = direct (handle_proppatch sys req)
  dispatch_method (some lock_method) req =
      direct (handle_lock sys env.now env.later env.between req)
  dispatch_method (some unlock_method) req = direct (handle_unlock sys req)
  dispatch_method _ req = fail not_implemented

  -- `ok none` is a walk that is out of fuel, or a panic of a date.
  unfoldable pub dispatch : Request → Handler Disk (Option Response)
  unfolding dispatch_method from_http_method
  dispatch req = dispatch_method (from_http_method req.method) req

-- The state behind the router.
pub record ServerState (Disk : Type 0) : Type 0 where
  pub auth : AuthState
  pub tailscale : TailscaleAuthState
  pub app : AppState Disk

-- the health check, which answers before every other layer
abbrev healthy : Result (Option Response)
healthy = ok (some (status_only status_ok))

module _ {Disk : Type 0} (sys : Platform Disk) (crates : AuthCrates) (env : Surroundings) where
  -- behind the authentication
  unfoldable pub run_locked :
      Request → ServerState Disk → Result (Option Response) × ServerState Disk
  unfolding lock_enforce dispatch
  run_locked req s =
      let (r, app') = lock_enforce sys env.now req (dispatch sys env req) s.app in
      (r, record s { app = app' })

  unfoldable pub run_authenticated :
      Request → ServerState Disk → Result (Option Response) × ServerState Disk
  unfolding run_locked auth_middleware
  run_authenticated req s =
      let (r, auth') = auth_middleware crates env.now env.later s.auth req.headers in
      let s' = record s { auth = auth' } in
      elim r [ ok u ↦ run_locked req s' | err code ↦ (err code, s') ]

  unfoldable pub run_request :
      Request → ServerState Disk → Result (Option Response) × ServerState Disk
  unfolding run_authenticated is_health_check tailscale_auth_middleware
  run_request req s =
      if is_health_check req.headers
      then (healthy, s)
      else elim (tailscale_auth_middleware s.tailscale req.headers) [
        | ok u ↦ run_authenticated req s
        | err code ↦ (err code, s)
      ]
