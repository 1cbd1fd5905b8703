-- ===== src/Resolve/State.antt =====
-- The resolution methods of `AppState` (src/server/mod.rs) as handlers: `resolve_and_guard` writes
-- the cache of canonical parents.
use rshs.App.{Handler, Platform, proceed}
use rshs.Common.{Bytes, Option}
use rshs.FilePath.{FilePath}
use rshs.Http.{Result, StatusCode, err, internal_server_error, ok}
use rshs.Resolve.{
  Resolved, error_status, panicked, refused, resolve_and_guard, resolve_existing,
  resolve_write_target, resolved,
}

-- `or_invalid` of src/utils/error.rs. The panic, which no request reaches, ends the task.
unfoldable pub or_invalid : Resolved → StatusCode → Result FilePath
or_invalid (resolved p) on_invalid = ok p
or_invalid (refused e) on_invalid = err (error_status e on_invalid)
or_invalid panicked on_invalid = err internal_server_error

module _ {Disk : Type 0} (sys : Platform Disk) where
  unfoldable pub state_resolve_existing : Bytes → Handler Disk (Option FilePath)
  state_resolve_existing request_path s =
      (ok (resolve_existing sys s.root_dir s.root_canonical request_path s.disk), s)

  unfoldable pub state_resolve_write_target : Bytes → Handler Disk (Option FilePath)
  state_resolve_write_target request_path s =
      (ok (resolve_write_target sys.percent_decode s.root_dir request_path), s)

  unfoldable pub state_resolve_and_guard : Bytes → Handler Disk Resolved
  state_resolve_and_guard request_path s =
      let (r, cache) =
        resolve_and_guard sys s.root_dir s.root_canonical request_path s.disk s.canonical_cache in
      (ok r, record s { canonical_cache = cache })

  -- with the error turned into a status
  unfoldable pub guarded_target : StatusCode → Bytes → Handler Disk FilePath
  unfolding state_resolve_and_guard
  guarded_target on_invalid request_path s =
      let (r, s') = state_resolve_and_guard request_path s in
      proceed r (λ found t. (or_invalid found on_invalid, t)) s'
