-- ===== src/Server/Frame.antt =====
-- The handlers that leave the lock store alone: all but those of LOCK and UNLOCK.
use rshs.App.{AppState, Handler, IoOutcome, Metadata, Platform, Request, or_status, proceed, ◌>>=◌}
use rshs.Body.{Parsed, parse_error, parsed}
use rshs.Common.{
  Bool-cases, Bytes, Option, arith, inl, inr, none, refl, some, trim_end_matches, ◌∙◌, ◌≡◌,
}
use rshs.FileHandlers.{
  delete_at, disk_call, existing_target, handle_delete, handle_get_head, handle_mkcol,
  handle_options, handle_put, has_body, metadata_of, mkcol_at, put_at, serve,
}
use rshs.FilePath.{FilePath}
use rshs.Http.{Result, StatusCode, bad_request, err, forbidden, not_found, ok}
use rshs.Resolve.State.{guarded_target, state_resolve_and_guard, state_resolve_existing}
use rshs.Webdav.{or_400}

module _ {Disk : Type 0} where
  abbrev pub KeepsLocks : {A : Type 0} → Handler Disk A → Type 0
  KeepsLocks m = (s : AppState Disk) → (m s).1.locks ≡ s.locks

  pub proceed-KeepsLocks :
      {A B : Type 0} (r : Result A) (f : A → Handler Disk B)
      → ((a : A) → KeepsLocks (f a))
      → KeepsLocks (proceed r f)
  proceed-KeepsLocks (ok a) f keeps s = keeps a s
  proceed-KeepsLocks (err code) f keeps s = refl

  pub bind-KeepsLocks :
      {A B : Type 0} (m : Handler Disk A) (f : A → Handler Disk B)
      → KeepsLocks m
      → ((a : A) → KeepsLocks (f a))
      → KeepsLocks (m >>= f)
  bind-KeepsLocks m f first then_next s = proceed-KeepsLocks (m s).0 f then_next (m s).1 ∙ first s

  pub or_status-KeepsLocks :
      {A : Type 0} (o : Option A) (code : StatusCode) → KeepsLocks (or_status o code)
  unfolding or_status
  or_status-KeepsLocks none code s = refl
  or_status-KeepsLocks (some a) code s = refl

  pub or_400-KeepsLocks : {A : Type 0} (p : Parsed A) → KeepsLocks (or_400 p)
  unfolding or_400
  or_400-KeepsLocks (parsed a) s = refl
  or_400-KeepsLocks (parse_error e) s = refl

module _ {Disk : Type 0} (sys : Platform Disk) where
  pub existing_target-KeepsLocks : (path : Bytes) → KeepsLocks (existing_target sys path)
  unfolding existing_target state_resolve_existing or_status
  existing_target-KeepsLocks path s = ground arith

  pub metadata_of-KeepsLocks : (p : FilePath) → KeepsLocks (metadata_of sys p)
  unfolding metadata_of
  metadata_of-KeepsLocks p s = or_status-KeepsLocks (sys.metadata s.disk p) not_found s

  pub guarded_target-KeepsLocks :
      (code : StatusCode) (path : Bytes) → KeepsLocks (guarded_target sys code path)
  unfolding guarded_target state_resolve_and_guard
  guarded_target-KeepsLocks code path s = refl

  disk_call-KeepsLocks : (call : Disk → IoOutcome × Disk) → KeepsLocks (disk_call sys call)
  unfolding disk_call
  disk_call-KeepsLocks call s = refl

  serve-KeepsLocks :
      (req : Request) (p : FilePath) (meta : Metadata) → KeepsLocks (serve sys req p meta)
  unfolding serve
  serve-KeepsLocks req p meta s = ground arith

  pub handle_get_head-KeepsLocks : (req : Request) → KeepsLocks (handle_get_head sys req)
  unfolding handle_get_head
  handle_get_head-KeepsLocks req =
      bind-KeepsLocks (existing_target sys req.path) _ (existing_target-KeepsLocks req.path) λ p.
        bind-KeepsLocks (metadata_of sys p) _ (metadata_of-KeepsLocks p)
          λ meta. serve-KeepsLocks req p meta

  put_at-KeepsLocks : (req : Request) (target : FilePath) → KeepsLocks (put_at sys req target)
  unfolding put_at disk_call
  put_at-KeepsLocks req target s = ground arith

  pub handle_put-KeepsLocks : (req : Request) → KeepsLocks (handle_put sys req)
  unfolding handle_put
  handle_put-KeepsLocks req =
      bind-KeepsLocks (guarded_target sys bad_request req.path) _
        (guarded_target-KeepsLocks bad_request req.path) (put_at-KeepsLocks req)

  delete_at-KeepsLocks : (p : FilePath) (meta : Metadata) → KeepsLocks (delete_at sys p meta)
  unfolding delete_at disk_call
  delete_at-KeepsLocks p meta s = ground arith

  pub handle_delete-KeepsLocks : (req : Request) → KeepsLocks (handle_delete sys req)
  unfolding handle_delete
  handle_delete-KeepsLocks req =
      bind-KeepsLocks (existing_target sys req.path) _ (existing_target-KeepsLocks req.path) λ p.
        bind-KeepsLocks (metadata_of sys p) _ (metadata_of-KeepsLocks p) (delete_at-KeepsLocks p)

  pub handle_options-KeepsLocks : KeepsLocks (handle_options sys)
  unfolding handle_options
  handle_options-KeepsLocks s = refl

  mkcol_at-KeepsLocks : (target : FilePath) → KeepsLocks (mkcol_at sys target)
  unfolding mkcol_at disk_call
  mkcol_at-KeepsLocks target s = ground arith

  pub handle_mkcol-KeepsLocks : (req : Request) → KeepsLocks (handle_mkcol sys req)
  unfolding handle_mkcol
  handle_mkcol-KeepsLocks req = elim (Bool-cases (has_body req.headers)) [
    | inl body ↦ λ s. rw body refl
    | inr no_body ↦
        let target = trim_end_matches b'/' req.path in
        let keeps : KeepsLocks (guarded_target sys forbidden target >>= mkcol_at sys) =
          bind-KeepsLocks (guarded_target sys forbidden target) (mkcol_at sys)
            (guarded_target-KeepsLocks forbidden target) mkcol_at-KeepsLocks in
        λ s. rw no_body (keeps s)
  ]
