-- ===== src/FileHandlers.antt =====
-- The handlers of src/handlers/http.rs, and MKCOL of src/handlers/webdav.rs, on the disk of the
-- platform.
pub mod Laws
use rshs.App.{
  Handler, IoOutcome, Metadata, Platform, Request, Response, answer, fail, file_content,
  folder_page, io_done, io_exists, io_failed, or_status, status_only, ◌>>=◌, ◌>>◌,
}
use rshs.Common.{
  Bool, Bytes, bytes_key, codes, false, if◌then◌else◌, is_some, none, not, some, trim_end_matches,
  true, ℕ, ◌==◌,
}
use rshs.FilePath.{FilePath, path_key}
use rshs.Http.{
  HeaderMap, bad_request, err, forbidden, header_text, internal_server_error, method_not_allowed,
  no_content, not_found, ok, status_created, status_ok, unsupported_media_type,
}
use rshs.Map.{nat_key}
use rshs.Resolve.State.{guarded_target, state_resolve_existing}

-- a Content-Length other than "0"
abbrev pub has_body : HeaderMap → Bool
has_body headers = elim (header_text headers (codes "content-length")) [
  | none ↦ false
  | some v ↦ not (v == codes "0")
]

abbrev is_head : Request → Bool
is_head req = req.method == codes "HEAD"

module _ {Disk : Type 0} (sys : Platform Disk) where
  -- a call that changes the disk; every error becomes a 500
  unfoldable pub disk_call : (Disk → IoOutcome × Disk) → Handler Disk (Unit {0})
  disk_call call s =
      let (outcome, disk') = call s.disk in
      (
        elim outcome [
          | io_done ↦ ok tt
          | io_exists ↦ err internal_server_error
          | io_failed ↦ err internal_server_error
        ],
        record s { disk = disk' },
      )

  unfoldable pub metadata_of : FilePath → Handler Disk Metadata
  unfolding or_status
  metadata_of p s = or_status (sys.metadata s.disk p) not_found s

  unfoldable pub existing_target : Bytes → Handler Disk FilePath
  unfolding state_resolve_existing or_status
  existing_target request_path = do
    found ← state_resolve_existing sys request_path
    or_status found not_found

  open_file : FilePath → ℕ → Handler Disk Response
  open_file p size s = (
    if sys.can_open s.disk p then ok (file_content p size true) else err internal_server_error,
    s,
  )

  unfoldable pub serve : Request → FilePath → Metadata → Handler Disk Response
  unfolding open_file answer
  serve req p meta =
      if meta.is_dir
      then answer (folder_page p req.path (not (is_head req)))
      else if is_head req
      then answer (file_content p meta.len false)
      else open_file p meta.len

  unfoldable pub handle_get_head : Request → Handler Disk Response
  handle_get_head req = do
    fs_path ← existing_target req.path
    meta ← metadata_of fs_path
    serve req fs_path meta

  exists_now : FilePath → Handler Disk Bool
  exists_now p s = (ok (sys.try_exists s.disk p), s)

  unfoldable pub put_at : Request → FilePath → Handler Disk Response
  unfolding exists_now disk_call answer
  put_at req target = do
    existed ← exists_now target
    disk_call (λ d. sys.create_file d target)
    disk_call (λ d. sys.write_stream d target req.stream)
    disk_call (λ d. sys.flush d target)
    answer (status_only (if existed then status_ok else status_created))

  unfoldable pub handle_put : Request → Handler Disk Response
  handle_put req = do target ← guarded_target sys bad_request req.path; put_at req target

  unfoldable pub delete_at : FilePath → Metadata → Handler Disk Response
  unfolding disk_call answer fail
  delete_at p meta s =
      if meta.is_dir
      then (if p == s.root_canonical
          then fail bad_request s
          else (disk_call (λ d. sys.remove_dir_all d p) >> answer (status_only no_content)) s)
      else (disk_call (λ d. sys.remove_file d p) >> answer (status_only no_content)) s

  unfoldable pub handle_delete : Request → Handler Disk Response
  handle_delete req = do
    fs_path ← existing_target req.path
    meta ← metadata_of fs_path
    delete_at fs_path meta

  unfoldable pub handle_options : Handler Disk Response
  unfolding answer
  handle_options = answer (status_only status_ok)

  unfoldable pub mkcol_at : FilePath → Handler Disk Response
  unfolding disk_call answer fail
  mkcol_at target s =
      if is_some (sys.metadata s.disk target)
      then fail method_not_allowed s
      else (disk_call (λ d. sys.create_dir d target) >> answer (status_only status_created)) s

  unfoldable pub handle_mkcol : Request → Handler Disk Response
  unfolding fail
  handle_mkcol req = if has_body req.headers then fail unsupported_media_type else do
    target ← guarded_target sys forbidden (trim_end_matches b'/' req.path)
    mkcol_at target
