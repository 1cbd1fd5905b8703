-- ===== src/Examples/Files.antt =====
-- Files: the theorems on PUT, DELETE and MKCOL, at requests that succeed.
use rshs.App.{Metadata, Platform, answer, io_done, or_status, status_only}
use rshs.Common.{
  [], bytes_eq, bytes_key, codes, false, if◌then◌else◌, none, refl, some, trim_end_matches,
  trim_start_matches, true, ◌==◌, ◌≡◌,
}
use rshs.Examples.{put_request, served, still_platform, still_state}
use rshs.Examples.Paths.{guarded_f}
use rshs.FileHandlers.{
  delete_at, disk_call, existing_target, handle_delete, handle_mkcol, handle_put, metadata_of,
  mkcol_at, put_at,
}
use rshs.FileHandlers.Laws.{IsWritten, handle_delete-removes, handle_put-writes, removal}
use rshs.FilePath.{FilePath, join, parse_path, path_key, split_slash, starts_with}
use rshs.Http.{header_text, no_content, ok, status_created, status_ok}
use rshs.Map.{nat_key}
use rshs.Resolve.{resolve_and_guard, resolve_existing, resolved}
use rshs.Resolve.Guard.{IsGuarded}
use rshs.Resolve.State.{guarded_target, or_invalid, state_resolve_and_guard, state_resolve_existing}

-- a platform on which every path is a file
abbrev file_platform : Platform (Unit {0})
file_platform = record still_platform {
  metadata = λ d p.
      some (record { is_dir = false; is_file = true; len = 3; modified = none; created = none });
}

delete_succeeds :
    (handle_delete file_platform put_request still_state).0 ≡ ok (status_only no_content)
unfolding handle_delete existing_target metadata_of delete_at state_resolve_existing
    resolve_existing or_status disk_call answer join parse_path split_slash trim_start_matches
    bytes_eq starts_with
delete_succeeds = refl

handle_delete-removes_example :
    (p : FilePath) × (meta : Metadata) × (resolve_existing file_platform served served
        (codes "/d/f")
        tt
      ≡ some p)
    × (starts_with p served ≡ true)
    × (file_platform.metadata tt p ≡ some meta)
    × ((meta.is_dir ≡ true) → (p == served) ≡ false)
    × ((removal file_platform p meta tt).0 ≡ io_done)
    × ((handle_delete file_platform put_request still_state).1
        ≡ record still_state { disk = (removal file_platform p meta tt).1 })
handle_delete-removes_example =
    handle_delete-removes file_platform put_request still_state delete_succeeds

put_succeeds :
    (handle_put still_platform put_request still_state).0 ≡ ok (status_only status_created)
unfolding handle_put guarded_target state_resolve_and_guard or_invalid put_at disk_call answer
put_succeeds = rw guarded_f refl

handle_put-writes_example :
    (p : FilePath) × ((resolve_and_guard still_platform served served (codes "/d/f") tt []).0
      ≡ resolved p)
    × IsGuarded still_platform served p
    × (status_only status_created
        ≡ status_only (if still_platform.try_exists tt p then status_ok else status_created))
    × IsWritten still_platform p [] tt (handle_put still_platform put_request still_state).1.disk
handle_put-writes_example = handle_put-writes still_platform put_request still_state put_succeeds

mkcol_succeeds :
    (handle_mkcol still_platform put_request still_state).0 ≡ ok (status_only status_created)
unfolding handle_mkcol guarded_target state_resolve_and_guard or_invalid mkcol_at disk_call answer
    header_text trim_end_matches
mkcol_succeeds = rw guarded_f refl
