-- ===== src/Webdav/Propfind.antt =====
-- PROPFIND of src/handlers/webdav.rs.
pub mod Dates
pub mod Answers
use rshs.App.{Handler, Platform, Request, Response, ◌>>=◌}
use rshs.Body.{parse_propfind_request}
use rshs.Common.{Bool, Option, ℕ}
use rshs.FileHandlers.{existing_target}
use rshs.Headers.{parse_depth}
use rshs.Http.{ok}
use rshs.Webdav.{body_of, or_400}
use rshs.Webdav.Entries.{propfind_answer}

module _ {Disk : Type 0} (sys : Platform Disk) (linux : Bool) where
  unfoldable pub handle_propfind : ℕ → ℕ → Request → Handler Disk (Option Response)
  unfolding existing_target parse_depth body_of or_400 parse_propfind_request propfind_answer
  handle_propfind fuel now req = do
    fs_path ← existing_target sys req.path
    body_bytes ← body_of req
    request ← or_400 (parse_propfind_request sys.utf8_lossy (sys.xml_events body_bytes))
    λ s. (
      ok (propfind_answer sys linux fuel now s fs_path req.path (parse_depth req.headers) request),
      s,
    )
