-- ===== src/Examples.antt =====
-- A small tree, disk and store that the examples run on.
pub mod Locks
pub mod Paths
pub mod Headers
pub mod Requests
pub mod Access
pub mod Gate
pub mod Runs
pub mod Shadows
pub mod Life
pub mod Scans
pub mod Files
pub mod Dates
pub mod Documents
pub mod Transfers
pub mod Walks
pub mod Moves
pub mod Patches
use rshs.App.{AppState, Platform, Request, io_done, io_exists, io_failed}
use rshs.Common.{Bytes, [], bytes_eq, codes, false, if◌then◌else◌, none, some, ◌++◌, ◌∷◌}
use rshs.FilePath.{FilePath, normal, root_dir}
use rshs.Http.{HeaderMap}
use rshs.Lock.{LockInfo, LockStore, depth_infinity, exclusive}
use rshs.LockHandler.{LockRequest}

-- "/srv", the served root
abbrev pub served : FilePath
served = root_dir ∷ normal (codes "srv") ∷ []

abbrev pub folder_d : FilePath
folder_d = served ++ normal (codes "d") ∷ []

abbrev pub file_f : FilePath
file_f = folder_d ++ normal (codes "f") ∷ []

abbrev pub token_t : Bytes
token_t = codes "opaquelocktoken:t"

abbrev pub exclusive_lock : LockInfo
exclusive_lock = record {
  scope = exclusive;
  token = token_t;
  owner = none;
  created = 5;
  timeout = some 100;
  depth = depth_infinity;
}

-- the folder is locked, to infinite depth
abbrev pub one_lock : LockStore
one_lock = (folder_d, exclusive_lock ∷ []) ∷ []

-- a platform on which every path is canonical, nothing is there, and creation succeeds without an effect
abbrev pub platform_on : (Disk : Type 0) → Platform Disk
platform_on Disk = record {
  canonicalize = λ d p. some p;
  try_exists = λ d p. false;
  metadata = λ d p. none;
  create_file = λ d p. (io_done, d);
  write_stream = λ d p body. (io_done, d);
  flush = λ d p. (io_done, d);
  can_open = λ d p. false;
  create_new = λ d p. (io_exists, d);
  create_dir = λ d p. (io_done, d);
  remove_dir_all = λ d p. (io_failed, d);
  remove_file = λ d p. (io_done, d);
  rename = λ d p q. (io_failed, d);
  copy = λ d p q. (io_failed, d);
  percent_decode = λ s. s;
  utf8_lossy = λ s. s;
  xml_events = λ s. [];
  read_dir = λ d p. none;
  statx_ring = λ d p names. none;
  guess_mime = λ p. none;
  percent_encode = λ s. s;
  hash = λ n. n;
}

abbrev pub still_platform : Platform (Unit {0})
still_platform = platform_on (Unit {0})

abbrev pub still_state : AppState (Unit {0})
still_state = record {
  root_dir = served;
  root_canonical = served;
  dead_props = [];
  locks = one_lock;
  canonical_cache = [];
  lock_timeout = 0;
  disk = tt;
}

abbrev pub no_headers : HeaderMap
no_headers name = none

-- one header alone
abbrev pub one_header : Bytes → Bytes → HeaderMap
one_header name value other =
    if bytes_eq name other then some (record { bytes = value; text = some value }) else none

abbrev pub put_request : Request
put_request = record {
  method = codes "PUT";
  path = codes "/d/f";
  headers = no_headers;
  body = some [];
  stream = [];
}

abbrev pub exclusive_request : LockRequest
exclusive_request = record {
  if_tokens = [];
  scope = exclusive;
  owner = none;
  timeout = some 100;
  depth = depth_infinity;
}
