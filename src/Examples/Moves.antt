-- ===== src/Examples/Moves.antt =====
-- MOVE: the theorem on what stays, at a disk that says which paths are there.
use rshs.App.{AppState, Metadata, Platform, Request, io_done}
use rshs.Common.{
  Bool, [], bytes_key, codes, false, if◌then◌else◌, none, not, some, true, ◌&&◌, ◌++◌, ◌==◌, ◌||◌,
  ◌∷◌,
}
use rshs.Examples.{file_f, folder_d, one_header, platform_on, put_request, served}
use rshs.FilePath.{FilePath, normal, path_key, starts_with}
use rshs.Map.{nat_key}
use rshs.Time.{since_epoch}

abbrev Present : Type 0
Present = FilePath → Bool

abbrev plain_file : Metadata
plain_file = record {
  is_dir = false;
  is_file = true;
  len = 7;
  modified = some (since_epoch 5_000_000_000);
  created = none;
}

abbrev without : Present → FilePath → Present
without d p q = not (starts_with q p) && d q

abbrev with_path : Present → FilePath → Present
with_path d p q = (q == p) || d q

abbrev present_platform : Platform Present
present_platform = record (platform_on Present) {
  metadata = λ d p. if d p then some plain_file else none;
  create_dir = λ d p. (io_done, with_path d p);
  copy = λ d p p'. (io_done, with_path d p');
  remove_dir_all = λ d p. (io_done, without d p);
  remove_file = λ d p. (io_done, without d p);
  rename = λ d p p'. (io_done, with_path (without d p) p');
}

abbrev look_present : Present → FilePath → Bool
look_present d q = d q

-- a disk without links
abbrev no_link : Present → FilePath → Bool
no_link d p = false

abbrev file_g : FilePath
file_g = folder_d ++ normal (codes "g") ∷ []

abbrev only_f : Present
only_f p = p == file_f

abbrev present_state : AppState Present
present_state = record {
  root_dir = served;
  root_canonical = served;
  dead_props = [];
  locks = [];
  canonical_cache = [];
  lock_timeout = 0;
  disk = only_f;
}

abbrev move_request : Request
move_request = record put_request { headers = one_header (codes "destination") (codes "/d/g") }

abbrev moved_state : AppState Present
moved_state = record present_state {
  canonical_cache = (folder_d, folder_d) ∷ [];
  disk = with_path (without (with_path only_f file_g) file_f) file_g;
}
