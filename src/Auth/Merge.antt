-- ===== src/Auth/Merge.antt =====
-- `merge_cli`: which credential counts after a merge.
use rshs.Auth.{AuthState, merge_cli}
use rshs.Common.{Bytes, bytes_key, ◌≡◌}
use rshs.FilePath.{path_key}
use rshs.Map.{get, nat_key}
use rshs.Map.Laws.{HasDistinctKeys, get-extend, or_else}

-- After a merge a user has the credential of the command line if it names one, and else the old one.
pub merge_cli_lem :
    (s other : AuthState) (username : Bytes)
    → HasDistinctKeys other.users
    → get (merge_cli s other).users username
      ≡ or_else (get other.users username) (get s.users username)
unfolding merge_cli
merge_cli_lem s other username h = get-extend s.users other.users username h
