-- ===== src/Examples/Gate.antt =====
-- The router: the theorem on its layers, at a PUT of a known user.
use rshs.App.{Request}
use rshs.Auth.{basic_credentials, check_hash, has_no_users, parse_basic_auth, validate_cached}
use rshs.Auth.Laws.{IsKnown}
use rshs.Common.{
  Bytes, any, ap, bytes_eq, bytes_key, codes, false, false≢true, is_empty, refl, retain, some,
  strip_prefix, sym, trim_end_matches, trim_start_matches, true, ◌∙◌, ◌≡◌, ◌≢◌, ◌⊎◌,
}
use rshs.Examples.{put_request, still_platform, still_state}
use rshs.Examples.Access.{ann_header, empty_CacheIsSound, one_user, plain_crates}
use rshs.FilePath.{file_name, join, parent, parse_path, path_eq, path_key, split_slash, starts_with}
use rshs.Headers.Clark.{split_once}
use rshs.Http.{header_text}
use rshs.IfHeader.{eval_if}
use rshs.IfHeader.Parse.{parse_if_header}
use rshs.Lock.{active_slice, is_expired}
use rshs.LockStore.{is_ancestor_of, is_path_locked, walk_locked_ancestors}
use rshs.Map.{get, insert, nat_key}
use rshs.Middleware.LockEnforce.{check_source, check_unlocked, enforce, is_write, lacks_token}
use rshs.Resolve.{canonical_parent, ends_with_slash, place, resolve_and_guard, resolve_write_target}
use rshs.Server.{ServerState, Surroundings, run_authenticated, run_locked, run_request}
use rshs.Server.Gate.{run_request_sound}
use rshs.Tailscale.{disabled, is_disabled, permits}

abbrev pub ann_put : Request
ann_put = record put_request { headers = ann_header }

abbrev pub calm : Surroundings
calm = record { now = 5; later = 9; between = λ l. l; fuel = 1; linux = true }

abbrev pub one_server : ServerState (Unit {0})
one_server = record { auth = one_user; tailscale = disabled; app = still_state }

-- The request fills the cache of canonical parents.
cache_filled :
    is_empty (run_request still_platform plain_crates calm ann_put one_server).1.app.canonical_cache
    ≡ false
unfolding run_request run_authenticated run_locked bytes_eq is_disabled parse_basic_auth header_text
    strip_prefix basic_credentials split_once validate_cached check_hash is_write enforce
    lacks_token parse_if_header check_source check_unlocked resolve_and_guard resolve_write_target
    join parse_path split_slash trim_start_matches parent get insert place starts_with file_name
    canonical_parent ends_with_slash trim_end_matches any is_path_locked eval_if active_slice retain
    path_eq walk_locked_ancestors is_ancestor_of is_expired
cache_filled = refl

app_changed :
    (run_request still_platform plain_crates calm ann_put one_server).1.app ≢ one_server.app
app_changed h = false≢true (sym cache_filled ∙ ap (λ s. is_empty s.canonical_cache) h)

run_request_sound_example :
    ((is_disabled one_server.tailscale ≡ true)
      ⊎ ((login : Bytes) × (header_text ann_put.headers (codes "tailscale-user-login") ≡ some login)
          × (permits one_server.tailscale login ≡ true)))
    × ((has_no_users one_user ≡ true)
        ⊎ ((username : Bytes) × (password : Bytes) × (stripped : Bytes) × (parse_basic_auth
                plain_crates ann_put.headers
              ≡ some (username, password, stripped))
            × IsKnown plain_crates one_user stripped))
run_request_sound_example =
    run_request_sound still_platform plain_crates calm ann_put one_server empty_CacheIsSound
      app_changed
