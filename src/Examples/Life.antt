-- ===== src/Examples/Life.antt =====
-- The life of the server: the theorems on its start, its cleanup task and its TLS configuration.
use rshs.Auth.{AuthState, auth_middleware, cleanup_cache}
use rshs.Auth.Cleanup.{cleanup_cache-auth_middleware}
use rshs.Auth.Shadow.{ShadowPlatform}
use rshs.Cli.{Cli, to_auth_state, to_tailscale_auth_state}
use rshs.Common.{List, [], arith, bytes_key, codes, false, none, refl, some, true, ℕ, ◌↔◌, ◌∷◌, ◌≡◌}
use rshs.Examples.{still_platform}
use rshs.Examples.Access.{ann_header, one_user, plain_crates}
use rshs.Examples.Gate.{ann_put, calm}
use rshs.FilePath.{parse_path, path_key}
use rshs.Lock.{LockStore}
use rshs.Locking.Runs.{Ran, Ran-wait}
use rshs.Map.{get, nat_key}
use rshs.Server.{ServerState, run_request}
use rshs.Server.Cleanup.{cleanup_round}
use rshs.Server.Runs.{moment}
use rshs.Startup.{Network, lock_duration, main, with_tailscale_auth}
use rshs.Startup.Begin.{main-IsSound}
use rshs.Startup.Life.{
  IsSound, Serves, answers, cleans, serves_after, serves_here, shared_of, with_shared,
}
use rshs.Tls.{
  Arrival, RustlsConfig, TlsConfig, TlsCrates, accept, fingerprint, key_found, load, loaded, pkcs8,
  tcp_failed, tcp_stream,
}
use rshs.Tls.Laws.{LoadsFrom, load_iff}

abbrev quiet_cli : Cli
quiet_cli = record {
  root_dir = codes "/srv";
  host = codes "::";
  port = none;
  tls_cert = none;
  tls_key = none;
  users = codes "ann:pw" ∷ [];
  shadow_file = none;
  shadow_write = false;
  auth_cache_ttl = 60;
  accept_tailscale_serve_auth = none;
  tailscale_users_file = none;
  lock_timeout = 300;
  verbose = 0;
  quiet = false;
}

abbrev open_network : Network
open_network = record { parses_addr = λ s. true; bind = λ s. loaded tt; serve = loaded tt }

-- a certificate file with one certificate, and a key file
abbrev plain_tls : TlsCrates
plain_tls = record {
  read_file = λ p. loaded p;
  pem_certs = λ text. some text ∷ [];
  pem_key = λ text. key_found (pkcs8 text);
  accepts_cert = λ certs key. true;
  sha256 = λ s. s;
}

abbrev two_paths : TlsConfig
two_paths = record { cert_path = codes "cert.pem"; key_path = codes "key.pem" }

abbrev two_loaded : RustlsConfig
two_loaded = record {
  certs = codes "cert.pem" ∷ [];
  key = pkcs8 (codes "key.pem");
  alpn_protocols = codes "h2" ∷ codes "http/1.1" ∷ [];
}

load_iff_example :
    (load plain_tls two_paths ≡ loaded two_loaded) ↔ LoadsFrom plain_tls two_paths two_loaded
load_iff_example = load_iff plain_tls two_paths two_loaded

two_load : load plain_tls two_paths ≡ loaded two_loaded
unfolding load
two_load = refl

ab_fingerprint : fingerprint plain_tls (171 ∷ 7 ∷ []) ≡ codes "AB:07"
unfolding fingerprint
ab_fingerprint = refl

abbrev three_arrivals : List (Arrival ℕ ℕ)
three_arrivals = tcp_failed ∷ tcp_stream 1 8 false ∷ tcp_stream 2 9 true ∷ []

third_accepted :
    accept three_arrivals ≡ some (record { stream = 2; addr = 9; rest = []; slept = 1 })
unfolding accept
third_accepted = refl

-- one entry that has expired at 4, and one that is good until 50
abbrev cached_user : AuthState
cached_user = record one_user { auth_cache = (6, 4) ∷ (7, 50) ∷ [] }

cleanup_cache-auth_middleware_example :
    (auth_middleware plain_crates 6 9
      (record cached_user { auth_cache = cleanup_cache 5 cached_user.auth_cache })
      ann_header).0
    ≡ (auth_middleware plain_crates 6 9 cached_user ann_header).0
unfolding get
cleanup_cache-auth_middleware_example =
    cleanup_cache-auth_middleware plain_crates 5 6 9 (omega arith) cached_user (refl, (refl, tt))
      ann_header

-- a file system without shadow files
abbrev still_shadow : ShadowPlatform (Unit {0})
still_shadow = record {
  exists = λ d path. false;
  parent_of = λ path. none;
  create_dir_all = λ d path. (true, d);
  create_new = λ d path. (true, d);
  set_mode_600 = λ d path. (true, d);
  read_to_string = λ d path. none;
  write = λ d path content. (true, d);
  readonly = λ d path. none;
  hash_password = λ p. some p;
}

abbrev begun : ServerState (Unit {0})
begun =
    with_tailscale_auth still_platform tt (parse_path (codes "/srv")) (to_auth_state quiet_cli)
      (to_tailscale_auth_state (λ p. none) quiet_cli) (lock_duration 300)

quiet_start :
    (main still_platform still_shadow (λ p. none) open_network plain_tls tt quiet_cli).server
    ≡ some begun
unfolding main
quiet_start = refl

waiting_any : (locks : LockStore) → Ran (λ n. n) (λ a. Unit) (moment 5 locks) (moment 9 locks)
waiting_any locks = Ran-wait (λ a. Unit) (λ n. tt) 5 9 locks (omega arith)

-- a PUT, and a round of the cleanup task
abbrev put_done : ServerState (Unit {0})
put_done = (run_request still_platform plain_crates calm ann_put begun).1

two_steps :
    Serves still_platform plain_crates
      (record { clock = 5; server = begun })
      (record {
        clock = 9;
        server = with_shared put_done (cleanup_round 9 9 false (shared_of put_done));
      })
two_steps =
    serves_after (serves_after serves_here (answers begun calm ann_put (omega arith) waiting_any))
      (cleans put_done 9 false)

main-IsSound_example : IsSound plain_crates (record {
  clock = 9;
  server = with_shared put_done (cleanup_round 9 9 false (shared_of put_done));
})
main-IsSound_example =
    main-IsSound still_platform still_shadow (λ p. none) open_network plain_tls plain_crates tt
      quiet_cli begun 5 _ quiet_start two_steps
