-- ===== src/Startup.antt =====
-- `main` of src/main.rs, and `ServerConfig`, `AppState::with_tailscale_auth` and `start_server` of
-- src/server/mod.rs: what the server starts with, and how it ends.
pub mod Life
pub mod Begin
use rshs.App.{Platform}
use rshs.Auth.{AuthState}
use rshs.Auth.Shadow.{ShadowPlatform, build_auth_state}
use rshs.Cli.{
  Cli, effective_port, to_auth_state, to_shadow_file_arg, to_tailscale_auth_state, to_tls_config,
}
use rshs.Common.{
  Bool, Bytes, Option, [], eqb, if◌then◌else◌, none, not, or_value, some, ℕ, ◌*◌, ◌++◌, ◌∷◌,
}
use rshs.FilePath.{FilePath, parse_path}
use rshs.Server.{ServerState}
use rshs.Tailscale.{TailscaleAuthState}
use rshs.Time.Format.{decimal}
use rshs.Tls.{
  Loaded, TlsConfig, TlsCrates, failed, invalid_input, load, loaded, other_error, ◌>>=◌, ◌>>◌,
}

pub record ServerConfig : Type 0 where
  pub root_dir : FilePath
  pub host : Bytes
  pub port : ℕ
  pub tls_config : Option TlsConfig
  pub auth_state : AuthState
  pub tailscale_auth_state : TailscaleAuthState
  pub lock_timeout : ℕ

-- What the operating system and axum answer: whether an address parses, whether it can be bound, and
-- how serving ends, which is by the shutdown signal or by an error.
pub record Network : Type 0 where
  pub parses_addr : Bytes → Bool
  pub bind : Bytes → Loaded (Unit {0})
  pub serve : Loaded (Unit {0})

pub data TaskState : Type 0 where
  not_spawned running stopped : TaskState

-- The state that was served, what became of the cleanup task, and the result.
pub record Started (Disk : Type 0) : Type 0 where
  pub server : Option (ServerState Disk)
  pub cleanup : TaskState
  pub outcome : Loaded (Unit {0})

-- seconds of the configuration as a duration; zero stands for locks that never expire
unfoldable pub lock_duration : ℕ → ℕ
lock_duration seconds = if eqb seconds 0 then 0 else seconds * 1_000_000_000

-- `.map_err(Error::other)`
abbrev pub as_other : Loaded (Unit {0}) → Loaded (Unit {0})
as_other (loaded u) = loaded u
as_other (failed e) = failed other_error

-- the TLS configuration, if there is one
abbrev pub load_tls : TlsCrates → Option TlsConfig → Loaded (Unit {0})
load_tls crates none = loaded tt
load_tls crates (some tls) = load crates tls >>= λ c. loaded tt

abbrev pub ended : {Disk : Type 0} → ServerState Disk → Loaded (Unit {0}) → Started Disk
ended s (loaded u) = record { server = some s; cleanup = stopped; outcome = loaded u }
ended s (failed e) = record { server = some s; cleanup = running; outcome = failed e }

-- `ServerConfig::new` in `main`; `read` reads a users file
unfoldable pub config_of : (Bytes → Option Bytes) → Cli → AuthState → ServerConfig
unfolding to_tailscale_auth_state effective_port to_tls_config
config_of read cli auth_state = record {
  root_dir = parse_path cli.root_dir;
  host = cli.host;
  port = effective_port cli;
  tls_config = to_tls_config cli;
  auth_state = auth_state;
  tailscale_auth_state = to_tailscale_auth_state read cli;
  lock_timeout = cli.lock_timeout;
}

module _ {Disk : Type 0} (sys : Platform Disk) where
  unfoldable pub with_tailscale_auth :
      Disk → FilePath → AuthState → TailscaleAuthState → ℕ → ServerState Disk
  with_tailscale_auth disk root auth_state tailscale_auth_state lock_timeout = record {
    auth = auth_state;
    tailscale = tailscale_auth_state;
    app = record {
      root_dir = root;
      root_canonical = or_value (sys.canonicalize disk root) root;
      dead_props = [];
      locks = [];
      canonical_cache = [];
      lock_timeout = lock_timeout;
      disk = disk;
    };
  }

  unfoldable pub start_server : Network → TlsCrates → Disk → ServerConfig → Started Disk
  unfolding with_tailscale_auth lock_duration load decimal
  start_server net tls disk config =
      let addr = config.host ++ b':' ∷ decimal config.port in
      let s =
        with_tailscale_auth disk config.root_dir config.auth_state config.tailscale_auth_state
          (lock_duration config.lock_timeout) in
      if not (net.parses_addr addr)
      then record { server = none; cleanup = not_spawned; outcome = failed invalid_input }
      else ended s (do load_tls tls config.tls_config; net.bind addr; as_other net.serve)

  -- `main`, behind the parsing of the arguments.
  unfoldable pub main :
      ShadowPlatform Disk → (Bytes → Option Bytes) → Network → TlsCrates → Disk → Cli → Started Disk
  unfolding build_auth_state to_auth_state to_shadow_file_arg config_of start_server
  main shadow_sys read net tls disk cli =
      let (auth_state, disk') =
        build_auth_state shadow_sys disk (to_auth_state cli) (to_shadow_file_arg cli)
          cli.shadow_write cli.auth_cache_ttl in
      start_server net tls disk' (config_of read cli auth_state)
