-- ===== src/Cli.antt =====
-- The methods of `Cli` in src/cli.rs: what the arguments, as the clap crate has read them, mean.
use rshs.Auth.{AuthState, add_user}
use rshs.Auth.Shadow.{ShadowFileArg, new_auth_state, shadow_from_arg}
use rshs.Chain.{◌>>=◌}
use rshs.Common.{
  Bool, Bytes, List, Option, [], codes, eqb, if◌then◌else◌, is_empty, is_some, map_some, none,
  or_value, some, ℕ, ◌∷◌,
}
use rshs.Headers.Clark.{split_once}
use rshs.Tailscale.{TailscaleAuthState, disabled, from_arg, from_file, merge}
use rshs.Tls.{TlsConfig}

pub record Cli : Type 0 where
  pub root_dir : Bytes
  pub host : Bytes
  pub port : Option ℕ
  pub tls_cert : Option Bytes
  pub tls_key : Option Bytes
  pub users : List Bytes
  pub shadow_file : Option Bytes
  pub shadow_write : Bool
  pub auth_cache_ttl : ℕ
  pub accept_tailscale_serve_auth : Option Bytes
  pub tailscale_users_file : Option Bytes
  pub lock_timeout : ℕ
  pub verbose : ℕ
  pub quiet : Bool

unfoldable pub effective_port : Cli → ℕ
effective_port cli = or_value cli.port (if is_some cli.tls_cert then 8443 else 8080)

unfoldable pub to_tls_config : Cli → Option TlsConfig
to_tls_config cli = do
  cert ← cli.tls_cert
  key ← cli.tls_key
  some (record { cert_path = cert; key_path = key })

unfoldable pub to_shadow_file_arg : Cli → Option ShadowFileArg
unfolding shadow_from_arg
to_shadow_file_arg cli = map_some shadow_from_arg cli.shadow_file

-- one `--user` entry; one without a colon or with an empty name is left out
unfoldable pub add_entry : AuthState → Bytes → AuthState
unfolding split_once add_user
add_entry config entry = elim (split_once b':' entry) [
  | none ↦ config
  | some (username, password) ↦
      if is_empty username then config else add_user config username password
]

unfoldable pub add_entries : AuthState → List Bytes → AuthState
unfolding add_entry
add_entries config [] = config
add_entries config (entry ∷ entries) = add_entries (add_entry config entry) entries

unfoldable pub to_auth_state : Cli → AuthState
unfolding add_entries new_auth_state
to_auth_state cli = add_entries new_auth_state cli.users

-- `read` gives the content of a users file, if it can be read.
unfoldable pub to_tailscale_auth_state : (Bytes → Option Bytes) → Cli → TailscaleAuthState
unfolding from_arg from_file merge
to_tailscale_auth_state read cli =
    merge (or_value (map_some from_arg cli.accept_tailscale_serve_auth) disabled)
      (or_value (cli.tailscale_users_file >>= λ path. from_file (read path)) disabled)

-- `rshs_log` is the variable RSHS_LOG, `default_level` the default of the module.
unfoldable pub log_level : Option Bytes → Bytes → Cli → Bytes
log_level rshs_log default_level cli =
    if cli.quiet
    then codes "off"
    else if eqb cli.verbose 0
    then or_value rshs_log default_level
    else if eqb cli.verbose 1
    then codes "debug"
    else codes "trace"
