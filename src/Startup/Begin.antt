-- ===== src/Startup/Begin.antt =====
-- What `main` of src/main.rs starts the server with, and what its life keeps.
use rshs.App.{Platform}
use rshs.Auth.{AuthCrates, AuthState, add_user, merge_cli}
use rshs.Auth.Shadow.{
  ShadowFileArg, ShadowPlatform, build_auth_state, build_with_shadow, load_content,
  load_from_shadow_file, new_auth_state,
}
use rshs.Cli.{Cli, add_entries, add_entry, to_auth_state, to_shadow_file_arg}
use rshs.Common.{
  Bool, Bool-cases, Bytes, List, Option, Option-cases, [], ap, bytes_key, false, if◌then◌else◌, inl,
  inr, is_empty, map_some, none, or_value, refl, some, true, ℕ, ◌++◌, ◌∙◌, ◌∷◌, ◌≡◌,
}
use rshs.FilePath.{path_key}
use rshs.Headers.Clark.{split_once}
use rshs.Map.{get, nat_key}
use rshs.Server.{ServerState}
use rshs.Startup.{Network, ServerConfig, config_of, ended, main, start_server, with_tailscale_auth}
use rshs.Startup.Life.{IsSound, Moment, Serves, Serves-IsSound}
use rshs.Time.Format.{decimal}
use rshs.Tls.{Loaded, TlsCrates, failed, loaded}

add_entry-cache :
    (config : AuthState) (entry : Bytes) → (add_entry config entry).auth_cache ≡ config.auth_cache
unfolding add_entry add_user
add_entry-cache config entry = elim (Option-cases (split_once b':' entry)) [
  | inl no_colon ↦ rw (no_colon, add_entry) refl
  | inr ((username, password), split_at) ↦ elim (Bool-cases (is_empty username)) [
    | inl nameless ↦ rw (split_at, add_entry) (rw nameless refl)
    | inr has_name ↦ rw (split_at, add_entry) (rw has_name refl)
  ]
]

add_entries-cache :
    (config : AuthState) (entries : List Bytes)
    → (add_entries config entries).auth_cache ≡ config.auth_cache
unfolding add_entries
add_entries-cache config [] = refl
add_entries-cache config (entry ∷ entries) =
    add_entries-cache (add_entry config entry) entries ∙ add_entry-cache config entry

to_auth_state-cache : (cli : Cli) → (to_auth_state cli).auth_cache ≡ []
unfolding to_auth_state new_auth_state
to_auth_state-cache cli = add_entries-cache new_auth_state cli.users

module _ {Disk : Type 0} (shadow_sys : ShadowPlatform Disk) where
  loaded-cache :
      (o : Option Bytes) → (or_value (map_some load_content o) new_auth_state).auth_cache ≡ []
  unfolding load_content new_auth_state
  loaded-cache none = refl
  loaded-cache (some content) = refl

  merged-cache :
      (test : Bool) (first cli_creds : AuthState)
      → first.auth_cache ≡ []
      → (if test then first else merge_cli first cli_creds).auth_cache ≡ []
  unfolding merge_cli
  merged-cache true first cli_creds e = e
  merged-cache false first cli_creds e = e

  build_auth_state-cache :
      (disk : Disk) (cli_creds : AuthState) (arg : Option ShadowFileArg) (write : Bool) (ttl : ℕ)
      → cli_creds.auth_cache ≡ []
      → (build_auth_state shadow_sys disk cli_creds arg write ttl).0.auth_cache ≡ []
  unfolding build_auth_state build_with_shadow load_from_shadow_file
  build_auth_state-cache disk cli_creds none write ttl e = e
  build_auth_state-cache disk cli_creds (some shadow) write ttl e =
      merged-cache (is_empty cli_creds.users) _ cli_creds (loaded-cache _)

begin-IsSound :
    {Disk : Type 0} (crates : AuthCrates) (clock : ℕ) (s : ServerState Disk)
    → s.app.locks ≡ []
    → s.auth.auth_cache ≡ []
    → IsSound crates (record { clock = clock; server = s })
unfolding get
begin-IsSound crates clock s no_locks no_cache = record {
  locks = rw no_locks (record { distinct = tt; compatible = λ p infos e. cc });
  cache = rw no_cache (λ key expiry e. cc);
  distinct = rw no_cache tt;
}

module _ {Disk : Type 0} (sys : Platform Disk) (shadow_sys : ShadowPlatform Disk)
    (read : Bytes → Option Bytes) (net : Network) (tls : TlsCrates) (crates : AuthCrates) where
  -- the state that is served, however serving ends
  ended-server :
      (s t : ServerState Disk) (m : Loaded (Unit {0})) → (ended s m).server ≡ some t → s ≡ t
  ended-server s t (loaded u) e = cc
  ended-server s t (failed k) e = cc

  start_server-begins :
      (disk : Disk) (config : ServerConfig) (s : ServerState Disk)
      → (start_server sys net tls disk config).server ≡ some s
      → (s.app.locks ≡ []) × (s.auth ≡ config.auth_state)
  unfolding start_server with_tailscale_auth
  start_server-begins disk config s e =
      elim (Bool-cases (net.parses_addr (config.host ++ b':' ∷ decimal config.port))) [
        | inr unknown ↦ let nothing : none ≡ some s = rw (unknown, start_server) at e in cc
        | inl known ↦
            let begun = ended-server _ s _ (rw (known, start_server) at e) in
            rw (← begun) (refl, refl)
      ]

  -- From the state that `main` starts to serve, whatever the arguments and the files say, every state
  -- that requests, the rounds of the cleanup task and time lead to is sound: no path has an active
  -- exclusive lock beside another active lock, and every entry of the authentication cache comes from
  -- a header that the credentials accept.
  pub main-IsSound :
      (disk : Disk) (cli : Cli) (s : ServerState Disk) (clock : ℕ) (v : Moment Disk)
      → (main sys shadow_sys read net tls disk cli).server ≡ some s
      → Serves sys crates (record { clock = clock; server = s }) v
      → IsSound crates v
  unfolding main
  main-IsSound disk cli s clock v started serves =
      let (auth_state, disk') =
        build_auth_state shadow_sys disk (to_auth_state cli) (to_shadow_file_arg cli)
          cli.shadow_write cli.auth_cache_ttl in
      let (no_locks, same_auth) =
        start_server-begins disk' (config_of read cli auth_state) s started in
      let no_cache =
        build_auth_state-cache shadow_sys disk (to_auth_state cli) (to_shadow_file_arg cli)
          cli.shadow_write cli.auth_cache_ttl (to_auth_state-cache cli) in
      Serves-IsSound sys crates serves
        (begin-IsSound crates clock s no_locks (ap (λ a. a.auth_cache) same_auth ∙ no_cache))
