-- ===== src/Server/Gate.antt =====
-- The order of the layers of src/server/mod.rs: what a request must have to reach the shared state.
use rshs.App.{Platform, Request}
use rshs.Auth.{AuthCrates, auth_middleware, has_no_users, parse_basic_auth}
use rshs.Auth.Laws.{CacheIsSound, IsKnown, auth_middleware_sound}
use rshs.Common.{Bool-cases, Bytes, codes, inl, inr, refl, some, true, ◌≡◌, ◌≢◌, ◌⊎◌}
use rshs.Http.{Result-cases, header_text}
use rshs.Server.{ServerState, Surroundings, is_health_check, run_authenticated, run_request}
use rshs.Tailscale.{is_disabled, permits, tailscale_auth_middleware}
use rshs.Tailscale.Laws.{tailscale_auth_middleware_iff}

module _ {Disk : Type 0} (sys : Platform Disk) (crates : AuthCrates) (env : Surroundings) where
  -- From a sound cache, a request changes the shared state only if it passes both authentications:
  -- Tailscale's is off or its login is permitted, and there are no users or its Basic header has the
  -- hash of one that the credentials accept.
  pub run_request_sound :
      (req : Request) (s : ServerState Disk)
      → CacheIsSound crates s.auth
      → (run_request sys crates env req s).1.app ≢ s.app
      → ((is_disabled s.tailscale ≡ true)
          ⊎ ((login : Bytes) × (header_text req.headers (codes "tailscale-user-login") ≡ some login)
              × (permits s.tailscale login ≡ true)))
        × ((has_no_users s.auth ≡ true)
            ⊎ ((username : Bytes) × (password : Bytes) × (stripped : Bytes) × (parse_basic_auth
                    crates req.headers
                  ≡ some (username, password, stripped))
                × IsKnown crates s.auth stripped))
  unfolding run_request run_authenticated
  run_request_sound req s sound changed = elim (Bool-cases (is_health_check req.headers)) [
    | inl health ↦ absurd (changed (rw (health, run_request) refl))
    | inr plain_request ↦ elim (Result-cases (tailscale_auth_middleware s.tailscale req.headers)) [
      | inl (u, admitted) ↦
          elim (Result-cases (auth_middleware crates env.now env.later s.auth req.headers).0) [
            | inl (v, known) ↦ (
              (tailscale_auth_middleware_iff s.tailscale req.headers).0 (rw admitted refl),
              (auth_middleware_sound crates env.now env.later s.auth req.headers sound).1
                  (rw known refl),
            )
            | inr (code, refused_so) ↦ absurd (
                changed (
                  rw (plain_request, admitted, run_request)
                    (rw (refused_so, run_authenticated) refl)))
          ]
      | inr (code, refused_so) ↦ absurd (changed (rw (plain_request, refused_so, run_request) refl))
    ]
  ]
