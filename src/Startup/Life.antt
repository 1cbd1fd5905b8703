-- ===== src/Startup/Life.antt =====
-- The life of the server, from `main` over its requests and the rounds of the cleanup task: what
-- every state in it satisfies.
use rshs.App.{Platform, Request}
use rshs.Auth.{
  AuthCache, AuthCrates, AuthState, Credential, auth_middleware, cache_enabled, check_basic,
  check_credential, check_hash, cleanup_cache, has_no_users, is_live, modify_entry,
  parse_basic_auth, plaintext, sha512_crypt, validate_cached,
}
use rshs.Auth.Cleanup.{cleanup_cache-HasDistinctKeys, get-cleanup_cache-some}
use rshs.Auth.Laws.{CacheIsSound, IsAccepted-cache, auth_middleware_sound}
use rshs.Common.{
  Bool, Bool-cases, Bytes, Option, Option-cases, bytes_key, false, inl, inr, none, some, true, ℕ,
  ◌&&◌, ◌+◌, ◌≤◌,
}
use rshs.FilePath.{path_key}
use rshs.Http.{HeaderMap, Result-cases}
use rshs.Lock.{LockStore}
use rshs.Locking.Invariant.{
  IsConsistent, Reach-IsConsistent, cleanup-IsConsistent, tick-IsConsistent,
}
use rshs.Locking.Runs.{Ran}
use rshs.Locking.Spec.{Action}
use rshs.Map.{get, nat_key}
use rshs.Map.Laws.{HasDistinctKeys, insert-HasDistinctKeys}
use rshs.Server.{
  ServerState, Surroundings, is_health_check, run_authenticated, run_locked, run_request,
}
use rshs.Server.Cleanup.{Shared, cleanup_round}
use rshs.Server.Locks.{run_request-Ran}
use rshs.Server.Runs.{IsOrderly, moment}
use rshs.Tailscale.{tailscale_auth_middleware}

pub record Moment (Disk : Type 0) : Type 0 where
  pub clock : ℕ
  pub server : ServerState Disk

abbrev pub shared_of : {Disk : Type 0} → ServerState Disk → Shared
shared_of s = record { locks = s.app.locks; auth_cache = s.auth.auth_cache }

abbrev pub with_shared : {Disk : Type 0} → ServerState Disk → Shared → ServerState Disk
with_shared s left = record s {
  app = record s.app { locks = left.locks };
  auth = record s.auth { auth_cache = left.auth_cache };
}

-- No step is ruled out.
abbrev AnyAction : Action → Type 0
AnyAction a = Unit

-- A request is answered, time passes, or the cleanup task runs a round. While a LOCK waits between
-- its two sections, others may take any steps on the lock store.
pub data ServerStep {Disk : Type 0} (sys : Platform Disk) (crates : AuthCrates)
    : Moment Disk → Moment Disk → Type 0 where
  answers :
      (s : ServerState Disk) (env : Surroundings) (req : Request)
      → env.now ≤ env.later
      → ((locks : LockStore)
          → Ran sys.hash AnyAction (moment env.now locks) (moment env.later (env.between locks)))
      → ServerStep sys crates
          (record { clock = env.now; server = s })
          (record { clock = env.later; server = (run_request sys crates env req s).1 })
  idles :
      (s : ServerState Disk) (clock n : ℕ)
      → ServerStep sys crates
          (record { clock = clock; server = s })
          (record { clock = clock + n; server = s })
  cleans :
      (s : ServerState Disk) (clock : ℕ) (poisoned : Bool)
      → ServerStep sys crates
          (record { clock = clock; server = s })
          (record {
            clock = clock;
            server = with_shared s (cleanup_round clock clock poisoned (shared_of s));
          })

pub data Serves {Disk : Type 0} (sys : Platform Disk) (crates : AuthCrates) (m : Moment Disk)
    : Moment Disk → Type 0 where
  serves_here : Serves sys crates m m
  serves_after :
      {u v : Moment Disk}
      → Serves sys crates m u
      → ServerStep sys crates u v
      → Serves sys crates m v

pub record IsSound {Disk : Type 0} (crates : AuthCrates) (m : Moment Disk) : Type 0 where
  pub locks : IsConsistent m.clock m.server.app.locks
  pub cache : CacheIsSound crates m.server.auth
  pub distinct : HasDistinctKeys m.server.auth.auth_cache

module _ (crates : AuthCrates) (now later : ℕ) (s : AuthState)
    (h : HasDistinctKeys s.auth_cache) where
  modify_entry-HasDistinctKeys :
      (k v : ℕ) (cache : AuthCache)
      → HasDistinctKeys cache
      → HasDistinctKeys (modify_entry cache k v)
  unfolding modify_entry
  modify_entry-HasDistinctKeys k v cache d = elim (Option-cases (get cache k)) [
    | inl missing ↦ rw (missing, modify_entry) d
    | inr (old, found) ↦ rw (found, modify_entry) (insert-HasDistinctKeys cache k v d)
  ]

  check_hash-HasDistinctKeys :
      (hash password : Bytes) (k : ℕ)
      → HasDistinctKeys (check_hash crates now later s hash password k).1.auth_cache
  unfolding check_hash
  check_hash-HasDistinctKeys hash password k =
      elim (Bool-cases (cache_enabled s && is_live now (get s.auth_cache k))) [
        | inl hit ↦ rw hit (modify_entry-HasDistinctKeys k (now + s.auth_cache_ttl) s.auth_cache h)
        | inr miss ↦
            rw miss (elim (Bool-cases (crates.verify_password password hash && cache_enabled s)) [
              | inl good ↦
                  rw good (insert-HasDistinctKeys s.auth_cache k (later + s.auth_cache_ttl) h)
              | inr bad ↦ rw bad h
            ])
      ]

  check_credential-HasDistinctKeys :
      (o : Option Credential) (password : Bytes) (k : ℕ)
      → HasDistinctKeys (check_credential crates now later s o password k).1.auth_cache
  check_credential-HasDistinctKeys none password k = h
  check_credential-HasDistinctKeys (some (plaintext expected)) password k = h
  check_credential-HasDistinctKeys (some (sha512_crypt hash)) password k =
      check_hash-HasDistinctKeys hash password k

  check_basic-HasDistinctKeys :
      (o : Option (Bytes × Bytes × Bytes))
      → HasDistinctKeys (check_basic crates now later s o).1.auth_cache
  unfolding validate_cached
  check_basic-HasDistinctKeys none = h
  check_basic-HasDistinctKeys (some (username, password, stripped)) =
      check_credential-HasDistinctKeys (get s.users username) password
        (crates.hash_auth_header stripped)

  auth_middleware-HasDistinctKeys :
      (headers : HeaderMap)
      → HasDistinctKeys (auth_middleware crates now later s headers).1.auth_cache
  unfolding auth_middleware
  auth_middleware-HasDistinctKeys headers = elim (Bool-cases (has_no_users s)) [
    | inl open_access ↦ rw open_access h
    | inr closed ↦ rw closed (check_basic-HasDistinctKeys (parse_basic_auth crates headers))
  ]

module _ {Disk : Type 0} (sys : Platform Disk) (crates : AuthCrates) where
  -- The credentials' part of a request is the middleware's, or nothing.
  run_request-auth :
      (P : AuthState → Type 0) (env : Surroundings) (req : Request) (s : ServerState Disk)
      → P s.auth
      → P (auth_middleware crates env.now env.later s.auth req.headers).1
      → P (run_request sys crates env req s).1.auth
  unfolding run_request run_authenticated run_locked
  run_request-auth P env req s old new = elim (Bool-cases (is_health_check req.headers)) [
    | inl health ↦ rw (health, run_request) old
    | inr plain_request ↦ elim (Result-cases (tailscale_auth_middleware s.tailscale req.headers)) [
      | inr (code, refused_so) ↦ rw (plain_request, refused_so, run_request) old
      | inl (u, admitted) ↦
          elim (Result-cases (auth_middleware crates env.now env.later s.auth req.headers).0) [
            | inr (code, refused_so) ↦
                rw (plain_request, admitted, run_request) (rw (refused_so, run_authenticated) new)
            | inl (v, known) ↦
                rw (plain_request, admitted, run_request) (rw (known, run_authenticated) new)
          ]
    ]
  ]

  any-IsOrderly :
      (env : Surroundings) (headers : HeaderMap)
      → env.now ≤ env.later
      → ((locks : LockStore)
          → Ran sys.hash AnyAction (moment env.now locks) (moment env.later (env.between locks)))
      → IsOrderly sys env AnyAction headers
  any-IsOrderly env headers ordered others = record {
    ticks = λ n. tt;
    locks_own = λ target q reply own. tt;
    unlocks_own = λ p token e. tt;
    ordered = ordered;
    others = others;
  }

  cleaned-CacheIsSound :
      (s : AuthState) (t : ℕ)
      → HasDistinctKeys s.auth_cache
      → CacheIsSound crates s
      → CacheIsSound crates (record s { auth_cache = cleanup_cache t s.auth_cache })
  cleaned-CacheIsSound s t distinct sound key expiry e =
      let (other, hashed, accepted) =
        sound key expiry (get-cleanup_cache-some t s.auth_cache key expiry distinct e) in
      (other, hashed, IsAccepted-cache crates s _ accepted)

  clean-IsSound :
      (s : ServerState Disk) (clock : ℕ) (poisoned : Bool)
      → IsSound crates (record { clock = clock; server = s })
      → IsSound crates (record {
        clock = clock;
        server = with_shared s (cleanup_round clock clock poisoned (shared_of s));
      })
  unfolding cleanup_round
  clean-IsSound s clock true h = record {
    locks = cleanup-IsConsistent clock s.app.locks h.locks;
    cache = h.cache;
    distinct = h.distinct;
  }
  clean-IsSound s clock false h = record {
    locks = cleanup-IsConsistent clock s.app.locks h.locks;
    cache = cleaned-CacheIsSound s.auth clock h.distinct h.cache;
    distinct = cleanup_cache-HasDistinctKeys clock s.auth.auth_cache h.distinct;
  }

  ServerStep-IsSound :
      {u v : Moment Disk} → ServerStep sys crates u v → IsSound crates u → IsSound crates v
  ServerStep-IsSound (answers s env req ordered others) h =
      let ran =
        run_request-Ran sys crates env AnyAction req s
          (any-IsOrderly env req.headers ordered others) in
      record {
        locks = Reach-IsConsistent h.locks ran.run;
        cache =
            run_request-auth (CacheIsSound crates) env req s h.cache
              (auth_middleware_sound crates env.now env.later s.auth req.headers h.cache).0;
        distinct =
            run_request-auth (λ a. HasDistinctKeys a.auth_cache) env req s h.distinct
              (auth_middleware-HasDistinctKeys crates env.now env.later s.auth h.distinct
                req.headers);
      }
  ServerStep-IsSound (idles s clock n) h = record {
    locks = tick-IsConsistent clock s.app.locks h.locks n;
    cache = h.cache;
    distinct = h.distinct;
  }
  ServerStep-IsSound (cleans s clock poisoned) h = clean-IsSound s clock poisoned h

  pub Serves-IsSound :
      {u v : Moment Disk} → Serves sys crates u v → IsSound crates u → IsSound crates v
  Serves-IsSound serves_here h = h
  Serves-IsSound (serves_after r step) h = ServerStep-IsSound step (Serves-IsSound r h)
