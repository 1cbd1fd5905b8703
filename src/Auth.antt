-- ===== src/Auth.antt =====
-- src/auth.rs and src/middleware/auth.rs: credentials, their validation with a cache, and the Basic
-- authentication middleware. What the crates compute (SHA-512 crypt, SipHash, base64, UTF-8) is a
-- parameter.
pub mod Laws
pub mod Merge
pub mod Shadow
pub mod RoundTrip
pub mod Cleanup
use rshs.Common.{
  Bool, Bytes, Option, bytes_key, codes, false, if◌then◌else◌, is_empty, ltb, none, retain, some,
  strip_prefix, true, ℕ, ◌&&◌, ◌+◌, ◌/◌, ◌==◌,
}
use rshs.FilePath.{path_key}
use rshs.Headers.Clark.{split_once}
use rshs.Http.{HeaderMap, Result, err, header_text, ok, unauthorized}
use rshs.Map.{HashMap, extend, get, insert, nat_key}

pub data Credential : Type 0 where
  plaintext sha512_crypt : Bytes → Credential

-- Expiry times are nanoseconds, as is the time to live.
abbrev pub AuthCache : Type 0
AuthCache = HashMap ℕ ℕ

pub record AuthState : Type 0 where
  pub users : HashMap Bytes Credential
  pub auth_cache : AuthCache
  pub auth_cache_ttl : ℕ

-- `verify password hash`, the hash of a header's text, base64, and the check of UTF-8.
pub record AuthCrates : Type 0 where
  pub verify_password : Bytes → Bytes → Bool
  pub hash_auth_header : Bytes → ℕ
  pub base64_decode : Bytes → Option Bytes
  pub is_utf8 : Bytes → Bool

unfoldable pub add_user : AuthState → Bytes → Bytes → AuthState
add_user s username password = record s { users = insert s.users username (plaintext password) }

abbrev pub has_no_users : AuthState → Bool
has_no_users s = is_empty s.users

unfoldable pub merge_cli : AuthState → AuthState → AuthState
merge_cli s other = record s { users = extend s.users other.users }

-- `HashMap::entry(…).and_modify(…)` with a new value
unfoldable pub modify_entry : AuthCache → ℕ → ℕ → AuthCache
modify_entry cache k v = elim (get cache k) [ none ↦ cache | some old ↦ insert cache k v ]

-- The pruning of `cleanup_task`.
unfoldable pub cleanup_cache : ℕ → AuthCache → AuthCache
cleanup_cache now cache = retain (λ e. ltb now e.1) cache

abbrev pub is_live : ℕ → Option ℕ → Bool
is_live now none = false
is_live now (some expiry) = ltb now expiry

abbrev pub cache_enabled : AuthState → Bool
cache_enabled s = ltb 0 (s.auth_cache_ttl / 1_000_000_000)

module _ (crates : AuthCrates) where
  abbrev pub matches : Bytes → Option Credential → Bool
  matches password none = false
  matches password (some (plaintext expected)) = expected == password
  matches password (some (sha512_crypt hash)) = crates.verify_password password hash

  unfoldable pub validate : AuthState → Bytes → Bytes → Bool
  validate s username password = matches password (get s.users username)

  -- The SHA-512 branch of `validate_cached`: the cache, and on a miss the verification, whose end
  -- reads the clock again.
  unfoldable pub check_hash : ℕ → ℕ → AuthState → Bytes → Bytes → ℕ → Bool × AuthState
  check_hash now later s hash password header_hash =
      let good = crates.verify_password password hash in
      if cache_enabled s && is_live now (get s.auth_cache header_hash)
      then (
        true,
        record s { auth_cache = modify_entry s.auth_cache header_hash (now + s.auth_cache_ttl) },
      )
      else if good && cache_enabled s
      then (
        good,
        record s { auth_cache = insert s.auth_cache header_hash (later + s.auth_cache_ttl) },
      )
      else (good, s)

  abbrev pub check_credential : ℕ → ℕ → AuthState → Option Credential → Bytes → ℕ → Bool × AuthState
  check_credential now later s none password header_hash = (false, s)
  check_credential now later s (some (plaintext expected)) password header_hash =
      (expected == password, s)
  check_credential now later s (some (sha512_crypt hash)) password header_hash =
      check_hash now later s hash password header_hash

  unfoldable pub validate_cached : ℕ → ℕ → AuthState → Bytes → Bytes → ℕ → Bool × AuthState
  validate_cached now later s username password header_hash =
      check_credential now later s (get s.users username) password header_hash

  -- The user and the password of what stands behind "Basic ".
  unfoldable pub basic_credentials : Bytes → Option (Bytes × Bytes)
  basic_credentials stripped = elim (crates.base64_decode stripped) [
    | none ↦ none
    | some decoded ↦ if crates.is_utf8 decoded then split_once b':' decoded else none
  ]

  abbrev pub basic_value : HeaderMap → Option Bytes
  basic_value headers = elim (header_text headers (codes "authorization")) [
    | none ↦ none
    | some value ↦ strip_prefix (codes "Basic ") value
  ]

  -- with the text that the cache key is the hash of
  unfoldable pub parse_basic_auth : HeaderMap → Option (Bytes × Bytes × Bytes)
  parse_basic_auth headers = elim (basic_value headers) [
    | none ↦ none
    | some stripped ↦ elim (basic_credentials stripped) [
      | none ↦ none
      | some (username, password) ↦ some (username, password, stripped)
    ]
  ]

  abbrev pub decide_access : Bool × AuthState → Result (Unit {0}) × AuthState
  decide_access (valid, s) = (if valid then ok tt else err unauthorized, s)

  abbrev pub check_basic :
      ℕ → ℕ → AuthState → Option (Bytes × Bytes × Bytes) → Result (Unit {0}) × AuthState
  check_basic now later s none = (err unauthorized, s)
  check_basic now later s (some (username, password, stripped)) =
      decide_access
        (validate_cached now later s username password (crates.hash_auth_header stripped))

  -- `ok` runs the rest of the stack.
  unfoldable pub auth_middleware : ℕ → ℕ → AuthState → HeaderMap → Result (Unit {0}) × AuthState
  auth_middleware now later s headers =
      if has_no_users s then (ok tt, s) else check_basic now later s (parse_basic_auth headers)
