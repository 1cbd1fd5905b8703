-- ===== src/Auth/Cleanup.antt =====
-- The cleanup task of src/server/cleanup.rs and the authentication cache: what it takes away would
-- have let nobody in.
use rshs.Auth.{
  AuthCache, AuthCrates, AuthState, Credential, auth_middleware, cache_enabled, check_basic,
  check_credential, check_hash, cleanup_cache, has_no_users, is_live, parse_basic_auth, plaintext,
  sha512_crypt, validate_cached,
}
use rshs.Common.{
  Bool, Bool-cases, Bytes, Option, [], ap, arith, bytes_key, eqb_iff, if◌then◌else◌, inl, inr, ltb,
  none, refl, retain, some, sym, ℕ, ◌&&◌, ◌∙◌, ◌∷◌, ◌≡◌, ◌≤◌,
}
use rshs.FilePath.{path_key}
use rshs.Http.{HeaderMap, err, ok, unauthorized}
use rshs.Map.{get, nat_key}
use rshs.Map.Laws.{HasDistinctKeys}

abbrev still_valid : ℕ → Option ℕ → Option ℕ
still_valid t none = none
still_valid t (some expiry) = if ltb t expiry then some expiry else none

get-cleanup_cache :
    (t : ℕ) (cache : AuthCache) (k : ℕ)
    → HasDistinctKeys cache
    → get (cleanup_cache t cache) k ≡ still_valid t (get cache k)
unfolding cleanup_cache retain get
get-cleanup_cache t [] k h = refl
get-cleanup_cache t ((j, expiry) ∷ cache) k (fresh, h) =
    ground (arith, get-cleanup_cache t cache k h, eqb_iff j k)

is_live-cleanup_cache :
    (t now : ℕ) (cache : AuthCache) (k : ℕ)
    → t ≤ now
    → HasDistinctKeys cache
    → is_live now (get (cleanup_cache t cache) k) ≡ is_live now (get cache k)
is_live-cleanup_cache t now cache k m h =
    rw (get-cleanup_cache t cache k h) (of_entry (get cache k))
  where
    of_entry : (o : Option ℕ) → is_live now (still_valid t o) ≡ is_live now o
    of_entry none = refl
    of_entry (some expiry) = ground arith

module _ (crates : AuthCrates) (t now later : ℕ) (m : t ≤ now) (s : AuthState)
    (distinct : HasDistinctKeys s.auth_cache) where
  abbrev cleaned : AuthState
  cleaned = record s { auth_cache = cleanup_cache t s.auth_cache }

  check_hash-cleaned :
      (hash password : Bytes) (k : ℕ)
      → (check_hash crates now later cleaned hash password k).0
        ≡ (check_hash crates now later s hash password k).0
  unfolding check_hash
  check_hash-cleaned hash password k =
      let live = is_live-cleanup_cache t now s.auth_cache k m distinct in
      rw live (elim (Bool-cases (cache_enabled s && is_live now (get s.auth_cache k))) [
        | inl hit ↦ rw hit refl
        | inr miss ↦
            rw miss (elim (Bool-cases (crates.verify_password password hash && cache_enabled s)) [
              | inl good ↦ rw good refl
              | inr bad ↦ rw bad refl
            ])
      ])

  check_credential-cleaned :
      (o : Option Credential) (password : Bytes) (k : ℕ)
      → (check_credential crates now later cleaned o password k).0
        ≡ (check_credential crates now later s o password k).0
  check_credential-cleaned none password k = refl
  check_credential-cleaned (some (plaintext expected)) password k = refl
  check_credential-cleaned (some (sha512_crypt hash)) password k =
      check_hash-cleaned hash password k

  check_basic-cleaned :
      (o : Option (Bytes × Bytes × Bytes))
      → (check_basic crates now later cleaned o).0 ≡ (check_basic crates now later s o).0
  unfolding validate_cached
  check_basic-cleaned none = refl
  check_basic-cleaned (some (username, password, stripped)) =
      let same =
        check_credential-cleaned (get s.users username) password
          (crates.hash_auth_header stripped) in
      ap (λ (z : Bool). if z then ok tt else err unauthorized) same

  -- A run of the cleanup task at any earlier time changes no answer of the authentication
  -- middleware: with the cache less its expired entries, a request is let through or refused as with
  -- the whole cache.
  pub cleanup_cache-auth_middleware :
      (headers : HeaderMap)
      → (auth_middleware crates now later
          (record s { auth_cache = cleanup_cache t s.auth_cache })
          headers).0
        ≡ (auth_middleware crates now later s headers).0
  unfolding auth_middleware
  cleanup_cache-auth_middleware headers = elim (Bool-cases (has_no_users s)) [
    | inl open_access ↦ rw open_access refl
    | inr closed ↦ rw closed (check_basic-cleaned (parse_basic_auth crates headers))
  ]

pub get-cleanup_cache-some :
    (t : ℕ) (cache : AuthCache) (k expiry : ℕ)
    → HasDistinctKeys cache
    → get (cleanup_cache t cache) k ≡ some expiry
    → get cache k ≡ some expiry
get-cleanup_cache-some t cache k expiry h e =
    of_entry (get cache k) (sym (get-cleanup_cache t cache k h) ∙ e)
  where
    of_entry : (o : Option ℕ) → still_valid t o ≡ some expiry → o ≡ some expiry
    of_entry none e' = cc
    of_entry (some v) e' = ground arith

pub cleanup_cache-HasDistinctKeys :
    (t : ℕ) (cache : AuthCache) → HasDistinctKeys cache → HasDistinctKeys (cleanup_cache t cache)
unfolding cleanup_cache retain
cleanup_cache-HasDistinctKeys t [] h = tt
cleanup_cache-HasDistinctKeys t ((j, expiry) ∷ cache) (fresh, h) =
    elim (Bool-cases (ltb t expiry)) [
      | inl stays ↦ rw stays (
        rw (get-cleanup_cache t cache j h) (rw fresh refl),
        cleanup_cache-HasDistinctKeys t cache h,
      )
      | inr goes ↦ rw goes (cleanup_cache-HasDistinctKeys t cache h)
    ]
