-- ===== src/Auth/Laws.antt =====
-- The cache of the authentication lets nobody in whom the credentials would not.
use rshs.Auth.{
  AuthCache, AuthCrates, AuthState, Credential, auth_middleware, basic_credentials, basic_value,
  cache_enabled, check_hash, has_no_users, is_live, matches, modify_entry, parse_basic_auth,
  plaintext, sha512_crypt, validate, validate_cached,
}
use rshs.Common.{
  Bool-cases, Bytes, Option-cases, and-eq-true_iff, arith, bytes_key, eqb_iff, false≢true, inl, inr,
  refl, some, true, ℕ, ◌&&◌, ◌==◌, ◌∙◌, ◌≡◌, ◌⊎◌,
}
use rshs.FilePath.{path_key}
use rshs.Http.{HeaderMap, ok}
use rshs.Map.{get, insert, nat_key}
use rshs.Map.Laws.{get-insert}

module _ (crates : AuthCrates) where
  -- The text of a Basic header whose user and password the credentials accept.
  pub record IsAccepted (s : AuthState) (stripped : Bytes) : Type 0 where
    pub username : Bytes
    pub password : Bytes
    pub decoded : basic_credentials crates stripped ≡ some (username, password)
    pub valid : validate crates s username password ≡ true

  -- Every key of the cache is the hash of an accepted header.
  abbrev pub CacheIsSound : AuthState → Type 0
  CacheIsSound s =
      (key expiry : ℕ)
      → get s.auth_cache key ≡ some expiry
      → (stripped : Bytes) × (crates.hash_auth_header stripped ≡ key) × IsAccepted s stripped

  -- Acceptance does not depend on the cache.
  pub IsAccepted-cache :
      (s : AuthState) (cache : AuthCache) {stripped : Bytes}
      → IsAccepted s stripped
      → IsAccepted (record s { auth_cache = cache }) stripped
  unfolding validate
  IsAccepted-cache s cache a = record {
    username = a.username;
    password = a.password;
    decoded = a.decoded;
    valid = a.valid;
  }

  set_entry-CacheIsSound :
      (s : AuthState) (stripped : Bytes) (expiry : ℕ)
      → CacheIsSound s
      → ((other : Bytes) × (crates.hash_auth_header other ≡ crates.hash_auth_header stripped)
          × IsAccepted s other)
      → CacheIsSound
          (record s { auth_cache = insert s.auth_cache (crates.hash_auth_header stripped) expiry })
  set_entry-CacheIsSound s stripped expiry sound known key e stored =
      elim (Bool-cases (crates.hash_auth_header stripped == key)) [
        | inl same ↦
            let (other, hashed, accepted) = known in
            (
              other,
              hashed ∙ (eqb_iff (crates.hash_auth_header stripped) key).0 same,
              IsAccepted-cache s _ accepted,
            )
        | inr different ↦
            let old : get s.auth_cache key ≡ some e =
              ground
                (arith, get-insert s.auth_cache (crates.hash_auth_header stripped) key expiry) in
            let (other, hashed, accepted) = sound key e old in
            (other, hashed, IsAccepted-cache s _ accepted)
      ]

  accepted :
      (s : AuthState) (username password stripped : Bytes) (credential : Credential)
      → get s.users username ≡ some credential
      → basic_credentials crates stripped ≡ some (username, password)
      → matches crates password (some credential) ≡ true
      → IsAccepted s stripped
  unfolding validate
  accepted s username password stripped credential user decoded good = record {
    username = username;
    password = password;
    decoded = decoded;
    valid = rw (user, validate) good;
  }

  -- A header of the same hash is accepted.
  abbrev pub IsKnown : AuthState → Bytes → Type 0
  IsKnown s stripped =
      (other : Bytes) × (crates.hash_auth_header other ≡ crates.hash_auth_header stripped)
      × IsAccepted s other

  check_hash_sound :
      (now later : ℕ) (s : AuthState) (username password hash stripped : Bytes)
      → CacheIsSound s
      → get s.users username ≡ some (sha512_crypt hash)
      → basic_credentials crates stripped ≡ some (username, password)
      → CacheIsSound
          (check_hash crates now later s hash password (crates.hash_auth_header stripped)).1
        × ((check_hash crates now later s hash password (crates.hash_auth_header stripped)).0 ≡ true
            → (other : Bytes) × (crates.hash_auth_header other ≡ crates.hash_auth_header stripped)
              × IsAccepted s other)
  unfolding check_hash modify_entry get
  check_hash_sound now later s username password hash stripped sound user decoded =
      let h = crates.hash_auth_header stripped in
      let good = crates.verify_password password hash in
      elim (Bool-cases (cache_enabled s && is_live now (get s.auth_cache h))) [
        | inl hit ↦ elim (Option-cases (get s.auth_cache h)) [
          | inl missing ↦ ground (arith)
          | inr (expiry, stored) ↦
              let known = sound h expiry stored in
              rw (hit, check_hash)
                (
                  rw (stored, modify_entry) (set_entry-CacheIsSound s stripped _ sound known),
                  λ _. known,
                )
        ]
        | inr miss ↦ elim (Bool-cases (good && cache_enabled s)) [
          | inl verified ↦
              let good_one = ((and-eq-true_iff good (cache_enabled s)).0 verified).0 in
              let known : IsKnown s stripped = (
                stripped,
                refl,
                accepted s username password stripped (sha512_crypt hash) user decoded good_one,
              ) in
              rw (miss, check_hash)
                (rw verified (set_entry-CacheIsSound s stripped _ sound known, λ _. known))
          | inr unverified ↦
              rw (miss, check_hash)
                (rw unverified (
                  sound,
                  λ g. (
                    stripped,
                    refl,
                    accepted s username password stripped (sha512_crypt hash) user decoded g,
                  ),
                ))
        ]
      ]

  validate_cached_sound :
      (now later : ℕ) (s : AuthState) (username password stripped : Bytes)
      → CacheIsSound s
      → basic_credentials crates stripped ≡ some (username, password)
      → CacheIsSound
          (validate_cached crates now later s username password
            (crates.hash_auth_header stripped)).1
        × ((validate_cached crates now later s username password
                (crates.hash_auth_header stripped)).0
              ≡ true
            → IsKnown s stripped)
  unfolding validate_cached
  validate_cached_sound now later s username password stripped sound decoded =
      elim (Option-cases (get s.users username)) [
        | inl unknown ↦ rw (unknown, validate_cached) (sound, λ e. absurd (false≢true e))
        | inr (plaintext expected, user) ↦
            rw (user, validate_cached)
              (
                sound,
                λ g. (
                  stripped,
                  refl,
                  accepted s username password stripped (plaintext expected) user decoded g,
                ),
              )
        | inr (sha512_crypt hash, user) ↦
            rw (user, validate_cached)
              (check_hash_sound now later s username password hash stripped sound user decoded)
      ]

  parse_basic_auth-decoded :
      (headers : HeaderMap) (username password stripped : Bytes)
      → parse_basic_auth crates headers ≡ some (username, password, stripped)
      → basic_credentials crates stripped ≡ some (username, password)
  unfolding parse_basic_auth
  parse_basic_auth-decoded headers username password stripped h =
      elim (Option-cases (basic_value crates headers)) [
        | inl missing ↦ ground (arith)
        | inr (value, found) ↦ elim (Option-cases (basic_credentials crates value)) [
          | inl bad ↦ ground (arith)
          | inr ((user, pass), good) ↦ ground (arith)
        ]
      ]

  -- From a sound cache, the middleware lets a request through only if there are no users, or its
  -- header has the hash of a header whose user and password the credentials accept (its own, or one
  -- that was accepted before). The cache that it leaves is sound again.
  pub auth_middleware_sound :
      (now later : ℕ) (s : AuthState) (headers : HeaderMap)
      → CacheIsSound s
      → CacheIsSound (auth_middleware crates now later s headers).1
        × ((auth_middleware crates now later s headers).0 ≡ ok tt
            → (has_no_users s ≡ true)
              ⊎ ((username : Bytes) × (password : Bytes) × (stripped : Bytes) × (parse_basic_auth
                      crates headers
                    ≡ some (username, password, stripped))
                  × IsKnown s stripped))
  unfolding auth_middleware
  auth_middleware_sound now later s headers sound = elim (Bool-cases (has_no_users s)) [
    | inl open_access ↦ rw (open_access, auth_middleware) (sound, λ e. inl refl)
    | inr closed ↦ elim (Option-cases (parse_basic_auth crates headers)) [
      | inl missing ↦ rw (closed, auth_middleware) (rw missing (sound, λ e. cc))
      | inr ((username, password, stripped), parsed) ↦
          let (kept_sound, known) =
            validate_cached_sound now later s username password stripped sound
              (parse_basic_auth-decoded headers username password stripped parsed) in
          rw (closed, auth_middleware)
            (rw parsed
              (kept_sound, λ e. inr (username, password, stripped, refl, known (ground arith))))
    ]
  ]

  -- A request whose user and password the credentials accept is let through, whatever is cached.
  pub auth_middleware_complete :
      (now later : ℕ) (s : AuthState) (headers : HeaderMap) (username password stripped : Bytes)
      → parse_basic_auth crates headers ≡ some (username, password, stripped)
      → validate crates s username password ≡ true
      → (auth_middleware crates now later s headers).0 ≡ ok tt
  unfolding auth_middleware validate validate_cached check_hash
  auth_middleware_complete now later s headers username password stripped parsed valid =
      ground (arith)
