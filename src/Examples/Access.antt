-- ===== src/Examples/Access.antt =====
-- Authentication: the theorems on the two authentication middlewares, at concrete users.
use rshs.Auth.{
  AuthCrates, AuthState, auth_middleware, basic_credentials, parse_basic_auth, sha512_crypt,
  validate,
}
use rshs.Auth.Laws.{CacheIsSound, auth_middleware_complete}
use rshs.Common.{
  Bytes, [], bytes_eq, bytes_key, codes, length, refl, some, strip_prefix, true, ◌∷◌, ◌≡◌,
}
use rshs.Examples.{one_header}
use rshs.FilePath.{path_key}
use rshs.Headers.Clark.{split_once}
use rshs.Http.{HeaderMap, header_text, ok}
use rshs.Map.{get, nat_key}
use rshs.Map.Laws.{HasDistinctKeys}
use rshs.Tailscale.{TailscaleAuthState, from_arg}

-- passwords verify against themselves, and every text is its own base64
abbrev pub plain_crates : AuthCrates
plain_crates = record {
  verify_password = λ password hash. bytes_eq password hash;
  hash_auth_header = λ s. length s;
  base64_decode = λ s. some s;
  is_utf8 = λ s. true;
}

abbrev pub one_user : AuthState
one_user = record {
  users = (codes "ann", sha512_crypt (codes "pw")) ∷ [];
  auth_cache = [];
  auth_cache_ttl = 60_000_000_000;
}

abbrev pub ann_header : HeaderMap
ann_header = one_header (codes "authorization") (codes "Basic ann:pw")

pub empty_CacheIsSound : CacheIsSound plain_crates one_user
unfolding get
empty_CacheIsSound key expiry e = cc

abbrev ann_parts : Bytes × Bytes × Bytes
ann_parts = (codes "ann", codes "pw", codes "ann:pw")

ann_parsed : parse_basic_auth plain_crates ann_header ≡ some ann_parts
unfolding parse_basic_auth basic_credentials header_text strip_prefix split_once bytes_eq
ann_parsed = refl

ann_valid : validate plain_crates one_user (codes "ann") (codes "pw") ≡ true
unfolding validate get bytes_eq
ann_valid = refl

auth_middleware_complete_example : (auth_middleware plain_crates 5 9 one_user ann_header).0 ≡ ok tt
auth_middleware_complete_example =
    auth_middleware_complete plain_crates 5 9 one_user ann_header (codes "ann") (codes "pw")
      (codes "ann:pw") ann_parsed ann_valid

one_user_distinct : HasDistinctKeys one_user.users
unfolding get
one_user_distinct = (refl, tt)

abbrev two_logins : TailscaleAuthState
two_logins = from_arg (codes "ann@x, bob@x")

abbrev bob_header : HeaderMap
bob_header = one_header (codes "tailscale-user-login") (codes "bob@x")
