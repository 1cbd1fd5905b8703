-- ===== src/Examples/Shadows.antt =====
-- Shadow files: the theorem on their round trip, for one hashed and one plaintext user.
use rshs.Auth.{Credential, plaintext, sha512_crypt}
use rshs.Auth.RoundTrip.{IsStorable, load_content-shadow_content, shadow_line, stored_hash}
use rshs.Auth.Shadow.{
  ShadowPlatform, build_auth_state, build_with_shadow, is_path_writable, load_content,
  new_auth_state, shadow_content, shadow_from_arg, starts_dollar, trim_utf8, write_to_shadow_file,
}
use rshs.Common.{
  Bytes, Option, [], any, bytes_eq, bytes_key, codes, eqb, false, is_empty, is_some, map_some, none,
  or-eq-false, or_value, refl, some, true, ℕ, ◌++◌, ◌∷◌, ◌≡◌,
}
use rshs.FilePath.{path_key}
use rshs.Headers.Clark.{IsFreeOf, split_once}
use rshs.Map.{HashMap, extend, get, nat_key}
use rshs.Map.Laws.{HasDistinctKeys}

-- a disk that is one file; a password's hash is the password behind "$6$"
abbrev one_file : ShadowPlatform (Option Bytes)
one_file = record {
  exists = λ d path. is_some d;
  parent_of = λ path. none;
  create_dir_all = λ d path. (true, d);
  create_new = λ d path. (true, some []);
  set_mode_600 = λ d path. (true, d);
  read_to_string = λ d path. d;
  write = λ d path content. (true, some content);
  readonly = λ d path. some false;
  hash_password = λ p. some (codes "$6$" ++ p);
}

abbrev two_users : HashMap Bytes Credential
two_users = (codes "ann", plaintext (codes "pw")) ∷ (codes "bob", sha512_crypt (codes "$6$x")) ∷ []

free_of : (b : ℕ) (s : Bytes) → any (λ c. eqb c b) s ≡ false → IsFreeOf b s
unfolding any
free_of b [] h = tt
free_of b (c ∷ s) h = let (first, rest) = or-eq-false _ _ h in (first, free_of b s rest)

ann-IsStorable : IsStorable (codes "ann") (codes "$6$pw")
unfolding split_once starts_dollar trim_utf8 any
ann-IsStorable = record {
  name_eq = refl;
  name_free = free_of b':' (codes "ann") refl;
  hash_free = refl;
  dollar = refl;
  no_feed = free_of 10 (shadow_line (codes "ann") (codes "$6$pw")) refl;
  no_return = free_of 13 (shadow_line (codes "ann") (codes "$6$pw")) refl;
  trimmed = refl;
}

bob-IsStorable : IsStorable (codes "bob") (codes "$6$x")
unfolding split_once starts_dollar trim_utf8 any
bob-IsStorable = record {
  name_eq = refl;
  name_free = free_of b':' (codes "bob") refl;
  hash_free = refl;
  dollar = refl;
  no_feed = free_of 10 (shadow_line (codes "bob") (codes "$6$x")) refl;
  no_return = free_of 13 (shadow_line (codes "bob") (codes "$6$x")) refl;
  trimmed = refl;
}

two_users_distinct : HasDistinctKeys two_users
unfolding get bytes_eq
two_users_distinct = (refl, (refl, tt))

load_content-shadow_content_example :
    (content : Bytes) × (shadow_content one_file two_users ≡ some content)
    × ((name : Bytes)
        → get (load_content content).users name
          ≡ map_some
              (λ c. sha512_crypt (stored_hash one_file (λ p. codes "$6$" ++ p) (λ p. refl) c))
              (get two_users name))
load_content-shadow_content_example =
    load_content-shadow_content one_file (λ p. codes "$6$" ++ p) (λ p. refl) two_users
      (ann-IsStorable, (bob-IsStorable, tt)) two_users_distinct

-- A file that is declared read-only is written all the same.
read_only_test :
    is_empty (
      or_value
        (build_auth_state one_file
          (some [])
          (record new_auth_state { users = two_users })
          (some (shadow_from_arg (codes "f:ro")))
          true
          60).1
        [])
    ≡ false
unfolding build_auth_state build_with_shadow shadow_from_arg is_path_writable write_to_shadow_file
    extend bytes_eq
read_only_test = refl
