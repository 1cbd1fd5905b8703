-- ===== src/Auth/RoundTrip.antt =====
-- What is written to a shadow file is what a load of it gives, src/auth.rs.
use rshs.Auth.{Credential, plaintext, sha512_crypt}
use rshs.Auth.Shadow.{
  ShadowPlatform, hash_credential, hash_of, load_content, load_line, load_lines, shadow_content,
  starts_dollar, trim_utf8,
}
use rshs.Common.{
  All, Bool-cases, Bytes, List, Option, [], append-nil, append_assoc, arith, bytes_key, drop_return,
  eqb, false, inl, inr, is_empty, lines, lines_of, map_some, none, refl, some, split, split_run,
  true, ◌++◌, ◌==◌, ◌∙◌, ◌∷◌, ◌≡◌,
}
use rshs.FilePath.{path_key}
use rshs.Headers.Clark.{IsFreeOf, split_once, split_once-append}
use rshs.Map.{HashMap, extend, get, insert, nat_key}
use rshs.Map.Laws.{HasDistinctKeys, get-extend, or_else}

drop_return-free : (s : Bytes) → IsFreeOf 13 s → drop_return s ≡ s
unfolding drop_return
drop_return-free [] free = refl
drop_return-free (c ∷ s) (h, free) = ground (arith, h, drop_return-free s free)

-- a first line that ends at a line feed
split_run-append :
    (run s more : Bytes)
    → IsFreeOf 10 s
    → split_run 10 run (s ++ 10 ∷ more) ≡ (run ++ s) ∷ split_run 10 [] more
unfolding split_run
split_run-append run [] more free = rw (append-nil run) refl
split_run-append run (c ∷ s) more (h, free) =
    rw h (rw (split_run-append (run ++ c ∷ []) s more free, append_assoc run (c ∷ []) s) refl)

split_run-nonempty :
    (run s : Bytes) → (l : Bytes) × (ls : List Bytes) × (split_run 10 run s ≡ l ∷ ls)
unfolding split_run
split_run-nonempty run [] = (run, [], refl)
split_run-nonempty run (c ∷ s) = elim (Bool-cases (eqb c 10)) [
  | inl feed ↦ rw feed (run, split_run 10 [] s, refl)
  | inr other ↦ rw other (split_run-nonempty (run ++ c ∷ []) s)
]

lines-append :
    (s more : Bytes) → IsFreeOf 10 s → IsFreeOf 13 s → lines (s ++ 10 ∷ more) ≡ s ∷ lines more
unfolding lines split lines_of
lines-append s more feeds returns =
    let (l, ls, e) = split_run-nonempty [] more in
    rw (split_run-append [] s more feeds, e) (rw (drop_return-free s returns) refl)

-- The file's line of a user, without its line feed.
abbrev pub shadow_line : Bytes → Bytes → Bytes
shadow_line username hash = username ++ b':' ∷ hash

-- A user that a line can hold: nothing in it looks like an end of the name, the hash or the line.
pub record IsStorable (username hash : Bytes) : Type 0 where
  pub name_eq : is_empty username ≡ false
  pub name_free : IsFreeOf b':' username
  pub hash_free : split_once b':' hash ≡ none
  pub dollar : starts_dollar hash ≡ true
  pub no_feed : IsFreeOf 10 (shadow_line username hash)
  pub no_return : IsFreeOf 13 (shadow_line username hash)
  pub trimmed : trim_utf8 (shadow_line username hash) ≡ shadow_line username hash

load_line-storable :
    (users : HashMap Bytes Credential) (username hash : Bytes)
    → IsStorable username hash
    → load_line users (shadow_line username hash) ≡ insert users username (sha512_crypt hash)
unfolding load_line hash_of
load_line-storable users username hash ok_user =
    rw (ok_user.trimmed, load_line)
      (rw (split_once-append b':' username hash ok_user.name_free, ok_user.name_eq)
        (rw (ok_user.hash_free, hash_of) (rw ok_user.dollar refl)))

module _ {Disk : Type 0} (sys : ShadowPlatform Disk) (hash : Bytes → Bytes)
    (hashes : (p : Bytes) → sys.hash_password p ≡ some (hash p)) where
  -- the hash that a file holds for a credential
  abbrev pub stored_hash : Credential → Bytes
  stored_hash (plaintext p) = hash p
  stored_hash (sha512_crypt h) = h

  abbrev pub AreStorable : HashMap Bytes Credential → Type 0
  AreStorable users = All (λ u. IsStorable u.0 (stored_hash u.1)) users

  stored_users : HashMap Bytes Credential → HashMap Bytes Credential
  stored_users [] = []
  stored_users ((name, c) ∷ users) = (name, sha512_crypt (stored_hash c)) ∷ stored_users users

  hash_credential-some : (c : Credential) → hash_credential sys c ≡ some (stored_hash c)
  unfolding hash_credential
  hash_credential-some (plaintext p) = hashes p
  hash_credential-some (sha512_crypt h) = refl

  -- the lines that are written are the ones that are read
  content_lines :
      (users : HashMap Bytes Credential)
      → AreStorable users
      → (content : Bytes) × (shadow_content sys users ≡ some content)
        × ((loaded : HashMap Bytes Credential)
            → load_lines loaded (lines content) ≡ extend loaded (stored_users users))
  unfolding shadow_content load_lines stored_users extend lines split split_run lines_of
  content_lines [] storable = ([], refl, λ loaded. refl)
  content_lines ((name, c) ∷ users) (h, storable) =
      let (rest, written, read_back) = content_lines users storable in
      (
        shadow_line name (stored_hash c) ++ 10 ∷ rest,
        rw (hash_credential-some c, written) refl,
        λ loaded. rw (lines-append (shadow_line name (stored_hash c)) rest h.no_feed h.no_return) (
            rw (load_line-storable loaded name (stored_hash c) h, load_lines)
              (read_back (insert loaded name (sha512_crypt (stored_hash c))))),
      )

  get-stored_users :
      (users : HashMap Bytes Credential) (name : Bytes)
      → get (stored_users users) name
        ≡ map_some (λ c. sha512_crypt (stored_hash c)) (get users name)
  unfolding get stored_users
  get-stored_users [] name = refl
  get-stored_users ((n, c) ∷ users) name = elim (Bool-cases (n == name)) [
    | inl same ↦ rw same refl
    | inr other ↦ rw other (get-stored_users users name)
  ]

  stored_users-HasDistinctKeys :
      (users : HashMap Bytes Credential)
      → HasDistinctKeys users
      → HasDistinctKeys (stored_users users)
  unfolding stored_users
  stored_users-HasDistinctKeys [] distinct = tt
  stored_users-HasDistinctKeys ((n, c) ∷ users) (fresh, distinct) =
      (rw (get-stored_users users n, fresh) refl, stored_users-HasDistinctKeys users distinct)

  or_else-none : (o : Option Credential) → or_else o none ≡ o
  or_else-none none = refl
  or_else-none (some c) = refl

  -- Where every password can be hashed and every user can stand on a line, the credentials can be
  -- written, and a load of what is written gives for each name the hash of its credential.
  pub load_content-shadow_content :
      (users : HashMap Bytes Credential)
      → AreStorable users
      → HasDistinctKeys users
      → (content : Bytes) × (shadow_content sys users ≡ some content)
        × ((name : Bytes)
            → get (load_content content).users name
              ≡ map_some (λ c. sha512_crypt (stored_hash c)) (get users name))
  unfolding load_content get
  load_content-shadow_content users storable distinct =
      let (content, written, read_back) = content_lines users storable in
      (
        content,
        written,
        λ name. rw (read_back []) (
            get-extend [] (stored_users users) name (stored_users-HasDistinctKeys users distinct)
            ∙ or_else-none (get (stored_users users) name)
            ∙ get-stored_users users name),
      )
