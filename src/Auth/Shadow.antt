-- ===== src/Auth/Shadow.antt =====
-- Shadow files of src/auth.rs, and the credentials that the server starts with: `build_auth_state`.
-- The file system and SHA-512 crypt are parameters.
use rshs.Auth.{AuthState, Credential, merge_cli, plaintext, sha512_crypt}
use rshs.Chain.{◌>>=◌}
use rshs.Common.{
  Bool, Bytes, List, Option, [], bytes_key, codes, eqb, false, if◌then◌else◌, is_empty, leb, lines,
  map_some, none, not, or_value, reverse, some, strip_prefix, true, ℕ, ◌&&◌, ◌*◌, ◌++◌, ◌||◌, ◌∷◌,
}
use rshs.FilePath.{path_key}
use rshs.Headers.Clark.{split_once}
use rshs.Map.{HashMap, insert, nat_key}
use rshs.Webdav.Transfer.{made}

pub record ShadowFileArg : Type 0 where
  pub path : Bytes
  pub writable : Bool

-- `str::strip_suffix`
strip_suffix : Bytes → Bytes → Option Bytes
unfolding strip_prefix
strip_suffix suffix s = map_some reverse (strip_prefix (reverse suffix) (reverse s))

-- `ShadowFileArg::from_arg`
unfoldable pub shadow_from_arg : Bytes → ShadowFileArg
unfolding strip_suffix
shadow_from_arg s = elim (strip_suffix (codes ":rw") s) [
  | some path ↦ record { path = path; writable = true }
  | none ↦ elim (strip_suffix (codes ":ro") s) [
    | some path ↦ record { path = path; writable = false }
    | none ↦ record { path = s; writable = true }
  ]
]

-- `AuthState::new`
unfoldable pub new_auth_state : AuthState
new_auth_state = record { users = []; auth_cache = []; auth_cache_ttl = 60_000_000_000 }

-- the hash of an entry, up to a second colon
unfoldable pub hash_of : Bytes → Bytes
unfolding split_once
hash_of rest = elim (split_once b':' rest) [ none ↦ rest | some (h, more) ↦ h ]

unfoldable pub starts_dollar : Bytes → Bool
starts_dollar [] = false
starts_dollar (c ∷ s) = eqb c b'$'

-- Whether a text in UTF-8 starts with a white character (`char::is_whitespace`), of one byte, of two,
-- or of three.
white_1 : ℕ → Bool
white_1 a = (leb 9 a && leb a 13) || eqb a 32

white_2 : ℕ → ℕ → Bool
white_2 a b = eqb a 0xc2 && (eqb b 0x85 || eqb b 0xa0)

-- U+1680, U+2000 to U+200A, U+2028, U+2029, U+202F, U+205F and U+3000
white_3 : ℕ → ℕ → ℕ → Bool
white_3 a b c =
    (eqb a 0xe1 && eqb b 0x9a && eqb c 0x80)
    || (eqb a 0xe2
        && eqb b 0x80
        && ((leb 0x80 c && leb c 0x8a) || eqb c 0xa8 || eqb c 0xa9 || eqb c 0xaf))
    || (eqb a 0xe2 && eqb b 0x81 && eqb c 0x9f)
    || (eqb a 0xe3 && eqb b 0x80 && eqb c 0x80)

-- `str::trim_start`
trim_utf8_start : Bytes → Bytes
unfolding white_1 white_2 white_3
trim_utf8_start [] = []
trim_utf8_start (a ∷ []) = if white_1 a then [] else a ∷ []
trim_utf8_start (a ∷ b ∷ []) =
    let rest = trim_utf8_start (b ∷ []) in
    if white_1 a then rest else if white_2 a b then [] else a ∷ b ∷ []
trim_utf8_start (a ∷ b ∷ c ∷ s) =
    let one = trim_utf8_start (b ∷ c ∷ s) in
    let two = trim_utf8_start (c ∷ s) in
    let three = trim_utf8_start s in
    if white_1 a
    then one
    else if white_2 a b
    then two
    else if white_3 a b c
    then three
    else a ∷ b ∷ c ∷ s

-- `str::trim_end`: from the first character on behind which, itself included, all is white
trim_utf8_end : Bytes → Bytes
unfolding trim_utf8_start
trim_utf8_end [] = []
trim_utf8_end (a ∷ s) =
    let rest = trim_utf8_end s in if is_empty (trim_utf8_start (a ∷ s)) then [] else a ∷ rest

-- `str::trim`
unfoldable pub trim_utf8 : Bytes → Bytes
unfolding trim_utf8_start trim_utf8_end
trim_utf8 s = trim_utf8_end (trim_utf8_start s)

-- One line of a shadow file.
unfoldable pub load_line : HashMap Bytes Credential → Bytes → HashMap Bytes Credential
unfolding split_once hash_of starts_dollar insert trim_utf8
load_line users raw =
    let line = trim_utf8 raw in
    elim (split_once b':' line) [
      | none ↦ users
      | some (username, rest) ↦
          if is_empty username || not (starts_dollar (hash_of rest))
          then users
          else insert users username (sha512_crypt (hash_of rest))
    ]

unfoldable pub load_lines : HashMap Bytes Credential → List Bytes → HashMap Bytes Credential
unfolding load_line
load_lines users [] = users
load_lines users (line ∷ more) = load_lines (load_line users line) more

-- `load_from_shadow_file` on the content of the file
unfoldable pub load_content : Bytes → AuthState
unfolding load_lines new_auth_state lines
load_content content = record new_auth_state { users = load_lines [] (lines content) }

-- The file system as this module calls it, and `hash_password`.
pub record ShadowPlatform (Disk : Type 0) : Type 0 where
  pub exists : Disk → Bytes → Bool
  pub parent_of : Bytes → Option Bytes
  pub create_dir_all : Disk → Bytes → Bool × Disk
  pub create_new : Disk → Bytes → Bool × Disk
  pub set_mode_600 : Disk → Bytes → Bool × Disk
  pub read_to_string : Disk → Bytes → Option Bytes
  pub write : Disk → Bytes → Bytes → Bool × Disk
  pub readonly : Disk → Bytes → Option Bool
  pub hash_password : Bytes → Option Bytes

module _ {Disk : Type 0} (sys : ShadowPlatform Disk) where
  unfoldable pub hash_credential : Credential → Option Bytes
  hash_credential (sha512_crypt h) = some h
  hash_credential (plaintext p) = sys.hash_password p

  -- the content that `write_to_shadow_file` writes; `none` if a password cannot be hashed
  unfoldable pub shadow_content : HashMap Bytes Credential → Option Bytes
  unfolding hash_credential
  shadow_content [] = some []
  shadow_content ((username, credential) ∷ users) = do
    hash ← hash_credential credential
    rest ← shadow_content users
    some (username ++ b':' ∷ hash ++ 10 ∷ rest)

  write_content : Disk → Bytes → HashMap Bytes Credential → Bool × Disk
  unfolding shadow_content
  write_content disk path users = elim (shadow_content users) [
    | none ↦ (false, disk)
    | some content ↦ sys.write disk path content
  ]

  -- `create_shadow_file`, and the creation in `write_to_shadow_file`
  unfoldable pub create_shadow_file : Disk → Bytes → Bool × Disk
  create_shadow_file disk path =
      let (made, disk') = sys.create_new disk path in
      if made then sys.set_mode_600 disk' path else (false, disk')

  create_parent : Disk → Option Bytes → Bool × Disk
  create_parent disk none = (true, disk)
  create_parent disk (some dir) = sys.create_dir_all disk dir

  unfoldable pub write_to_shadow_file : Disk → AuthState → Bytes → Bool → Bool × Disk
  unfolding write_content create_shadow_file create_parent
  write_to_shadow_file disk auth path create =
      if not create
      then write_content disk path auth.users
      else (let (below, disk') = create_parent disk (sys.parent_of path) in
          let (made, disk'') = create_shadow_file disk' path in
          if not below
          then (false, disk')
          else if not made
          then (false, disk'')
          else write_content disk'' path auth.users)

  unfoldable pub load_from_shadow_file : Disk → Bytes → Option AuthState
  unfolding load_content
  load_from_shadow_file disk path = map_some load_content (sys.read_to_string disk path)

  unfoldable pub is_path_writable : Disk → Bytes → Bool
  is_path_writable disk path = elim (sys.readonly disk path) [
    | some readonly ↦ not readonly
    | none ↦ elim (sys.parent_of path) [
      | none ↦ true
      | some dir ↦ elim (sys.readonly disk dir) [ none ↦ true | some readonly ↦ not readonly ]
    ]
  ]

  -- the folder of a shadow file that is not there yet
  ensure_parent : Disk → Option Bytes → Disk
  ensure_parent disk none = disk
  ensure_parent disk (some dir) =
      if not (is_empty dir) && not (sys.exists disk dir)
      then (sys.create_dir_all disk dir).1
      else disk

  -- The state and the disk that `build_auth_state` leaves, from the users of the command line.
  unfoldable pub build_with_shadow : Disk → AuthState → ShadowFileArg → Bool → ℕ → AuthState × Disk
  unfolding ensure_parent create_shadow_file load_from_shadow_file merge_cli is_path_writable
      write_to_shadow_file new_auth_state
  build_with_shadow disk cli_creds shadow shadow_write ttl =
      let path = shadow.path in
      let disk1 = ensure_parent disk (sys.parent_of path) in
      let disk2 = if sys.exists disk1 path then disk1 else (create_shadow_file disk1 path).1 in
      let loaded = or_value (load_from_shadow_file disk2 path) new_auth_state in
      let merged = if is_empty cli_creds.users then loaded else merge_cli loaded cli_creds in
      let disk3 =
        if shadow_write && is_path_writable disk2 path
        then (write_to_shadow_file disk2 merged path false).1
        else disk2 in
      (record merged { auth_cache_ttl = ttl * 1_000_000_000 }, disk3)

  unfoldable pub build_auth_state :
      Disk → AuthState → Option ShadowFileArg → Bool → ℕ → AuthState × Disk
  unfolding build_with_shadow
  build_auth_state disk cli_creds none shadow_write ttl = (cli_creds, disk)
  build_auth_state disk cli_creds (some shadow) shadow_write ttl =
      build_with_shadow disk cli_creds shadow shadow_write ttl
