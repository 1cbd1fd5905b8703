-- ===== src/Tailscale.antt =====
-- src/middleware/tailscale.rs: the allow-list of Tailscale logins and its middleware.
pub mod Laws
use rshs.Common.{
  Bool, Bytes, List, Option, [], bytes_key, codes, eq_ignore_ascii_case, eqb, false, if◌then◌else◌,
  is_empty, is_some, lines, map, none, not, retain, some, split, split_whitespace, true, ◌||◌, ◌∷◌,
}
use rshs.FilePath.{path_key}
use rshs.Headers.{trim}
use rshs.Http.{HeaderMap, Result, err, forbidden, header_text, ok}
use rshs.Map.{HashMap, extend, get, insert, nat_key}

pub data TailscaleAuthState : Type 0 where
  disabled allow_all : TailscaleAuthState
  allow_list : HashMap Bytes (Option Bytes) → TailscaleAuthState

abbrev allow_some : HashMap Bytes (Option Bytes) → TailscaleAuthState
allow_some [] = disabled
allow_some (login ∷ logins) = allow_list (login ∷ logins)

-- each with no mapped name, as a map is collected
abbrev unmapped : List Bytes → HashMap Bytes (Option Bytes)
unmapped logins = extend [] (map (λ login. (login, none)) logins)

unfoldable pub from_arg : Bytes → TailscaleAuthState
from_arg raw =
    let text = trim raw in
    if is_empty text
    then disabled
    else if eq_ignore_ascii_case text (codes "all")
    then allow_all
    else allow_some (unmapped (retain (λ s. not (is_empty s)) (map trim (split b',' text))))

abbrev starts_comment : Bytes → Bool
starts_comment [] = false
starts_comment (c ∷ s) = eqb c b'#'

-- the login of a line and its mapped name
abbrev with_entry : HashMap Bytes (Option Bytes) → List Bytes → HashMap Bytes (Option Bytes)
with_entry logins [] = logins
with_entry logins (login ∷ []) = insert logins login none
with_entry logins (login ∷ mapped ∷ _) = insert logins login (some mapped)

from_lines : HashMap Bytes (Option Bytes) → List Bytes → TailscaleAuthState
from_lines logins [] = allow_some logins
from_lines logins (line ∷ more) =
    let text = trim line in
    let skipped = from_lines logins more in
    let read = from_lines (with_entry logins (split_whitespace text)) more in
    if is_empty text || starts_comment text
    then skipped
    else if eq_ignore_ascii_case text (codes "all")
    then allow_all
    else read

-- on the content of the file, if it can be read
unfoldable pub from_file : Option Bytes → Option TailscaleAuthState
unfolding from_lines
from_file none = none
from_file (some content) = some (from_lines [] (lines content))

unfoldable pub merge : TailscaleAuthState → TailscaleAuthState → TailscaleAuthState
merge allow_all _ = allow_all
merge disabled other = other
merge (allow_list a) allow_all = allow_all
merge (allow_list a) disabled = allow_list a
merge (allow_list a) (allow_list b) = allow_list (extend a b)

unfoldable pub is_disabled : TailscaleAuthState → Bool
is_disabled disabled = true
is_disabled _ = false

unfoldable pub permits : TailscaleAuthState → Bytes → Bool
permits disabled login = false
permits allow_all login = true
permits (allow_list logins) login = is_some (get logins login)

unfoldable pub mapped_name : TailscaleAuthState → Bytes → Option Bytes
mapped_name (allow_list logins) login = elim (get logins login) [ none ↦ none | some name ↦ name ]
mapped_name _ login = none

-- the answer to a request with this login; `ok` runs the rest of the stack
abbrev pub check_login : TailscaleAuthState → Option Bytes → Result (Unit {0})
check_login s none = err forbidden
check_login s (some login) = if permits s login then ok tt else err forbidden

unfoldable pub tailscale_auth_middleware : TailscaleAuthState → HeaderMap → Result (Unit {0})
tailscale_auth_middleware s headers =
    if is_disabled s
    then ok tt
    else check_login s (header_text headers (codes "tailscale-user-login"))
