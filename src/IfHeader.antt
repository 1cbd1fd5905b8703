-- ===== src/IfHeader.antt =====
-- The `If` header of src/webdav/ls.rs: its types, and their evaluation against the locks of a path.
pub mod Laws
pub mod Parse
pub mod RoundTrip
pub mod Fuel
use rshs.Common.{
  Bool, Bytes, List, Option, [], all, any, bytes_key, codes, false, find, if◌then◌else◌, is_empty,
  none, not, retain, some, true, ℕ, ◌++◌, ◌==◌, ◌∷◌,
}
use rshs.FilePath.{path_key}
use rshs.Http.{Result, err, locked, ok}
use rshs.Lock.{LockInfo, active_slice, is_exclusive}

pub data IfCondition : Type 0 where
  state_token : Bytes → IfCondition
  negated : IfCondition → IfCondition

pub record IfList : Type 0 where
  pub resource_tag : Option Bytes
  pub conditions : List IfCondition

-- "DAV:no-lock"
abbrev pub no_lock : Bytes
no_lock = codes "DAV:no-lock"

unfoldable pub eval_active : IfCondition → List LockInfo → Bool
eval_active (state_token t) active =
    if t == no_lock then is_empty active else any (λ l. l.token == t) active
eval_active (negated inner) active = not (eval_active inner active)

unfoldable pub eval : ℕ → IfCondition → List LockInfo → Bool
unfolding eval_active active_slice
eval now c infos = eval_active c (active_slice now infos)

abbrev positive_of : IfCondition → List Bytes
positive_of (state_token t) = t ∷ []
positive_of (negated _) = []

tokens_of : List IfCondition → List Bytes
tokens_of [] = []
tokens_of (c ∷ cs) = positive_of c ++ tokens_of cs

unfoldable pub positive_tokens : IfList → List Bytes
unfolding tokens_of
positive_tokens l = tokens_of l.conditions

condition_has_token : IfCondition → Bool
condition_has_token (state_token t) = not (t == no_lock)
condition_has_token (negated (state_token t)) = not (t == no_lock)
condition_has_token (negated (negated _)) = false

unfoldable pub has_lock_token : IfList → Bool
unfolding condition_has_token
has_lock_token l = any condition_has_token l.conditions

-- the filter of `eval_if`
unfoldable pub applies_to : Bytes → IfList → Bool
applies_to request_path l = elim l.resource_tag [ none ↦ true | some tag ↦ tag == request_path ]

unfoldable pub holds_for : List LockInfo → IfList → Bool
unfolding eval_active
holds_for active l = all (λ c. eval_active c active) l.conditions

unfoldable pub eval_if : ℕ → List IfList → List LockInfo → Bytes → Bool
unfolding applies_to holds_for
eval_if now [] infos request_path = is_empty (active_slice now infos)
eval_if now (l ∷ ls) infos request_path =
    let applicable = retain (applies_to request_path) (l ∷ ls) in
    if is_empty applicable then true else all (holds_for (active_slice now infos)) applicable

-- `Vec::contains` on tokens
unfoldable pub contains : List Bytes → Bytes → Bool
contains tokens t = any (λ u. u == t) tokens

unfoldable pub check_existing_exclusive : ℕ → List LockInfo → List Bytes → Result (Option Bytes)
unfolding contains
check_existing_exclusive now entry if_tokens = elim (find is_exclusive (active_slice now entry)) [
  | none ↦ ok none
  | some l ↦ if contains if_tokens l.token then ok (some l.token) else err locked
]
