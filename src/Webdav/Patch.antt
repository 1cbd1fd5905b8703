-- ===== src/Webdav/Patch.antt =====
-- What PROPPATCH of src/handlers/webdav.rs does to the dead properties.
pub mod Outcome
use rshs.App.{AppState}
use rshs.Body.{PropPatchAction}
use rshs.Common.{
  Bool, Bool-cases, Bytes, List, Option, Option-cases, [], bytes_key, false, if◌then◌else◌, inl,
  inr, none, or_value, refl, some, true, ◌==◌, ◌∷◌, ◌≡◌,
}
use rshs.FilePath.{FilePath, path_key}
use rshs.Map.{HashMap, get, nat_key, or_default}
use rshs.Map.Laws.{get-insert, get-remove}
use rshs.Webdav.{apply_action, apply_actions, patch_at}

-- The value that the last action on a name leaves, if there is one: `some none` for a removal.
unfoldable pub last_action : Bytes → List PropPatchAction → Option (Option Bytes)
last_action name [] = none
last_action name (action ∷ actions) =
    let mine = if action.name == name then some action.value else none in
    elim (last_action name actions) [ none ↦ mine | some v ↦ some v ]

apply_action-get :
    (props : HashMap Bytes Bytes) (action : PropPatchAction) (name : Bytes)
    → get (apply_action props action) name
      ≡ (if action.name == name then action.value else get props name)
unfolding apply_action
apply_action-get props action name = elim (Option-cases action.value) [
  | inl removed ↦ rw (removed, get-remove props action.name name) refl
  | inr (v, set) ↦ rw (set, get-insert props action.name name v) refl
]

-- The actions of a PROPPATCH leave each property at the value of the last action on it, and the others
-- as they were.
apply_actions-get :
    (props : HashMap Bytes Bytes) (actions : List PropPatchAction) (name : Bytes)
    → get (apply_actions props actions) name ≡ or_value (last_action name actions) (get props name)
unfolding apply_actions last_action
apply_actions-get props [] name = refl
apply_actions-get props (action ∷ actions) name =
    let first = apply_action-get props action name in
    rw (apply_actions-get (apply_action props action) actions name, first)
      (by_last (last_action name actions) (action.name == name))
  where
    by_last :
        (later : Option (Option Bytes)) (mine : Bool)
        → or_value later (if mine then action.value else get props name)
          ≡ or_value
              (elim later [ none ↦ if mine then some action.value else none | some v ↦ some v ])
              (get props name)
    by_last none true = refl
    by_last none false = refl
    by_last (some v) mine = refl

-- A PROPPATCH that its guards let through: each property of the resource is left at the value of the
-- last action on it, and those of other resources as they were.
pub patch_at-dead_props :
    {Disk : Type 0} (request_path : Bytes) (p : FilePath) (actions : List PropPatchAction)
    (s : AppState Disk) (q : FilePath) (name : Bytes)
    → get (or_default (get (patch_at request_path p actions s).1.dead_props q)) name ≡ (
        if p == q
        then or_value (last_action name actions) (get (or_default (get s.dead_props p)) name)
        else get (or_default (get s.dead_props q)) name)
unfolding patch_at
patch_at-dead_props request_path p actions s q name =
    let stored =
      get-insert s.dead_props p q (apply_actions (or_default (get s.dead_props p)) actions) in
    elim (Bool-cases (p == q)) [
      | inl same ↦ rw (stored, same) (apply_actions-get _ actions name)
      | inr other ↦ rw (stored, other) refl
    ]
