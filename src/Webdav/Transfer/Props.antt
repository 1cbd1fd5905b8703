-- ===== src/Webdav/Transfer/Props.antt =====
-- What COPY and MOVE of src/handlers/webdav.rs leave of the dead properties.
use rshs.App.{DeadPropertyStore}
use rshs.Common.{
  Bool, Bool-cases, Bytes, Option, Option-cases, bytes_key, false, if◌then◌else◌, inl, inr, none,
  refl, true, ◌&&◌, ◌==◌, ◌≡◌,
}
use rshs.FilePath.{FilePath, path_eq_iff, path_key}
use rshs.Map.{HashMap, get, insert, nat_key, remove}
use rshs.Map.Laws.{get-insert, get-remove, or_else}
use rshs.Webdav.Transfer.{migrate_props}

-- The destination has the properties of the source if it has
-- any, a MOVE leaves none at a source that is not the destination, and all else is as it was.
pub migrate_props-get :
    (is_move : Bool) (src dest k : FilePath) (dead_props : DeadPropertyStore)
    → get (migrate_props is_move src dest dead_props) k ≡ (
        if dest == k
        then or_else (get dead_props src) (get dead_props k)
        else if is_move && src == k
        then none
        else get dead_props k)
unfolding migrate_props
migrate_props-get is_move src dest k dead_props = elim (Option-cases (get dead_props src)) [
  | inl bare ↦
      rw (bare, migrate_props)
        (elim (Bool-cases (src == k)) [
          | inl same ↦ rw (same, at_src bare same) (no_change (dest == k) is_move)
          | inr other ↦ rw other (as_before (dest == k) is_move)
        ])
  | inr (props, had) ↦
      rw (had, migrate_props)
        (elim (Bool-cases is_move) [
          | inl moved ↦
              rw
                (
                  moved,
                  get-insert (remove dead_props src) dest k props,
                  get-remove dead_props src k,
                )
                refl
          | inr copied ↦
              rw
                (
                  copied,
                  get-insert (insert (remove dead_props src) src props) dest k props,
                  get-insert (remove dead_props src) src k props,
                  get-remove dead_props src k,
                )
                (elim (Bool-cases (src == k)) [
                  | inl same ↦ rw (same, at_src had same) refl
                  | inr other ↦ rw other refl
                ])
        ])
]
  where
    at_src :
        {o : Option (HashMap Bytes Bytes)}
        → get dead_props src ≡ o
        → (src == k) ≡ true
        → get dead_props k ≡ o
    at_src e same = rw (← (path_eq_iff src k).0 same) e

    absent : Option (HashMap Bytes Bytes)
    absent = none

    no_change :
        (at_dest moved : Bool)
        → absent ≡ (if at_dest then absent else if moved && true then absent else absent)
    no_change true moved = refl
    no_change false true = refl
    no_change false false = refl

    as_before :
        (at_dest moved : Bool)
        → get dead_props k ≡ (
            if at_dest then get dead_props k else if moved && false then none else get dead_props k)
    as_before true moved = refl
    as_before false true = refl
    as_before false false = refl
