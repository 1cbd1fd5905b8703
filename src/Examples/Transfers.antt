-- ===== src/Examples/Transfers.antt =====
-- COPY and MOVE: the theorems at concrete requests.
use rshs.App.{DirEntry, Platform, or_status, type_dir}
use rshs.Common.{
  Bool-cases, List, Option, [], arith, bytes_eq, bytes_key, codes, false, if◌then◌else◌, inl, inr,
  none, refl, some, true, ℕ, ◌==◌, ◌∷◌, ◌≡◌, ◌≢◌, ◌≤◌,
}
use rshs.Examples.{file_f, folder_d, put_request, still_platform, still_state}
use rshs.FilePath.{FilePath, join, path_eq, path_eq_iff, path_key}
use rshs.Headers.{parse_destination}
use rshs.Http.{Result, bad_request, err, header_text, internal_server_error}
use rshs.Map.{get, nat_key}
use rshs.Webdav.Transfer.{copy_dir, do_move_or_copy, migrate_props, transfer_guard}
use rshs.Webdav.Transfer.Fuel.{copy_dir-ends, entries_weight, type_weight}
use rshs.Webdav.Transfer.Guards.{do_move_or_copy-refused}
use rshs.Webdav.Transfer.Props.{migrate_props-get}

-- A COPY without a destination is refused.
no_destination :
    do_move_or_copy still_platform 1 false put_request still_state
    ≡ some (err bad_request, still_state)
unfolding do_move_or_copy transfer_guard or_status parse_destination header_text
no_destination = refl

bad_request≢internal : bad_request ≢ internal_server_error
bad_request≢internal h = cc

do_move_or_copy-refused_example :
    record still_state { canonical_cache = still_state.canonical_cache } ≡ still_state
do_move_or_copy-refused_example =
    do_move_or_copy-refused still_platform 1 false put_request still_state still_state bad_request
      no_destination bad_request≢internal

abbrev x_entry : DirEntry
x_entry = record { name = codes "x"; file_type = some type_dir }

-- a platform on which one folder has one folder
abbrev folder_platform : Platform (Unit {0})
folder_platform = record still_platform {
  read_dir = λ d p. if p == folder_d then some (some x_entry ∷ []) else none;
}

abbrev folder_weight : FilePath → ℕ
folder_weight p = if p == folder_d then 1 else 0

folder_bounded :
    (disk : Unit {0}) (p : FilePath) (entries : List (Option DirEntry))
    → folder_platform.read_dir disk p ≡ some entries
    → entries_weight folder_platform folder_weight p entries ≤ folder_weight p
unfolding entries_weight type_weight path_eq bytes_eq join
folder_bounded disk p entries h = elim (Bool-cases (p == folder_d)) [
  | inl same ↦
      let e : p ≡ folder_d = (path_eq_iff p folder_d).0 same in
      let found : some (some x_entry ∷ []) ≡ some entries = rw same at h in
      let listed : some x_entry ∷ [] ≡ entries = ground arith in rw (e, ← listed) (omega arith)
  | inr other ↦ cc_none (rw other at h)
]
  where
    cc_none :
        none ≡ some entries
        → entries_weight folder_platform folder_weight p entries ≤ folder_weight p
    cc_none k = cc

copy_dir-ends_example :
    (r : Result (Unit {0}) × Unit {0}) × (copy_dir folder_platform 2 folder_d file_f false tt
      ≡ some r)
unfolding path_eq bytes_eq
copy_dir-ends_example =
    copy_dir-ends folder_platform folder_weight folder_bounded 2 folder_d file_f false tt
      (omega arith)

migrate_props-get_example :
    get (migrate_props true folder_d file_f ((folder_d, (codes "a", codes "1") ∷ []) ∷ [])) file_f
    ≡ some ((codes "a", codes "1") ∷ [])
unfolding path_eq get bytes_eq
migrate_props-get_example =
    migrate_props-get true folder_d file_f file_f ((folder_d, (codes "a", codes "1") ∷ []) ∷ [])
