-- ===== src/Examples/Paths.antt =====
-- Paths: the theorems on the resolution of request paths.
use rshs.App.{CanonicalCache}
use rshs.Common.{
  Bool-cases, [], any, ap, arith, bytes_eq, bytes_key, codes, inl, inr, refl, some, sym,
  trim_start_matches, ◌++◌, ◌==◌, ◌∙◌, ◌∷◌, ◌≡◌, ◌≢◌,
}
use rshs.Examples.{file_f, folder_d, served, still_platform}
use rshs.FilePath.{
  FilePath, file_name, join, parent, parse_path, path_eq_iff, path_key, split_slash, starts_with,
}
use rshs.Map.{get, nat_key}
use rshs.Resolve.{
  canonical_parent, panicked, place, resolve_and_guard, resolve_existing, resolve_write_target,
  resolved,
}
use rshs.Resolve.Cache.{CacheAgrees, resolve_and_guard-cache}
use rshs.Resolve.Guard.{
  IsGuarded, resolve_and_guard-ne-panicked, resolve_and_guard_sound, resolve_write_target_sound,
}
use rshs.Resolve.Segments.{IsNamed}

target_f : resolve_write_target (λ s. s) served (codes "/d/f") ≡ some file_f
unfolding resolve_write_target parse_path join bytes_eq trim_start_matches split_slash any
target_f = refl

resolve_write_target_sound_example : (names : FilePath) × (file_f ≡ served ++ names) × IsNamed names
resolve_write_target_sound_example =
    resolve_write_target_sound (λ s. s) served (codes "/d/f") target_f

existing_f : resolve_existing still_platform served served (codes "/d/f") tt ≡ some file_f
unfolding resolve_existing parse_path join bytes_eq trim_start_matches split_slash starts_with
existing_f = refl

pub guarded_f :
    (resolve_and_guard still_platform served served (codes "/d/f") tt []).0 ≡ resolved file_f
unfolding resolve_and_guard canonical_parent get parent place file_name starts_with join bytes_eq
guarded_f = rw target_f refl

resolve_and_guard_sound_example : IsGuarded still_platform served file_f
resolve_and_guard_sound_example =
    resolve_and_guard_sound still_platform served served (codes "/d/f") tt [] guarded_f

resolve_and_guard-ne-panicked_example :
    (resolve_and_guard still_platform served served (codes "/d/f") tt []).0 ≢ panicked
resolve_and_guard-ne-panicked_example =
    resolve_and_guard-ne-panicked still_platform served served (codes "/d/f") tt []

abbrev cached : CanonicalCache
cached = (folder_d, folder_d) ∷ []

cached_agrees : CacheAgrees still_platform tt cached
unfolding get
cached_agrees dir pc e = elim (Bool-cases (folder_d == dir)) [
  | inl same ↦
      let value : folder_d ≡ pc = ground (arith) in
      ap some (sym ((path_eq_iff folder_d dir).0 same) ∙ value)
  | inr other ↦ ground (arith)
]

resolve_and_guard-cache_example :
    ((resolve_and_guard still_platform served served (codes "/d/f") tt cached).0
      ≡ (resolve_and_guard still_platform served served (codes "/d/f") tt []).0)
    × CacheAgrees still_platform tt
        (resolve_and_guard still_platform served served (codes "/d/f") tt cached).1
resolve_and_guard-cache_example =
    resolve_and_guard-cache still_platform served served (codes "/d/f") tt cached cached_agrees
