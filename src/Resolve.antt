-- ===== src/Resolve.antt =====
-- src/utils/path.rs: from the path of a request to a path on the disk.
pub mod Segments
pub mod Guard
pub mod Cache
pub mod State
use rshs.App.{CanonicalCache, Platform}
use rshs.Common.{
  Bool, Bytes, Option, [], any, bytes_key, codes, eqb, false, if◌then◌else◌, is_empty, none, not,
  some, trim_start_matches, ◌==◌, ◌||◌, ◌∷◌,
}
use rshs.FilePath.{
  FilePath, file_name, join, normal, parent, parse_path, path_key, split_slash, starts_with,
}
use rshs.Http.{StatusCode, conflict, forbidden}
use rshs.Map.{get, insert}

pub data ResolveTargetError : Type 0 where
  invalid_path parent_canonicalize_failed traversal_blocked : ResolveTargetError

-- `panicked` stands for the `unwrap` of a missing file name.
pub data Resolved : Type 0 where
  resolved : FilePath → Resolved
  refused : ResolveTargetError → Resolved
  panicked : Resolved

-- `ResolveTargetError::status`
unfoldable pub error_status : ResolveTargetError → StatusCode → StatusCode
error_status invalid_path on_invalid = on_invalid
error_status parent_canonicalize_failed on_invalid = conflict
error_status traversal_blocked on_invalid = forbidden

unfoldable pub ends_with_slash : Bytes → Bool
ends_with_slash [] = false
ends_with_slash (c ∷ []) = eqb c b'/'
ends_with_slash (c ∷ d ∷ s) = ends_with_slash (d ∷ s)

abbrev pub is_dots : Bytes → Bool
is_dots segment = segment == codes ".." || segment == codes "."

unfoldable pub resolve_write_target : (Bytes → Bytes) → FilePath → Bytes → Option FilePath
unfolding ends_with_slash
resolve_write_target percent_decode root request_path =
    let trimmed = trim_start_matches b'/' (percent_decode request_path) in
    if is_empty trimmed || ends_with_slash trimmed
    then none
    else if any is_dots (split_slash trimmed)
    then none
    else some (join root (parse_path trimmed))

-- the check behind `canonicalize` of `resolve_existing`
abbrev within : FilePath → Option FilePath → Option FilePath
within root_canonical none = none
within root_canonical (some p) = if starts_with p root_canonical then some p else none

-- Behind the canonical parent: the check of the root, and the file name.
unfoldable pub place : FilePath → FilePath → FilePath → Resolved
place root_canonical fs_path parent_canonical =
    if not (starts_with parent_canonical root_canonical)
    then refused traversal_blocked
    else elim (file_name fs_path) [
      | none ↦ panicked
      | some name ↦ resolved (join parent_canonical (normal name ∷ []))
    ]

-- the parent of a target, or the root where there is none
abbrev pub parent_or : FilePath → FilePath → FilePath
parent_or root fs_path = elim (parent fs_path) [ none ↦ root | some p ↦ p ]

module _ {Disk : Type 0} (sys : Platform Disk) where
  unfoldable pub resolve_existing : FilePath → FilePath → Bytes → Disk → Option FilePath
  resolve_existing root root_canonical request_path disk =
      let decoded = trim_start_matches b'/' (sys.percent_decode request_path) in
      within root_canonical (sys.canonicalize disk (join root (parse_path decoded)))

  -- The canonical parent, from the cache or from the disk and then cached.
  unfoldable pub canonical_parent :
      FilePath → Disk → CanonicalCache → Option FilePath × CanonicalCache
  canonical_parent dir disk cache = elim (get cache dir) [
    | some cached ↦ (some cached, cache)
    | none ↦ elim (sys.canonicalize disk dir) [
      | none ↦ (none, cache)
      | some pc ↦ (some pc, insert cache dir pc)
    ]
  ]

  abbrev pub guard_place : FilePath → FilePath → Option FilePath → Resolved
  guard_place root_canonical fs_path none = refused parent_canonicalize_failed
  guard_place root_canonical fs_path (some pc) = place root_canonical fs_path pc

  abbrev pub guard_target :
      FilePath → FilePath → Disk → CanonicalCache → Option FilePath → Resolved × CanonicalCache
  guard_target root root_canonical disk cache none = (refused invalid_path, cache)
  guard_target root root_canonical disk cache (some fs_path) =
      let (parent_canonical, cache') = canonical_parent (parent_or root fs_path) disk cache in
      (guard_place root_canonical fs_path parent_canonical, cache')

  unfoldable pub resolve_and_guard :
      FilePath → FilePath → Bytes → Disk → CanonicalCache → Resolved × CanonicalCache
  resolve_and_guard root root_canonical request_path disk cache =
      guard_target root root_canonical disk cache
        (resolve_write_target sys.percent_decode root request_path)
