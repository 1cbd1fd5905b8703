-- ===== src/Scan.antt =====
-- src/scandir.rs: the entries of a directory with their metadata. A panic in the task is an error of its caller, so `none` stands for both.
pub mod Agree
use rshs.App.{DirEntry, FileType, Platform, StatxBuf, type_dir}
use rshs.Chain.{◌>>=◌}
use rshs.Common.{
  Bool, Bytes, List, Option, [], any, eqb, false, if◌then◌else◌, is_empty, map, none, not, or_value,
  some, true, ℕ, ◌∷◌,
}
use rshs.FilePath.{FilePath, join, normal}
use rshs.Time.{SystemTime, since_epoch}
use rshs.Uring.{batch_statx, statx_created, statx_is_dir, statx_modified}

pub record DirEntryMeta : Type 0 where
  pub name : Bytes
  pub is_dir : Bool
  pub size : ℕ
  pub modified : SystemTime
  pub created : Option SystemTime

abbrev pub is_dir_type : FileType → Bool
is_dir_type type_dir = true
is_dir_type _ = false

abbrev pub dtype_of : Option FileType → Option Bool
dtype_of none = none
dtype_of (some t) = some (is_dir_type t)

-- the readable entries whose names have no NUL byte, with what the directory says of their type
unfoldable pub readable : List (Option DirEntry) → List (Bytes × Option Bool)
unfolding any
readable [] = []
readable (none ∷ entries) = readable entries
readable (some e ∷ entries) =
    let rest = readable entries in
    if any (λ c. eqb c 0) e.name then rest else (e.name, dtype_of e.file_type) ∷ rest

-- Each name with its result; the type that the directory gives comes first. `none` is an
-- index out of range.
unfoldable pub merge_results :
    List (Bytes × Option Bool) → List (Option StatxBuf) → Option (List DirEntryMeta)
unfolding statx_is_dir statx_modified statx_created
merge_results [] stats = some []
merge_results (n ∷ names) [] = none
merge_results ((name, dtype) ∷ names) (none ∷ stats) = merge_results names stats
merge_results ((name, dtype) ∷ names) (some stx ∷ stats) = do
  rest ← merge_results names stats
  some (
      record {
        name = name;
        is_dir = or_value dtype (statx_is_dir stx);
        size = stx.stx_size;
        modified = statx_modified stx;
        created = statx_created stx;
      }
      ∷ rest)

module _ {Disk : Type 0} (sys : Platform Disk) where
  unfoldable pub batch_linux : Disk → FilePath → Option (List DirEntryMeta)
  unfolding readable merge_results batch_statx
  batch_linux disk dir_path = if not (sys.can_open disk dir_path) then none else do
    read_dir ← sys.read_dir disk dir_path
    let names = readable read_dir
    if is_empty names then some [] else do
      stat_results ← batch_statx sys disk dir_path (map (λ n. n.0) names)
      merge_results names stat_results

  -- on other systems: one `metadata` call for each entry
  unfoldable pub fallback_entries : Disk → FilePath → List (Option DirEntry) → List DirEntryMeta
  fallback_entries disk dir_path [] = []
  fallback_entries disk dir_path (none ∷ entries) = fallback_entries disk dir_path entries
  fallback_entries disk dir_path (some e ∷ entries) =
      let rest = fallback_entries disk dir_path entries in
      elim (sys.metadata disk (join dir_path (normal e.name ∷ []))) [
        | none ↦ rest
        | some meta ↦
            record {
              name = e.name;
              is_dir = meta.is_dir;
              size = meta.len;
              modified = or_value meta.modified (since_epoch 0);
              created = meta.created;
            }
            ∷ rest
      ]

  unfoldable pub batch_fallback : Disk → FilePath → Option (List DirEntryMeta)
  unfolding fallback_entries
  batch_fallback disk dir_path = do
    read_dir ← sys.read_dir disk dir_path
    some (fallback_entries disk dir_path read_dir)

  -- `batch_read_dir_entries` where the program is built for Linux, or for another system
  unfoldable pub batch_read_dir_entries : Bool → Disk → FilePath → Option (List DirEntryMeta)
  unfolding batch_linux batch_fallback
  batch_read_dir_entries linux disk dir_path =
      if linux then batch_linux disk dir_path else batch_fallback disk dir_path
