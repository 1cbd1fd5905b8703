-- ===== src/Scan/Agree.antt =====
-- The two variants of the scan of src/scandir.rs, for Linux and for other systems, against one
-- another.
use rshs.App.{DirEntry, Metadata, Platform, StatxBuf}
use rshs.Chain.{◌>>=◌}
use rshs.Common.{
  All, Bool-cases, Bytes, List, Option, [], any, ap, eqb, false, inl, inr, is_empty, is_empty_iff,
  map, none, or_value, refl, some, true, ◌∷◌, ◌≡◌,
}
use rshs.FilePath.{FilePath, join, normal}
use rshs.Scan.{
  DirEntryMeta, batch_fallback, batch_linux, batch_read_dir_entries, dtype_of, fallback_entries,
  merge_results, readable,
}
use rshs.Time.{since_epoch}
use rshs.Uring.{statx_created, statx_is_dir, statx_modified}
use rshs.Uring.Whole.{RingsComplete, batch_statx-map}

module _ {Disk : Type 0} (sys : Platform Disk) (disk : Disk) (dir : FilePath)
    (stat : Bytes → Option StatxBuf) where
  -- What `statx` and the directory tell of an entry, and what `metadata` tells of it.
  pub data SameEntry (e : DirEntry) : Type 0 where
    unreadable :
        sys.metadata disk (join dir (normal e.name ∷ [])) ≡ none → stat e.name ≡ none → SameEntry e
    told_alike :
        (meta : Metadata) (buf : StatxBuf)
        → sys.metadata disk (join dir (normal e.name ∷ [])) ≡ some meta
        → stat e.name ≡ some buf
        → or_value (dtype_of e.file_type) (statx_is_dir buf) ≡ meta.is_dir
        → buf.stx_size ≡ meta.len
        → statx_modified buf ≡ or_value meta.modified (since_epoch 0)
        → statx_created buf ≡ meta.created
        → SameEntry e

  abbrev pub AgreesOn : Option DirEntry → Type 0
  AgreesOn none = Unit
  AgreesOn (some e) = (any (λ c. eqb c 0) e.name ≡ false) × SameEntry e

  merge_results-fallback :
      (entries : List (Option DirEntry))
      → All AgreesOn entries
      → merge_results (readable entries) (map stat (map (λ n. n.0) (readable entries)))
        ≡ some (fallback_entries sys disk dir entries)
  unfolding readable fallback_entries merge_results
  merge_results-fallback [] h = refl
  merge_results-fallback (none ∷ entries) (here, h) = merge_results-fallback entries h
  merge_results-fallback (some e ∷ entries) ((plain, unreadable gone failed), h) =
      let ih = merge_results-fallback entries h in
      rw plain (rw (gone, fallback_entries) (rw failed ih))
  merge_results-fallback (some e ∷ entries)
        ((plain, told_alike meta buf found stated kind size modified created), h) =
      let ih = merge_results-fallback entries h in
      let told : DirEntryMeta = record {
        name = e.name;
        is_dir = meta.is_dir;
        size = meta.len;
        modified = or_value meta.modified (since_epoch 0);
        created = meta.created;
      } in
      rw plain (
        rw (found, fallback_entries)
          (rw stated
            (rw (kind, size, modified, created) (ap (λ o. o >>= λ rest. some (told ∷ rest)) ih))))

  -- On a directory that can be opened, while every ring completes its calls, and where for each entry
  -- the name has no NUL byte and `statx` with the type in the directory tells the same as `metadata`
  -- does, both variants list the same entries in the same order.
  pub batch_read_dir_entries_agree :
      (entries : List (Option DirEntry))
      → RingsComplete sys disk dir stat
      → sys.can_open disk dir ≡ true
      → sys.read_dir disk dir ≡ some entries
      → All AgreesOn entries
      → batch_read_dir_entries sys true disk dir ≡ batch_read_dir_entries sys false disk dir
  unfolding batch_read_dir_entries batch_linux batch_fallback
  batch_read_dir_entries_agree entries rings opened listed h =
      let merged = merge_results-fallback entries h in
      let stats = batch_statx-map sys disk dir stat rings (map (λ n. n.0) (readable entries)) in
      rw (opened, batch_linux)
        (rw (listed, ◌>>=◌)
          (elim (Bool-cases (is_empty (readable entries))) [
            | inl nothing ↦
                let none_readable = (is_empty_iff (readable entries)).0 nothing in
                rw nothing (nothing_read none_readable merged)
            | inr some_names ↦ rw some_names (rw (stats, ◌>>=◌) merged)
          ]))
    where
      nothing_read :
          readable entries ≡ []
          → merge_results (readable entries) (map stat (map (λ n. n.0) (readable entries)))
            ≡ some (fallback_entries sys disk dir entries)
          → some [] ≡ some (fallback_entries sys disk dir entries)
      nothing_read e m = unfold merge_results in rw e at m
