-- ===== src/Examples/Scans.antt =====
-- Directory scanning: the theorems on the batch of `statx` calls, on a folder with two entries.
use rshs.App.{DirEntry, Metadata, Platform, StatxBuf, type_other}
use rshs.Common.{
  All, All-append, Bytes, IsIn, List, Option, [], any, ap, arith, codes, false, get_elem?, inl, inr,
  length, map, none, refl, some, suc, true, zero, ℕ, ◌++◌, ◌<◌, ◌∷◌, ◌≡◌,
}
use rshs.Examples.{folder_d, still_platform}
use rshs.Scan.{batch_read_dir_entries}
use rshs.Scan.Agree.{AgreesOn, batch_read_dir_entries_agree, told_alike}
use rshs.Time.{pos, since_epoch}
use rshs.Uring.{batch_statx, statx_created, statx_is_dir, statx_modified}
use rshs.Uring.Batch.{Completes}
use rshs.Uring.Whole.{RingsComplete, batch_statx-map}

abbrev small_file : StatxBuf
small_file = record {
  stx_mode = 0x81a4;
  stx_size = 7;
  mtime_sec = pos 5;
  mtime_nsec = 0;
  btime_sec = pos 0;
  btime_nsec = 0;
}

abbrev small_meta : Metadata
small_meta = record {
  is_dir = false;
  is_file = true;
  len = 7;
  modified = some (since_epoch 5_000_000_000);
  created = none;
}

-- every file is the small one
abbrev same_stat : Bytes → Option StatxBuf
same_stat name = some small_file

abbrev next_place : ℕ × Option StatxBuf → ℕ × Option StatxBuf
next_place c = (suc c.0, c.1)

-- a ring that completes the last call first
backwards : List Bytes → List (ℕ × Option StatxBuf)
backwards [] = []
backwards (name ∷ names) = map next_place (backwards names) ++ (0, same_stat name) ∷ []

abbrev two_entries : List (Option DirEntry)
two_entries =
    some (record { name = codes "a"; file_type = some type_other })
    ∷ none
    ∷ some (record { name = codes "b"; file_type = none })
    ∷ []

abbrev scan_platform : Platform (Unit {0})
scan_platform = record still_platform {
  can_open = λ d p. true;
  read_dir = λ d p. some two_entries;
  metadata = λ d p. some small_meta;
  statx_ring = λ d p names. some (backwards names);
}

backwards_answers :
    (chunk : List Bytes)
    → All
        (λ c. (name : Bytes) × (get_elem? chunk c.0 ≡ some name) × (c.1 ≡ same_stat name))
        (backwards chunk)
unfolding backwards
backwards_answers [] = tt
backwards_answers (x ∷ chunk) =
    All-append _ (map next_place (backwards chunk)) ((0, same_stat x) ∷ [])
      (shifted (backwards chunk) (backwards_answers chunk)) ((x, refl, refl), tt)
  where
    shifted :
        (cs : List (ℕ × Option StatxBuf))
        → All (λ c. (name : Bytes) × (get_elem? chunk c.0 ≡ some name) × (c.1 ≡ same_stat name)) cs
        → All
            (λ c. (name : Bytes) × (get_elem? (x ∷ chunk) c.0 ≡ some name) × (c.1 ≡ same_stat name))
            (map next_place cs)
    shifted [] h = tt
    shifted (c ∷ cs) (here, h) = (here, shifted cs h)

IsIn-shift :
    (j : ℕ) (cs : List (ℕ × Option StatxBuf)) (last : ℕ × Option StatxBuf)
    → IsIn j (map (λ c. c.0) cs)
    → IsIn (suc j) (map (λ c. c.0) (map next_place cs ++ last ∷ []))
IsIn-shift j [] last i = elim i [ ]
IsIn-shift j (c ∷ cs) last (inl e) = inl (ap suc e)
IsIn-shift j (c ∷ cs) last (inr i) = inr (IsIn-shift j cs last i)

IsIn-last :
    (cs : List (ℕ × Option StatxBuf)) (r : Option StatxBuf)
    → IsIn 0 (map (λ c. c.0) (cs ++ (0, r) ∷ []))
IsIn-last [] r = inl refl
IsIn-last (c ∷ cs) r = inr (IsIn-last cs r)

backwards_every :
    (chunk : List Bytes) (i : ℕ) → i < length chunk → IsIn i (map (λ c. c.0) (backwards chunk))
unfolding backwards
backwards_every [] i h = absurd (omega arith)
backwards_every (x ∷ chunk) zero h = IsIn-last (map next_place (backwards chunk)) (same_stat x)
backwards_every (x ∷ chunk) (suc i) h =
    IsIn-shift i (backwards chunk) (0, same_stat x) (backwards_every chunk i (omega arith))

backwards-Completes : (chunk : List Bytes) → Completes same_stat chunk (backwards chunk)
backwards-Completes chunk = record {
  answers = backwards_answers chunk;
  every = backwards_every chunk;
}

scan_rings : RingsComplete scan_platform tt folder_d same_stat
scan_rings chunk few = (backwards chunk, refl, backwards-Completes chunk)

batch_statx-map_example :
    batch_statx scan_platform tt folder_d (codes "a" ∷ codes "b" ∷ [])
    ≡ some (some small_file ∷ some small_file ∷ [])
batch_statx-map_example =
    batch_statx-map scan_platform tt folder_d same_stat scan_rings (codes "a" ∷ codes "b" ∷ [])

-- the same by evaluation
batch_of_two :
    batch_statx scan_platform tt folder_d (codes "a" ∷ codes "b" ∷ [])
    ≡ some (some small_file ∷ some small_file ∷ [])
unfolding batch_statx backwards
batch_of_two = refl

two_agree : All (AgreesOn scan_platform tt folder_d same_stat) two_entries
unfolding any statx_modified statx_created statx_is_dir
two_agree = (
  (refl, told_alike small_meta small_file refl refl refl refl refl refl),
  (tt, ((refl, told_alike small_meta small_file refl refl refl refl refl refl), tt)),
)

batch_read_dir_entries_agree_example :
    batch_read_dir_entries scan_platform true tt folder_d
    ≡ batch_read_dir_entries scan_platform false tt folder_d
batch_read_dir_entries_agree_example =
    batch_read_dir_entries_agree scan_platform tt folder_d same_stat two_entries scan_rings refl
      refl two_agree
