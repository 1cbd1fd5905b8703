-- ===== src/Uring.antt =====
-- `linux_impl` of src/scandir.rs: the buffer of `statx`, and a batch of its calls through io_uring,
-- at most 256 in one ring. The kernel may complete the calls of a ring in any order.
pub mod Slices
pub mod Batch
pub mod Whole
use Prim.Native.Nat.{bit_and}
use rshs.App.{Platform, StatxBuf}
use rshs.Common.{
  Bool, Bytes, List, Option, [], eqb, false, if◌then◌else◌, is_empty, length, ltb, none, some, suc,
  true, zero, ℕ, ◌&&◌, ◌*◌, ◌+◌, ◌∷◌,
}
use rshs.FilePath.{FilePath}
use rshs.Time.{SystemTime, before_epoch, negsuc, pos, since_epoch, ℤ}
use rshs.Uring.Slices.{drop, replicate, set, take}

-- `stx_mode & S_IFMT == S_IFDIR`
unfoldable pub statx_is_dir : StatxBuf → Bool
statx_is_dir buf = eqb (bit_and buf.stx_mode 0xf000) 0x4000

-- Seconds and nanoseconds from the epoch, or, for negative seconds, both before it.
unfoldable pub timestamp_to_systemtime : ℤ → ℕ → SystemTime
timestamp_to_systemtime (pos sec) nsec = since_epoch (sec * 1_000_000_000 + nsec)
timestamp_to_systemtime (negsuc n) nsec = before_epoch ((n + 1) * 1_000_000_000 + nsec)

unfoldable pub statx_modified : StatxBuf → SystemTime
unfolding timestamp_to_systemtime
statx_modified buf = timestamp_to_systemtime buf.mtime_sec buf.mtime_nsec

abbrev is_zero_time : ℤ → ℕ → Bool
is_zero_time (pos sec) nsec = eqb sec 0 && eqb nsec 0
is_zero_time (negsuc n) nsec = false

unfoldable pub statx_created : StatxBuf → Option SystemTime
unfolding timestamp_to_systemtime
statx_created buf =
    if is_zero_time buf.btime_sec buf.btime_nsec
    then none
    else some (timestamp_to_systemtime buf.btime_sec buf.btime_nsec)

abbrev pub batch_size : ℕ
batch_size = 256

abbrev pub Results : Type 0
Results = List (Option StatxBuf)

-- one completion: its buffer goes to the place of its submission in the chunk
unfoldable pub place_result : ℕ → ℕ → ℕ × Option StatxBuf → Results → Results
place_result chunk_start n (idx, none) results = results
place_result chunk_start n (idx, some buf) results =
    if ltb idx n then set results (chunk_start + idx) (some buf) else results

unfoldable pub place_all : ℕ → ℕ → List (ℕ × Option StatxBuf) → Results → Results
unfolding place_result
place_all chunk_start n [] results = results
place_all chunk_start n (cqe ∷ cqes) results =
    place_all chunk_start n cqes (place_result chunk_start n cqe results)

module _ {Disk : Type 0} (sys : Platform Disk) (disk : Disk) (dir : FilePath) where
  -- The loop over the chunks, from `chunk_start` on. Each round advances by 256, so one more round
  -- than there are names is enough.
  unfoldable pub statx_chunks : ℕ → List Bytes → ℕ → Results → Option Results
  unfolding place_all
  statx_chunks zero names chunk_start results = none
  statx_chunks (suc fuel) names chunk_start results =
      let chunk = take batch_size (drop chunk_start names) in
      elim (ltb chunk_start (length names)) [
        | false ↦ some results
        | true ↦ elim (sys.statx_ring disk dir chunk) [
          | none ↦ none
          | some cqes ↦
              statx_chunks fuel names (chunk_start + batch_size)
                (place_all chunk_start (length chunk) cqes results)
        ]
      ]

  -- Results are indexed as the names are; `none` is a call that failed.
  unfoldable pub batch_statx : List Bytes → Option Results
  unfolding statx_chunks
  batch_statx names =
      if is_empty names
      then some []
      else statx_chunks (suc (length names)) names 0 (replicate (length names) none)
