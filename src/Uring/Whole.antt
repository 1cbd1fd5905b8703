-- ===== src/Uring/Whole.antt =====
-- The loop of `batch_statx` of src/scandir.rs over chunks of 256 names.
use rshs.App.{Platform, StatxBuf}
use rshs.Common.{
  Bool-cases, Bytes, List, Option, [], ap, append-nil, append_assoc, arith, dec_lt, false, inl, inr,
  length, length-append, ltb, map, map-append, none, refl, some, suc, sym, true, zero, ℕ, ◌++◌, ◌+◌,
  ◌<◌, ◌∙◌, ◌∷◌, ◌≡◌, ◌≤◌, ◌⊎◌,
}
use rshs.FilePath.{FilePath}
use rshs.Uring.{Results, batch_size, batch_statx, place_all, statx_chunks}
use rshs.Uring.Batch.{Completes, place_all-append, place_all-map}
use rshs.Uring.Slices.{
  drop, drop-append, length-drop, length-map, length-replicate, length-take, length-take-le,
  replicate, replicate-add, take, take-append-drop,
}

module _ {Disk : Type 0} (sys : Platform Disk) (disk : Disk) (dir : FilePath)
    (stat : Bytes → Option StatxBuf) where
  -- What is relied on: a ring of at most 256 calls starts, and completes each of them.
  abbrev pub RingsComplete : Type 0
  RingsComplete =
      (chunk : List Bytes)
      → length chunk ≤ batch_size
      → (cqes : List (ℕ × Option StatxBuf)) × (sys.statx_ring disk dir chunk ≡ some cqes)
        × Completes stat chunk cqes

  -- behind the last name
  chunks_end :
      (fuel : ℕ) (names : List Bytes) (start : ℕ) (results : Results)
      → 0 < fuel
      → length names ≤ start
      → statx_chunks sys disk dir fuel names start results ≡ some results
  unfolding statx_chunks
  chunks_end zero names start results some_fuel past = absurd (omega arith)
  chunks_end (suc fuel) names start results some_fuel past =
      let done : ltb start (length names) ≡ false = ground arith in rw (done, statx_chunks) refl

  chunks_step :
      (fuel : ℕ) (names : List Bytes) (start : ℕ) (results : Results)
      (cqes : List (ℕ × Option StatxBuf))
      → ltb start (length names) ≡ true
      → sys.statx_ring disk dir (take batch_size (drop start names)) ≡ some cqes
      → statx_chunks sys disk dir (suc fuel) names start results
        ≡ statx_chunks sys disk dir fuel names
            (start + batch_size)
            (place_all start (length (take batch_size (drop start names))) cqes results)
  unfolding statx_chunks
  chunks_step fuel names start results cqes more ran =
      rw (more, statx_chunks) (rw (ran, statx_chunks) refl)

  -- The part of the results behind `done` is empty but for the chunk that comes next.
  split_empty :
      (post : List Bytes)
      → replicate {A = Option StatxBuf} (length post) none
        ≡ replicate (length (take batch_size post)) none
          ++ replicate (length (drop batch_size post)) none
  split_empty post =
      let parts : length post ≡ length (take batch_size post) + length (drop batch_size post) =
        ap (length {A = Bytes}) (sym (take-append-drop batch_size post))
        ∙ length-append (take batch_size post) (drop batch_size post) in
      ap (λ k. replicate k none) parts
      ∙ replicate-add (length (take batch_size post)) (length (drop batch_size post)) none

  place_chunk :
      (pre post : List Bytes) (cqes : List (ℕ × Option StatxBuf))
      → Completes stat (take batch_size post) cqes
      → place_all
          (length pre)
          (length (take batch_size post))
          cqes
          (map stat pre ++ replicate (length post) none)
        ≡ map stat (pre ++ take batch_size post) ++ replicate (length (drop batch_size post)) none
  place_chunk pre post cqes complete =
      let chunk = take batch_size post in
      let tail : Results = replicate (length (drop batch_size post)) none in
      let start : length (map stat pre) ≡ length pre = length-map stat pre in
      ap (λ l. place_all (length pre) (length chunk) cqes (map stat pre ++ l)) (split_empty post)
      ∙ ap
          (λ k.
            place_all k (length chunk) cqes
              (map stat pre ++ (replicate (length chunk) none ++ tail)))
          (sym start)
      ∙ place_all-append (map stat pre) tail (length chunk) (replicate (length chunk) none) cqes
          (length-replicate (length chunk) none)
      ∙ ap (λ l. map stat pre ++ (l ++ tail)) (place_all-map stat chunk cqes complete)
      ∙ sym (append_assoc (map stat pre) (map stat chunk) tail)
      ∙ ap (λ l. l ++ tail) (sym (map-append stat pre chunk))

  nothing_left :
      (pre post : List Bytes)
      → length post ≡ 0
      → map stat pre ++ replicate (length post) none ≡ map stat (pre ++ post)
  nothing_left pre [] h = append-nil (map stat pre) ∙ ap (map stat) (sym (append-nil pre))
  nothing_left pre (x ∷ post) h = absurd (omega arith)

  -- The results after a chunk, from which the loop goes on or ends.
  abbrev filled : List Bytes → List Bytes → Results
  filled pre post = map stat pre ++ replicate (length post) none

  -- After a round, the loop is behind the last name, or at the start of the next chunk.
  round_end :
      (fuel : ℕ) (pre post : List Bytes)
      → length post < suc fuel
      → 0 < length post
      → ((length (drop batch_size post) ≡ 0)
          × (0 < fuel)
          × (length (pre ++ take batch_size post) ≤ length pre + batch_size))
        ⊎ ((length pre + batch_size ≡ length (pre ++ take batch_size post))
            × (length (drop batch_size post) < fuel))
  round_end fuel pre post h more =
      let total = length-append pre (take batch_size post) in
      let left = length-drop batch_size post in
      let few = length-take-le batch_size post in
      elim (dec_lt batch_size (length post)) [
        | yes further ↦
            let full = length-take batch_size post (omega arith) in inr (omega arith, omega arith)
        | no last ↦ inl (omega arith, omega arith, omega arith)
      ]

  go_on :
      (fuel : ℕ) (pre rest : List Bytes) (start : ℕ)
      → ((length rest ≡ 0) × (0 < fuel) × (length pre ≤ start))
        ⊎ ((start ≡ length pre) × (length rest < fuel))
      → (length rest < fuel
          → statx_chunks sys disk dir fuel (pre ++ rest) (length pre) (filled pre rest)
            ≡ some (map stat (pre ++ rest)))
      → statx_chunks sys disk dir fuel (pre ++ rest) start (filled pre rest)
        ≡ some (map stat (pre ++ rest))
  go_on fuel pre rest start (inl (none_left, some_fuel, past)) ih =
      chunks_end fuel (pre ++ rest) start (filled pre rest) some_fuel
        (omega (arith, length-append pre rest))
      ∙ ap some (nothing_left pre rest none_left)
  go_on fuel pre rest start (inr (here, enough)) ih =
      ap (λ k. statx_chunks sys disk dir fuel (pre ++ rest) k (filled pre rest)) here ∙ ih enough

  module _ (rings : RingsComplete) where
    chunks-map :
        (fuel : ℕ) (pre post : List Bytes)
        → length post < fuel
        → statx_chunks sys disk dir fuel (pre ++ post) (length pre) (filled pre post)
          ≡ some (map stat (pre ++ post))
    chunks-map zero pre post h = absurd (omega arith)
    chunks-map (suc fuel) pre post h =
        let total = length-append pre post in
        elim (Bool-cases (ltb (length pre) (length (pre ++ post)))) [
          | inr done ↦
              chunks_end (suc fuel) (pre ++ post) (length pre) (filled pre post) (omega arith)
                (ground arith)
              ∙ ap some (nothing_left pre post (ground arith))
          | inl more ↦
              let chunk = take batch_size post in
              let rest = drop batch_size post in
              let (cqes, ran, complete) = rings chunk (length-take-le batch_size post) in
              let next : drop (length pre) (pre ++ post) ≡ post = drop-append pre post in
              let ran_here : sys.statx_ring disk dir
                    (take batch_size (drop (length pre) (pre ++ post)))
                  ≡ some cqes =
                rw next ran in
              let whole : (pre ++ chunk) ++ rest ≡ pre ++ post =
                append_assoc pre chunk rest
                ∙ ap (λ l. pre ++ l) (take-append-drop batch_size post) in
              chunks_step fuel (pre ++ post) (length pre) (filled pre post) cqes more ran_here
              ∙ ap
                  (λ l.
                    statx_chunks sys disk dir fuel (pre ++ post) (length pre + batch_size)
                      (place_all (length pre) (length (take batch_size l)) cqes (filled pre post)))
                  next
              ∙ ap (statx_chunks sys disk dir fuel (pre ++ post) (length pre + batch_size))
                  (place_chunk pre post cqes complete)
              ∙ ap
                  (λ l.
                    statx_chunks sys disk dir fuel l (length pre + batch_size)
                      (filled (pre ++ chunk) rest))
                  (sym whole)
              ∙ go_on fuel (pre ++ chunk) rest (length pre + batch_size)
                  (round_end fuel pre post h (ground arith)) (chunks-map fuel (pre ++ chunk) rest)
              ∙ ap (λ l. some (map stat l)) whole
        ]

    -- While every ring starts and completes each of its calls, in whatever order, `batch_statx`
    -- answers with the result of `statx` for each name, in the order of the names, however many
    -- names there are; its fuel is enough.
    pub batch_statx-map :
        (names : List Bytes) → batch_statx sys disk dir names ≡ some (map stat names)
    unfolding batch_statx
    batch_statx-map [] = refl
    batch_statx-map (n ∷ names) = chunks-map (suc (length (n ∷ names))) [] (n ∷ names) (omega arith)
