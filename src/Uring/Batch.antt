-- ===== src/Uring/Batch.antt =====
-- `batch_statx` of src/scandir.rs against the plain call of `statx` for each name.
use rshs.App.{StatxBuf, answer}
use rshs.Common.{
  All, Bool-cases, Bytes, IsIn, List, Option, [], ap, arith, eqb, eqb_iff, false≢true, get_elem?,
  inl, inr, length, ltb, map, none, refl, some, sym, true, ℕ, ◌++◌, ◌+◌, ◌<◌, ◌∙◌, ◌∷◌, ◌≡◌, ◌≢◌,
  ◌⊎◌,
}
use rshs.Uring.{Results, place_all, place_result}
use rshs.Uring.Slices.{
  get_elem?-map, get_elem?-replicate, get_elem?-set_ne, get_elem?-set_self, length-map,
  length-replicate, length-set, list_ext, lt_of_get_elem?, replicate, set, set-append_left,
  set-append_right,
}

-- What io_uring documents of one ring: each submission is completed, with its `user_data` and the
-- result of its call; nothing is said of the order.
pub record Completes (stat : Bytes → Option StatxBuf) (chunk : List Bytes)
    (cqes : List (ℕ × Option StatxBuf)) : Type 0 where
  pub answers :
      All (λ c. (name : Bytes) × (get_elem? chunk c.0 ≡ some name) × (c.1 ≡ stat name)) cqes
  pub every : (i : ℕ) → i < length chunk → IsIn i (map (λ c. c.0) cqes)

-- A chunk's completions touch its own part of the results alone.
module _ (done tail : Results) where
  place_result-append :
      (n : ℕ) (mid : Results) (c : ℕ × Option StatxBuf)
      → length mid ≡ n
      → place_result (length done) n c (done ++ (mid ++ tail))
        ≡ done ++ (place_result 0 n c mid ++ tail)
  unfolding place_result
  place_result-append n mid (idx, none) e = refl
  place_result-append n mid (idx, some buf) e = elim (Bool-cases (ltb idx n)) [
    | inr outside ↦ rw outside refl
    | inl inside ↦
        let lt : idx < length mid = ground arith in
        let here : 0 + idx ≡ idx = omega arith in
        rw inside (
          set-append_right done (mid ++ tail) idx (some buf)
          ∙ ap (λ l. done ++ l)
              (set-append_left mid tail idx (some buf) lt
                ∙ ap (λ k. set mid k (some buf) ++ tail) (sym here)))
  ]

  length-place_result :
      (start n : ℕ) (mid : Results) (c : ℕ × Option StatxBuf)
      → length (place_result start n c mid) ≡ length mid
  unfolding place_result
  length-place_result start n mid (idx, none) = refl
  length-place_result start n mid (idx, some buf) = elim (Bool-cases (ltb idx n)) [
    | inl inside ↦ rw inside (length-set mid (start + idx) (some buf))
    | inr outside ↦ rw outside refl
  ]

  pub place_all-append :
      (n : ℕ) (mid : Results) (cqes : List (ℕ × Option StatxBuf))
      → length mid ≡ n
      → place_all (length done) n cqes (done ++ (mid ++ tail))
        ≡ done ++ (place_all 0 n cqes mid ++ tail)
  unfolding place_all
  place_all-append n mid [] e = refl
  place_all-append n mid (c ∷ cqes) e =
      ap (place_all (length done) n cqes) (place_result-append n mid c e)
      ∙ place_all-append n (place_result 0 n c mid) cqes (length-place_result 0 n mid c ∙ e)

module _ (stat : Bytes → Option StatxBuf) (chunk : List Bytes) where
  abbrev wanted : Results
  wanted = map stat chunk

  abbrev IsSettled : Results → ℕ → Type 0
  IsSettled results j = get_elem? results j ≡ get_elem? wanted j

  -- Each place holds its result, or nothing yet.
  abbrev IsPartial : Results → Type 0
  IsPartial results =
      (length results ≡ length chunk)
      × ((j : ℕ) → j < length chunk → IsSettled results j ⊎ (get_elem? results j ≡ some none))

  abbrev Answers : ℕ × Option StatxBuf → Type 0
  Answers c = (name : Bytes) × (get_elem? chunk c.0 ≡ some name) × (c.1 ≡ stat name)

  place_result-IsSettled :
      (results : Results) (c : ℕ × Option StatxBuf)
      → IsPartial results
      → Answers c
      → IsSettled (place_result 0 (length chunk) c results) c.0
  unfolding place_result
  place_result-IsSettled results (idx, none) (size, half) (name, found, e) =
      let want : get_elem? wanted idx ≡ some none =
        get_elem?-map stat chunk idx name found ∙ ap some (sym e) in
      elim (half idx (lt_of_get_elem? chunk idx name found)) [
        | inl settled ↦ settled
        | inr unset ↦ unset ∙ sym want
      ]
  place_result-IsSettled results (idx, some buf) (size, half) (name, found, e) =
      let want : get_elem? wanted idx ≡ some (some buf) =
        get_elem?-map stat chunk idx name found ∙ ap some (sym e) in
      let inside : ltb idx (length chunk) ≡ true =
        ground (arith, lt_of_get_elem? chunk idx name found) in
      let room : idx < length results = omega (arith, lt_of_get_elem? chunk idx name found) in
      let here : 0 + idx ≡ idx = omega arith in
      rw inside (rw here (get_elem?-set_self results idx (some buf) room ∙ sym want))

  other_place :
      (results : Results) (c : ℕ × Option StatxBuf) (j : ℕ)
      → c.0 ≢ j
      → get_elem? (place_result 0 (length chunk) c results) j ≡ get_elem? results j
  unfolding place_result
  other_place results (idx, none) j ne = refl
  other_place results (idx, some buf) j ne = elim (Bool-cases (ltb idx (length chunk))) [
    | inl inside ↦
        let here : 0 + idx ≡ idx = omega arith in
        rw inside (rw here (get_elem?-set_ne results idx j (some buf) ne))
    | inr outside ↦ rw outside refl
  ]

  place_result-IsPartial :
      (results : Results) (c : ℕ × Option StatxBuf)
      → IsPartial results
      → Answers c
      → IsPartial (place_result 0 (length chunk) c results)
  place_result-IsPartial results c (size, half) answer = (
    length-place_result [] [] 0 (length chunk) results c ∙ size,
    λ j lt. elim (Bool-cases (eqb c.0 j)) [
      | inl same ↦
          inl (rw (← (eqb_iff c.0 j).0 same) (place_result-IsSettled results c (size, half) answer))
      | inr other ↦
          rw (other_place results c j (λ e. false≢true (sym other ∙ (eqb_iff c.0 j).1 e)))
            (half j lt)
    ],
  )

  place_result_keeps :
      (results : Results) (c : ℕ × Option StatxBuf) (j : ℕ)
      → IsPartial results
      → Answers c
      → IsSettled results j ⊎ (c.0 ≡ j)
      → IsSettled (place_result 0 (length chunk) c results) j
  place_result_keeps results c j half answer settled = elim (Bool-cases (eqb c.0 j)) [
    | inl same ↦ rw (← (eqb_iff c.0 j).0 same) (place_result-IsSettled results c half answer)
    | inr other ↦
        let ne : c.0 ≢ j = λ e. false≢true (sym other ∙ (eqb_iff c.0 j).1 e) in
        elim settled [ inl s ↦ other_place results c j ne ∙ s | inr e ↦ absurd (ne e) ]
  ]

  place_all-IsSettled :
      (cqes : List (ℕ × Option StatxBuf)) (results : Results) (j : ℕ)
      → IsPartial results
      → All Answers cqes
      → IsSettled results j ⊎ IsIn j (map (λ c. c.0) cqes)
      → IsSettled (place_all 0 (length chunk) cqes results) j
  unfolding place_all
  place_all-IsSettled [] results j half answers (inl s) = s
  place_all-IsSettled [] results j half answers (inr i) = elim i [ ]
  place_all-IsSettled (c ∷ cqes) results j half (answer, answers) reached =
      place_all-IsSettled cqes (place_result 0 (length chunk) c results) j
        (place_result-IsPartial results c half answer) answers
        (elim reached [
          | inl s ↦ inl (place_result_keeps results c j half answer (inl s))
          | inr (inl e) ↦ inl (place_result_keeps results c j half answer (inr e))
          | inr (inr later) ↦ inr later
        ])

  length-place_all :
      (cqes : List (ℕ × Option StatxBuf)) (results : Results)
      → length (place_all 0 (length chunk) cqes results) ≡ length results
  unfolding place_all
  length-place_all [] results = refl
  length-place_all (c ∷ cqes) results =
      length-place_all cqes (place_result 0 (length chunk) c results)
      ∙ length-place_result [] [] 0 (length chunk) results c

  -- The completions of a chunk, in any order, fill its part with the result of each call.
  pub place_all-map :
      (cqes : List (ℕ × Option StatxBuf))
      → Completes stat chunk cqes
      → place_all 0 (length chunk) cqes (replicate (length chunk) none) ≡ map stat chunk
  place_all-map cqes complete =
      let empty : Results = replicate (length chunk) none in
      let size : length empty ≡ length chunk = length-replicate (length chunk) none in
      let half : IsPartial empty =
        (size, λ j lt. inr (get_elem?-replicate (length chunk) none j lt)) in
      list_ext _ wanted (length-place_all cqes empty ∙ size ∙ sym (length-map stat chunk)) (λ j lt.
        place_all-IsSettled cqes empty j half complete.answers
          (inr (complete.every j (omega (arith, length-map stat chunk)))))
