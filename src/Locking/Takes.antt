-- ===== src/Locking/Takes.antt =====
-- What a LOCK request takes away from the active locks of its path: only what it holds the token of.
use rshs.Common.{
  All, Bool, Bool-cases, Bytes, List, Option-cases, [], all, and-eq-true_iff, any_of_find, ap,
  arith, bytes_eq_iff, bytes_key, false, false≢true, find, inl, inr, is_empty, length, not, refl,
  retain, retain_comm, some, sym, true, ℕ, ◌==◌, ◌∙◌, ◌∷◌, ◌≡◌, ◌≤◌, ◌⊎◌,
}
use rshs.FilePath.{path_key}
use rshs.Http.{Result, err, ok}
use rshs.IfHeader.{check_existing_exclusive, contains}
use rshs.Lock.{LockInfo, LockScope, active_slice, exclusive, is_exclusive, is_expired, shared}
use rshs.Lock.Token.{generate_lock_token}
use rshs.LockHandler.{
  LockRequest, TryAcquire, acquired, decide, decide_from, kept_token, needs_lock_null, owns_all,
  try_new, try_new_exclusive, try_new_shared,
}
use rshs.Locking.Compatible.{IsCompatible}
use rshs.Locking.Spec.{IsOwn}
use rshs.Map.{nat_key}

-- The decision on an entry, seen on its active locks.
abbrev pub Takes :
    (ℕ → ℕ) → ℕ → LockRequest → List LockInfo → Result TryAcquire × List LockInfo → Type 0
Takes hash now q entry (err code, entry') = active_slice now entry' ≡ active_slice now entry
Takes hash now q entry (ok needs_lock_null, entry') =
    active_slice now entry' ≡ active_slice now entry
Takes hash now q entry (ok (acquired token), entry') =
    (keep : LockInfo → Bool) × IsOwn hash now q token
    × All (λ l. (keep l ≡ true) ⊎ (contains q.if_tokens l.token ≡ true)) (active_slice now entry)
    × (active_slice now entry' ≡ retain keep (active_slice now entry))

module _ {A : Type 0} where
  retain_none : (xs : List A) → retain (λ _. false) xs ≡ []
  unfolding retain
  retain_none [] = refl
  retain_none (x ∷ xs) = retain_none xs

  retain_every : (xs : List A) → retain (λ _. true) xs ≡ xs
  unfolding retain
  retain_every [] = refl
  retain_every (x ∷ xs) = ap (λ l. x ∷ l) (retain_every xs)

  All-retain : (P : A → Type 0) (p : A → Bool) (xs : List A) → All P xs → All P (retain p xs)
  unfolding retain
  All-retain P p [] h = tt
  All-retain P p (x ∷ xs) (here, h) = elim (Bool-cases (p x)) [
    | inl stays ↦ rw stays (here, All-retain P p xs h)
    | inr goes ↦ rw goes (All-retain P p xs h)
  ]

  All-every : (P : A → Type 0) → ((x : A) → P x) → (xs : List A) → All P xs
  All-every P h [] = tt
  All-every P h (x ∷ xs) = (h x, All-every P h xs)

  All-of-all :
      (P : A → Type 0) (p : A → Bool)
      → ((x : A) → p x ≡ true → P x)
      → (xs : List A) → all p xs ≡ true
      → All P xs
  unfolding all
  All-of-all P p h [] e = tt
  All-of-all P p h (x ∷ xs) e =
      let (here, rest) = (and-eq-true_iff (p x) (all p xs)).0 e in
      (h x here, All-of-all P p h xs rest)

  find_holds : (p : A → Bool) (xs : List A) (x : A) → find p xs ≡ some x → p x ≡ true
  unfolding find
  find_holds p [] x h = cc
  find_holds p (y ∷ xs) x h = ground (arith, find_holds p xs x)

module _ (hash : ℕ → ℕ) (now : ℕ) (q : LockRequest) (entry : List LockInfo) where
  abbrev fresh : Bytes
  fresh = generate_lock_token hash now

  abbrev Stays : (LockInfo → Bool) → LockInfo → Type 0
  Stays keep l = (keep l ≡ true) ⊎ (contains q.if_tokens l.token ≡ true)

  Takes-exclusive : Takes hash now q entry (try_new_exclusive entry q.if_tokens fresh)
  unfolding try_new_exclusive owns_all active_slice
  Takes-exclusive = elim (Bool-cases (is_empty entry)) [
    | inl empty ↦ rw empty refl
    | inr full ↦ elim (Bool-cases (owns_all q.if_tokens entry)) [
      | inr theirs ↦ rw full (rw theirs refl)
      | inl ours ↦ rw full (
          rw ours (
            (λ _. false),
            inl refl,
            All-retain (Stays (λ _. false)) _ entry (
                All-of-all (Stays (λ _. false)) (λ l. contains q.if_tokens l.token) (λ l h. inr h)
                  entry ours),
            unfold retain in sym (retain_none (retain (λ l. not (is_expired now l)) entry)),
          ))
    ]
  ]

  Stays-held :
      (existing l : LockInfo)
      → contains q.if_tokens existing.token ≡ true
      → Stays (λ m. not (m.token == existing.token)) l
  Stays-held existing l h = elim (Bool-cases (l.token == existing.token)) [
    | inr other ↦ inl (rw other refl)
    | inl same ↦ inr (rw ((bytes_eq_iff l.token existing.token).0 same) h)
  ]

  Takes-shared : Takes hash now q entry (try_new_shared entry q.if_tokens fresh)
  unfolding try_new_shared active_slice
  Takes-shared = elim (Option-cases (find (λ l. contains q.if_tokens l.token) entry)) [
    | inr (existing, found) ↦
        let held : contains q.if_tokens existing.token ≡ true =
          find_holds (λ l. contains q.if_tokens l.token) entry existing found in
        rw (found, try_new_shared)
          (
            (λ m. not (m.token == existing.token)),
            inr held,
            All-every (Stays (λ m. not (m.token == existing.token)))
                (λ l. Stays-held existing l held) (active_slice now entry),
            retain_comm (λ l. not (is_expired now l)) (λ m. not (m.token == existing.token)) entry,
          )
    | inl nothing ↦ elim (Bool-cases (is_empty entry)) [
      | inl empty ↦ rw (nothing, try_new_shared) (rw empty refl)
      | inr full ↦
          rw (nothing, try_new_shared)
            (rw full (
              (λ _. true),
              inl refl,
              All-every (Stays (λ _. true)) (λ l. inl refl) (active_slice now entry),
              sym (retain_every (active_slice now entry)),
            ))
    ]
  ]

  Takes-new : (scope : LockScope) → Takes hash now q entry (try_new scope entry q.if_tokens fresh)
  unfolding try_new
  Takes-new exclusive = Takes-exclusive
  Takes-new shared = Takes-shared

  only_one :
      (x : LockInfo) (xs : List LockInfo)
      → length xs ≤ 1
      → find is_exclusive xs ≡ some x
      → contains q.if_tokens x.token ≡ true
      → All (Stays (λ l. not (is_exclusive l))) xs
  unfolding find
  only_one x [] few found h = tt
  only_one x (y ∷ z ∷ xs) few found h = absurd (omega arith)
  only_one x (y ∷ []) few found h = elim (Bool-cases (is_exclusive y)) [
    | inl ex ↦ let same : y ≡ x = ground arith in (inr (rw same h), tt)
    | inr not_ex ↦ (inl (rw not_ex refl), tt)
  ]

  downgraded :
      (x : LockInfo)
      → IsCompatible now entry
      → find is_exclusive (active_slice now entry) ≡ some x
      → contains q.if_tokens x.token ≡ true
      → All (Stays (λ l. not (is_exclusive l))) (active_slice now entry)
  downgraded x (inr few) found h = only_one x (active_slice now entry) few found h
  downgraded x (inl nothing) found h =
      absurd (false≢true (sym nothing ∙ any_of_find is_exclusive (active_slice now entry) x found))

  IsOwn-kept_token :
      (scope : LockScope) (token : Bytes)
      → contains q.if_tokens token ≡ true
      → IsOwn hash now q (kept_token scope token fresh)
  IsOwn-kept_token exclusive token h = inr h
  IsOwn-kept_token shared token h = inl refl

  pub decide-Takes :
      IsCompatible now entry → Takes hash now q entry (decide now q.scope entry q.if_tokens fresh)
  unfolding decide decide_from check_existing_exclusive active_slice
  decide-Takes compatible = elim (Option-cases (find is_exclusive (active_slice now entry))) [
    | inl nothing ↦ rw (nothing, check_existing_exclusive) (Takes-new q.scope)
    | inr (x, found) ↦ elim (Bool-cases (contains q.if_tokens x.token)) [
      | inr theirs ↦ rw (found, check_existing_exclusive) (rw theirs refl)
      | inl ours ↦
          rw (found, check_existing_exclusive)
            (rw ours (
              (λ l. not (is_exclusive l)),
              IsOwn-kept_token q.scope x.token ours,
              downgraded x compatible found ours,
              retain_comm (λ l. not (is_expired now l)) (λ l. not (is_exclusive l)) entry,
            ))
    ]
  ]
