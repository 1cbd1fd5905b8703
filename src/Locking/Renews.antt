-- ===== src/Locking/Renews.antt =====
-- The renewal of an ancestor's lock, seen on the active locks.
use rshs.Common.{
  All, Bool, Bool-cases, List, Option, Option-cases, [], any, ap, arith, bytes_key, find, inl, inr,
  none, not, refl, retain, some, true, ℕ, ◌&&◌, ◌++◌, ◌∷◌, ◌≡◌,
}
use rshs.FilePath.{FilePath, path_key}
use rshs.Lock.{LockInfo, LockStore, active_slice, is_expired, is_infinity}
use rshs.LockStore.{
  candidates, find_and_refresh_ancestor_lock, is_ancestor_of, is_match, refresh_candidates,
  refresh_first,
}
use rshs.Locking.Refresh.{still_active}
use rshs.Map.{get, insert, nat_key, or_default}

-- One active lock of a list has a new time of creation.
pub record Renewed (now : ℕ) (predicate : LockInfo → Bool) (lock : LockInfo) (xs ys : List LockInfo)
    : Type 0 where
  pub front : List LockInfo
  pub back : List LockInfo
  pub was : xs ≡ front ++ lock ∷ back
  pub is : ys ≡ front ++ record lock { created = now } ∷ back
  pub matches : is_match now predicate lock ≡ true

module _ (now : ℕ) (predicate : LockInfo → Bool) where
  Renewed-cons :
      (x : LockInfo) {l : LockInfo} {xs ys : List LockInfo}
      → Renewed now predicate l xs ys
      → Renewed now predicate l (x ∷ xs) (x ∷ ys)
  Renewed-cons x r = record {
    front = x ∷ r.front;
    back = r.back;
    was = ap (λ l. x ∷ l) r.was;
    is = ap (λ l. x ∷ l) r.is;
    matches = r.matches;
  }

  Renewed-here :
      (x : LockInfo) (xs : List LockInfo)
      → is_match now predicate x ≡ true
      → Renewed now predicate x
          (active_slice now (x ∷ xs))
          (active_slice now (record x { created = now } ∷ xs))
  unfolding active_slice retain
  Renewed-here x xs h =
      let (again, active) = still_active now predicate x h in
      record {
        front = [];
        back = retain (λ l. not (is_expired now l)) xs;
        was = rw active refl;
        is = rw again refl;
        matches = h;
      }

  pub refresh_first-Renewed :
      (infos : List LockInfo) (l : LockInfo)
      → find (is_match now predicate) infos ≡ some l
      → Renewed now predicate l
          (active_slice now infos)
          (active_slice now (refresh_first now predicate infos))
  unfolding find refresh_first active_slice retain
  refresh_first-Renewed [] l e = cc
  refresh_first-Renewed (x ∷ infos) l e = elim (Bool-cases (is_match now predicate x)) [
    | inl here ↦ let first : x ≡ l = ground arith in rw (here, ← first) (Renewed-here x infos here)
    | inr there ↦
        let ih = refresh_first-Renewed infos l (ground arith) in
        rw there (elim (Bool-cases (is_expired now x)) [
          | inl gone ↦ rw (gone, active_slice, retain) ih
          | inr active ↦ rw (active, active_slice, retain) (Renewed-cons x ih)
        ])
  ]

  -- What the search over the candidates ends with: nothing, or one renewed lock on one of them.
  abbrev pub Searched : FilePath → LockStore → Option LockInfo × LockStore → Type 0
  Searched target locks (none, locks') = locks' ≡ locks
  Searched target locks (some m, locks') =
      (p : FilePath) × (infos : List LockInfo) × (l : LockInfo) × (is_ancestor_of p target ≡ true)
      × (locks' ≡ insert locks p infos)
      × (m ≡ record l { created = now })
      × Renewed now predicate l (active_slice now (or_default (get locks p)))
          (active_slice now infos)

  refresh_candidates-Searched :
      (target : FilePath) (locks : LockStore) (paths : List FilePath)
      → All (λ p. is_ancestor_of p target ≡ true) paths
      → Searched target locks (refresh_candidates now predicate locks paths)
  unfolding refresh_candidates
  refresh_candidates-Searched target locks [] above = refl
  refresh_candidates-Searched target locks (p ∷ rest) (here, above) =
      elim (Option-cases (find (is_match now predicate) (or_default (get locks p)))) [
        | inl missed ↦
            rw (missed, refresh_candidates) (refresh_candidates-Searched target locks rest above)
        | inr (l, found) ↦
            rw (found, refresh_candidates)
              (
                p,
                refresh_first now predicate (or_default (get locks p)),
                l,
                here,
                refl,
                refl,
                refresh_first-Renewed (or_default (get locks p)) l found,
              )
      ]

  candidates-above :
      (target : FilePath) (locks : LockStore)
      → All (λ p. is_ancestor_of p target ≡ true) (candidates now target locks)
  unfolding candidates
  candidates-above target [] = tt
  candidates-above target ((p, infos) ∷ rest) =
      let ih = candidates-above target rest in
      elim (Bool-cases (is_ancestor_of p target)) [
        | inr outside ↦
            rw outside
              (elim (Bool-cases (any (λ l. is_infinity l.depth && not (is_expired now l)) infos)) [
                | inl a ↦ rw a ih
                | inr b ↦ rw b ih
              ])
        | inl inside ↦
            elim (Bool-cases (any (λ l. is_infinity l.depth && not (is_expired now l)) infos)) [
              | inl a ↦ rw a (rw inside (inside, ih))
              | inr b ↦ rw b ih
            ]
      ]

  pub find_and_refresh-Searched :
      (target : FilePath) (locks : LockStore)
      → Searched target locks (find_and_refresh_ancestor_lock now locks target predicate)
  unfolding find_and_refresh_ancestor_lock
  find_and_refresh-Searched target locks =
      refresh_candidates-Searched target locks (candidates now target locks)
        (candidates-above target locks)
