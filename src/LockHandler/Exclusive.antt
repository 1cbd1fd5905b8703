-- ===== src/LockHandler/Exclusive.antt =====
-- What a lock that LOCK grants does to later requests, and what UNLOCK takes away.
use rshs.Common.{
  Bool, Bool-cases, Bytes, List, Option-cases, [], any, arith, bytes_key, false, false≢true, find,
  if◌then◌else◌, inl, inr, is_empty, is_empty_iff, length, length-retain, ltb, none, not, refl,
  retain, some, sym, true, ℕ, ◌==◌, ◌↔◌, ◌∙◌, ◌∷◌, ◌≡◌, ◌⊎◌,
}
use rshs.FilePath.{FilePath, path_eq_iff, path_key}
use rshs.Http.{err, forbidden, locked, no_content, ok}
use rshs.IfHeader.{check_existing_exclusive, contains}
use rshs.Lock.{LockInfo, LockScope, LockStore, active_slice, is_exclusive, is_expired}
use rshs.Lock.Token.{generate_lock_token}
use rshs.LockHandler.{LockRequest, decide, lock_commit, new_lock, unlock}
use rshs.Map.{get, insert, nat_key, or_default}
use rshs.Map.Laws.{get-insert}

pub get-insert-same :
    (locks : LockStore) (p : FilePath) (infos : List LockInfo)
    → get (insert locks p infos) p ≡ some infos
get-insert-same locks p infos =
    let same : (p == p) ≡ true = (path_eq_iff p p).1 refl in
    ground (arith, get-insert locks p p infos)

-- The entry behind a successful commit holds the new lock alone.
pub commit-entry :
    (hash : ℕ → ℕ) (locks : LockStore) (target : FilePath) (q : LockRequest) (now : ℕ)
    (l : LockInfo)
    → (lock_commit hash locks target q now).0 ≡ ok l
    → (l ≡ new_lock q (generate_lock_token hash now) now)
      × (get (lock_commit hash locks target q now).1 target ≡ some (l ∷ []))
unfolding lock_commit
commit-entry hash locks target q now l h =
    elim (Bool-cases (is_empty (or_default (get locks target)))) [
      | inr full ↦ ground (arith)
      | inl empty ↦
          let nothing = (is_empty_iff (or_default (get locks target))).0 empty in
          let fresh = new_lock q (generate_lock_token hash now) now in
          let made : l ≡ fresh = ground arith in
          rw made (rw (nothing, lock_commit) (refl, get-insert-same locks target (fresh ∷ [])))
    ]

-- the only lock of an entry is active, exclusive, and not owned
pub decide-refused :
    (now : ℕ) (scope : LockScope) (l : LockInfo) (if_tokens : List Bytes) (fresh : Bytes)
    → is_exclusive l ≡ true
    → is_expired now l ≡ false
    → contains if_tokens l.token ≡ false
    → decide now scope (l ∷ []) if_tokens fresh ≡ (err locked, l ∷ [])
unfolding decide check_existing_exclusive active_slice retain find
decide-refused now scope l if_tokens fresh ex active foreign = ground (arith)

length-retain-not :
    {A : Type 0} (p : A → Bool) (xs : List A)
    → (ltb (length (retain (λ x. not (p x)) xs)) (length xs) ≡ true) ↔ (any p xs ≡ true)
unfolding retain any
length-retain-not p [] = ground arith
length-retain-not p (x ∷ xs) =
    ground (arith, length-retain-not p xs, length-retain (λ x. not (p x)) xs)

-- the locks of a path, less those of a token at one path
abbrev less : LockStore → FilePath → Bytes → FilePath → List LockInfo
less locks p token j =
    if p == j
    then retain (λ l. not (l.token == token)) (or_default (get locks j))
    else or_default (get locks j)

unlock-missing :
    (locks : LockStore) (p : FilePath) (token : Bytes) (j : FilePath)
    → get locks p ≡ none
    → or_default (get locks j) ≡ less locks p token j
unfolding retain
unlock-missing locks p token j missing = elim (Bool-cases (p == j)) [
  | inl same ↦ rw same (rw (← (path_eq_iff p j).0 same) (rw missing refl))
  | inr other ↦ rw other refl
]

unlock-stored :
    (locks : LockStore) (p : FilePath) (token : Bytes) (j : FilePath) (entry : List LockInfo)
    → get locks p ≡ some entry
    → or_default (get (insert locks p (retain (λ l. not (l.token == token)) entry)) j)
      ≡ less locks p token j
unlock-stored locks p token j entry stored = elim (Bool-cases (p == j)) [
  | inl same ↦
      let there : get locks j ≡ some entry = rw (← (path_eq_iff p j).0 same) stored in
      rw (get-insert locks p j (retain (λ l. not (l.token == token)) entry))
        (rw same (rw there refl))
  | inr other ↦
      rw (get-insert locks p j (retain (λ l. not (l.token == token)) entry)) (rw other refl)
]

-- UNLOCK answers with 204 exactly when the path has a lock with the token, and with 403 otherwise;
-- it leaves the path without that token's locks and with its others, and leaves all other paths.
pub unlock_iff :
    (locks : LockStore) (p : FilePath) (token : Bytes)
    → (((unlock locks p token).0 ≡ ok no_content)
        ↔ (any (λ l. l.token == token) (or_default (get locks p)) ≡ true))
      × (((unlock locks p token).0 ≡ ok no_content) ⊎ ((unlock locks p token).0 ≡ err forbidden))
      × ((j : FilePath)
          → or_default (get (unlock locks p token).1 j) ≡ (
              if p == j
              then retain (λ l. not (l.token == token)) (or_default (get locks j))
              else or_default (get locks j)))
unfolding unlock any retain
unlock_iff locks p token = elim (Option-cases (get locks p)) [
  | inl missing ↦
      rw (missing, unlock) (ground arith, inr refl, λ j. unlock-missing locks p token j missing)
  | inr (entry, stored) ↦
      let left = retain (λ l. not (l.token == token)) entry in
      let shorter = length-retain-not (λ l. l.token == token) entry in
      elim (Bool-cases (ltb (length left) (length entry))) [
        | inl removed ↦
            rw (stored, unlock)
              (rw removed (
                (λ _. shorter.0 removed, λ _. refl),
                inl refl,
                λ j. unlock-stored locks p token j entry stored,
              ))
        | inr same ↦
            rw (stored, unlock)
              (rw same (
                (λ e. cc, λ e. absurd (false≢true (sym same ∙ shorter.1 e))),
                inr refl,
                λ j. unlock-stored locks p token j entry stored,
              ))
      ]
]
