-- ===== src/Locking/Compatible.antt =====
-- The locks of one path are compatible, and each change that a LOCK request makes keeps them so.
use rshs.Common.{
  Bool, Bool-cases, Bytes, List, Option, Option-cases, [], any, any-append, any-retain-false,
  any-retain-not, any_of_find, any_of_find-none, ap, arith, false, false≢true, find, inl, inr,
  is_empty, length, length-retain, none, not, refl, retain, retain-append, retain-not_single,
  retain_comm, some, sym, true, ℕ, ◌++◌, ◌+◌, ◌∙◌, ◌∷◌, ◌≡◌, ◌≤◌, ◌⊎◌,
}
use rshs.Http.{Result, err, locked, ok}
use rshs.IfHeader.{check_existing_exclusive, contains}
use rshs.Lock.{LockInfo, LockScope, active_slice, exclusive, is_exclusive, is_expired, shared}
use rshs.LockHandler.{
  LockRequest, TryAcquire, acquired, decide, decide_from, needs_lock_null, new_lock, owns_all,
  try_new, try_new_exclusive, try_new_shared,
}

-- If an active lock is exclusive, no other lock is active.
abbrev pub IsCompatible : ℕ → List LockInfo → Type 0
IsCompatible now infos =
    (any is_exclusive (active_slice now infos) ≡ false) ⊎ (length (active_slice now infos) ≤ 1)

active_slice-append :
    (now : ℕ) (xs ys : List LockInfo)
    → active_slice now (xs ++ ys) ≡ active_slice now xs ++ active_slice now ys
unfolding active_slice
active_slice-append now xs ys = retain-append (λ l. not (is_expired now l)) xs ys

active_slice-one : (now : ℕ) (l : LockInfo) → length (active_slice now (l ∷ [])) ≤ 1
unfolding active_slice retain
active_slice-one now l = ground arith

any-one :
    (now : ℕ) (l : LockInfo)
    → is_exclusive l ≡ false
    → any is_exclusive (active_slice now (l ∷ [])) ≡ false
unfolding active_slice retain any
any-one now l h = ground arith

pub IsCompatible-one : (now : ℕ) (l : LockInfo) → IsCompatible now (l ∷ [])
IsCompatible-one now l = inr (active_slice-one now l)

-- A shared lock beside locks of which none is active and exclusive.
IsCompatible-shared :
    (now : ℕ) (infos : List LockInfo) (l : LockInfo)
    → any is_exclusive (active_slice now infos) ≡ false
    → is_exclusive l ≡ false
    → IsCompatible now (infos ++ l ∷ [])
IsCompatible-shared now infos l h e = inl (
    rw (active_slice-append now infos (l ∷ [])) (
      any-append is_exclusive (active_slice now infos) (active_slice now (l ∷ []))
      ∙ ground (arith, any-one now l e)))

-- A lock beside locks of which none is active.
IsCompatible-alone :
    (now : ℕ) (infos : List LockInfo) (l : LockInfo)
    → active_slice now infos ≡ []
    → IsCompatible now (infos ++ l ∷ [])
IsCompatible-alone now infos l h = inr (
    rw (active_slice-append now infos (l ∷ []) ∙ ap (λ xs. xs ++ active_slice now (l ∷ [])) h)
      (active_slice-one now l))

module _ (now : ℕ) (entry : List LockInfo) where
  -- An entry without its exclusive locks has no active exclusive lock.
  no_exclusive :
      any is_exclusive (active_slice now (retain (λ l. not (is_exclusive l)) entry)) ≡ false
  unfolding active_slice
  no_exclusive =
      rw (retain_comm (λ l. not (is_expired now l)) (λ l. not (is_exclusive l)) entry)
        (any-retain-not is_exclusive _)

  -- Where an active lock is exclusive, no lock is active beside it.
  none_active :
      IsCompatible now entry
      → any is_exclusive (active_slice now entry) ≡ true
      → active_slice now (retain (λ l. not (is_exclusive l)) entry) ≡ []
  unfolding active_slice
  none_active (inl h) e = absurd (false≢true (sym h ∙ e))
  none_active (inr h) e =
      retain_comm (λ l. not (is_expired now l)) (λ l. not (is_exclusive l)) entry
      ∙ retain-not_single is_exclusive (retain (λ l. not (is_expired now l)) entry) h e

  fewer_active :
      (p : LockInfo → Bool)
      → any is_exclusive (active_slice now entry) ≡ false
      → any is_exclusive (active_slice now (retain p entry)) ≡ false
  unfolding active_slice
  fewer_active p h =
      rw (retain_comm (λ l. not (is_expired now l)) p entry) (any-retain-false is_exclusive p _ h)

-- What `decide` leaves can take the new lock.
abbrev pub CanTake : ℕ → LockRequest → ℕ → Result TryAcquire × List LockInfo → Type 0
CanTake now q created (err code, entry') = IsCompatible now entry'
CanTake now q created (ok needs_lock_null, entry') = IsCompatible now entry'
CanTake now q created (ok (acquired token), entry') =
    IsCompatible now (entry' ++ new_lock q token created ∷ [])

scope_shared :
    (q : LockRequest) (token : Bytes) (created : ℕ)
    → q.scope ≡ shared
    → is_exclusive (new_lock q token created) ≡ false
unfolding is_exclusive
scope_shared q token created h = ground arith

abbrev pub Found : ℕ → List LockInfo → Result (Option Bytes) → Type 0
Found now entry (err code) = code ≡ locked
Found now entry (ok none) = any is_exclusive (active_slice now entry) ≡ false
Found now entry (ok (some token)) = any is_exclusive (active_slice now entry) ≡ true

check_existing_exclusive-Found :
    (now : ℕ) (entry : List LockInfo) (if_tokens : List Bytes)
    → Found now entry (check_existing_exclusive now entry if_tokens)
unfolding check_existing_exclusive
check_existing_exclusive-Found now entry if_tokens =
    elim (Option-cases (find is_exclusive (active_slice now entry))) [
      | inl nothing ↦
          rw (nothing, check_existing_exclusive) (any_of_find-none is_exclusive _ nothing)
      | inr (l, found) ↦ elim (Bool-cases (contains if_tokens l.token)) [
        | inl ours ↦
            rw (found, check_existing_exclusive) (rw ours (any_of_find is_exclusive _ l found))
        | inr theirs ↦ rw (found, check_existing_exclusive) (rw theirs refl)
      ]
    ]

module _ (now : ℕ) (q : LockRequest) (created : ℕ) (entry : List LockInfo) (if_tokens : List Bytes)
    (fresh : Bytes) (h : IsCompatible now entry) where
  try_new_exclusive-CanTake : CanTake now q created (try_new_exclusive entry if_tokens fresh)
  unfolding try_new_exclusive
  try_new_exclusive-CanTake = elim (Bool-cases (is_empty entry)) [
    | inl empty ↦ rw empty h
    | inr full ↦ elim (Bool-cases (owns_all if_tokens entry)) [
      | inl ours ↦ rw full (rw ours (IsCompatible-one now (new_lock q fresh created)))
      | inr theirs ↦ rw full (rw theirs h)
    ]
  ]

  try_new_shared-CanTake :
      q.scope ≡ shared
      → any is_exclusive (active_slice now entry) ≡ false
      → CanTake now q created (try_new_shared entry if_tokens fresh)
  unfolding try_new_shared
  try_new_shared-CanTake s e = elim (Option-cases (find (λ l. contains if_tokens l.token) entry)) [
    | inr (existing, found) ↦
        rw (found, try_new_shared)
          (IsCompatible-shared now _ _ (fewer_active now entry _ e)
            (scope_shared q existing.token created s))
    | inl nothing ↦ elim (Bool-cases (is_empty entry)) [
      | inl empty ↦ rw (nothing, try_new_shared) (rw empty h)
      | inr full ↦
          rw (nothing, try_new_shared)
            (rw full (IsCompatible-shared now entry _ e (scope_shared q fresh created s)))
    ]
  ]

  try_new-CanTake :
      (scope : LockScope)
      → q.scope ≡ scope
      → any is_exclusive (active_slice now entry) ≡ false
      → CanTake now q created (try_new scope entry if_tokens fresh)
  unfolding try_new
  try_new-CanTake exclusive s e = try_new_exclusive-CanTake
  try_new-CanTake shared s e = try_new_shared-CanTake s e

  downgrade :
      (scope : LockScope) (token : Bytes)
      → q.scope ≡ scope
      → any is_exclusive (active_slice now entry) ≡ true
      → IsCompatible now (retain (λ l. not (is_exclusive l)) entry ++ new_lock q token created ∷ [])
  downgrade exclusive token s e = IsCompatible-alone now _ _ (none_active now entry h e)
  downgrade shared token s e =
      IsCompatible-shared now _ _ (no_exclusive now entry) (scope_shared q token created s)

  decide_from-CanTake :
      (r : Result (Option Bytes)) (scope : LockScope)
      → q.scope ≡ scope
      → Found now entry r
      → CanTake now q created (decide_from r scope entry if_tokens fresh)
  unfolding decide_from
  decide_from-CanTake (err code) scope s e = h
  decide_from-CanTake (ok none) scope s e = try_new-CanTake scope s e
  decide_from-CanTake (ok (some token)) exclusive s e = downgrade exclusive token s e
  decide_from-CanTake (ok (some token)) shared s e = downgrade shared fresh s e

  -- From a compatible entry, the decision leaves a compatible one, with the new lock where the
  -- decision is to push it.
  pub decide-CanTake : CanTake now q created (decide now q.scope entry if_tokens fresh)
  unfolding decide
  decide-CanTake =
      decide_from-CanTake (check_existing_exclusive now entry if_tokens) q.scope refl
        (check_existing_exclusive-Found now entry if_tokens)

-- What has expired stays expired.
expired_later : (now n : ℕ) (l : LockInfo) → is_expired now l ≡ true → is_expired (now + n) l ≡ true
unfolding is_expired
expired_later now n l h = ground arith

pub active_slice-later :
    (now n : ℕ) (infos : List LockInfo)
    → active_slice (now + n) infos ≡ active_slice (now + n) (active_slice now infos)
unfolding active_slice retain
active_slice-later now n [] = refl
active_slice-later now n (l ∷ infos) =
    ground (arith, active_slice-later now n infos, expired_later now n l)

pub IsCompatible-later :
    (now n : ℕ) (infos : List LockInfo) → IsCompatible now infos → IsCompatible (now + n) infos
unfolding active_slice
IsCompatible-later now n infos (inl h) =
    inl (rw (active_slice-later now n infos) (any-retain-false is_exclusive _ _ h))
IsCompatible-later now n infos (inr h) = inr (
    omega (
      arith,
      ap (length {A = LockInfo}) (active_slice-later now n infos),
      length-retain (λ l. not (is_expired (now + n) l)) (active_slice now infos),
    ))

-- A removal keeps the others compatible.
pub retain-IsCompatible :
    (now : ℕ) (p : LockInfo → Bool) (infos : List LockInfo)
    → IsCompatible now infos
    → IsCompatible now (retain p infos)
unfolding active_slice
retain-IsCompatible now p infos (inl h) =
    inl
      (rw (retain_comm (λ l. not (is_expired now l)) p infos) (any-retain-false is_exclusive p _ h))
retain-IsCompatible now p infos (inr h) = inr (
    omega (
      arith,
      ap (length {A = LockInfo}) (retain_comm (λ l. not (is_expired now l)) p infos),
      length-retain p (retain (λ l. not (is_expired now l)) infos),
    ))
