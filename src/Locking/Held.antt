-- ===== src/Locking/Held.antt =====
-- A lock stays with its client: what the table of Locking.Spec promises to one who holds a token.
use rshs.Common.{
  All, Bool, Bool-cases, Bytes, IsIn, List, [], arith, bytes_key, false, false≢true, inl, inr, not,
  refl, retain, sym, true, ℕ, ◌++◌, ◌==◌, ◌∙◌, ◌∷◌, ◌≡◌, ◌≢◌, ◌≤◌,
}
use rshs.FilePath.{FilePath, path_eq_iff, path_key}
use rshs.IfHeader.{contains}
use rshs.Lock.{LockInfo, active_slice, is_expired}
use rshs.Locking.{
  Reach, Step, System, acquire, commit, prune, reach_after, reach_here, release, tick,
}
use rshs.Locking.Cleanup.{is_expired_mono}
use rshs.Locking.Invariant.{IsConsistent, Reach-IsConsistent}
use rshs.Locking.Refines.{Step-Allows}
use rshs.Locking.Spec.{
  Action, Allows, LockTable, action_of, elapses, grants, housekeeping, keeps_house, lock_asked,
  refuses, releases, renews, time_passes, unlock_asked, view,
}
use rshs.Map.{nat_key}

-- An action of a client that does not hold the token.
abbrev pub IsForeign : Bytes → Action → Type 0
IsForeign token (lock_asked target q reply) = contains q.if_tokens token ≡ false
IsForeign token (unlock_asked p t) = (token == t) ≡ false
IsForeign token (time_passes n) = Unit
IsForeign token housekeeping = Unit

-- Every step of a run is an action with the property.
abbrev pub Along : {hash : ℕ → ℕ} (P : Action → Type 0) {s t : System} → Reach hash s t → Type 0
Along P reach_here = Unit
Along P (reach_after r step) = Along P r × P (action_of step)

module _ {A : Type 0} where
  IsIn-retain :
      (a : A) (keep : A → Bool) (xs : List A) → IsIn a xs → keep a ≡ true → IsIn a (retain keep xs)
  unfolding retain
  IsIn-retain a keep [] i h = elim i [ ]
  IsIn-retain a keep (x ∷ xs) (inl e) h = rw e (rw h (inl refl))
  IsIn-retain a keep (x ∷ xs) (inr i) h = elim (Bool-cases (keep x)) [
    | inl stays ↦ rw stays (inr (IsIn-retain a keep xs i h))
    | inr goes ↦ rw goes (IsIn-retain a keep xs i h)
  ]

  IsIn-append : (a : A) (xs ys : List A) → IsIn a xs → IsIn a (xs ++ ys)
  IsIn-append a [] ys i = elim i [ ]
  IsIn-append a (x ∷ xs) ys (inl e) = inl e
  IsIn-append a (x ∷ xs) ys (inr i) = inr (IsIn-append a xs ys i)

  All-IsIn : (P : A → Type 0) (a : A) (xs : List A) → All P xs → IsIn a xs → P a
  All-IsIn P a [] h i = elim i [ ]
  All-IsIn P a (x ∷ xs) (here, h) (inl e) = rw (← e) here
  All-IsIn P a (x ∷ xs) (here, h) (inr i) = All-IsIn P a xs h i

  IsIn-replace :
      (a x y : A) (front back : List A)
      → IsIn a (front ++ x ∷ back)
      → x ≢ a
      → IsIn a (front ++ y ∷ back)
  IsIn-replace a x y [] back (inl e) other = absurd (other e)
  IsIn-replace a x y [] back (inr i) other = inr i
  IsIn-replace a x y (z ∷ front) back (inl e) other = inl e
  IsIn-replace a x y (z ∷ front) back (inr i) other = inr (IsIn-replace a x y front back i other)

foreign_ne :
    (tokens : List Bytes) (token : Bytes) (l m : LockInfo)
    → l.token ≡ token
    → contains tokens token ≡ false
    → contains tokens m.token ≡ true
    → m ≢ l
foreign_ne tokens token l m e foreign held same =
    false≢true (sym foreign ∙ rw (← e) (rw (← same) held))

module _ {hash : ℕ → ℕ} {w w' : LockTable} (token : Bytes) (l : LockInfo) (p : FilePath)
    (named : l.token ≡ token) (here : IsIn l (w.held p)) where
  -- What a foreign action leaves of a lock that has not run out.
  Allows-IsIn :
      {a : Action}
      → Allows hash w w' a
      → IsForeign token a
      → is_expired w'.time l ≡ false
      → IsIn l (w'.held p)
  unfolding active_slice
  Allows-IsIn (refuses target q same held) foreign alive = rw (held p) here
  Allows-IsIn (keeps_house same held) foreign alive = rw (held p) here
  Allows-IsIn (elapses n later held) foreign alive =
      rw (held p) (IsIn-retain l (λ m. not (is_expired w'.time m)) (w.held p) here (rw alive refl))
  Allows-IsIn (grants target q t keep own same stays fits held) foreign alive =
      elim (Bool-cases (target == p)) [
        | inr other ↦ rw (held p) (rw other here)
        | inl same_path ↦
            let at_target : IsIn l (w.held target) = rw ((path_eq_iff target p).0 same_path) here in
            let kept : keep l ≡ true = elim (All-IsIn _ l (w.held target) stays at_target) [
              | inl k ↦ k
              | inr taken ↦ absurd (false≢true (sym foreign ∙ rw (← named) taken))
            ] in
            rw (held p) (rw same_path (IsIn-append l _ _ (IsIn-retain l keep (w.held p) here kept)))
      ]
  Allows-IsIn (renews target q j m front back same above deep owned was is others) foreign alive =
      elim (Bool-cases (j == p)) [
        | inr other ↦ rw (others p other) here
        | inl same_path ↦
            let e = (path_eq_iff j p).0 same_path in
            let at_j : IsIn l (front ++ m ∷ back) = rw (← was) (rw e here) in
            rw (← e) (
              rw is (
                IsIn-replace l m _ front back at_j
                  (foreign_ne q.if_tokens token l m named foreign owned)))
      ]
  Allows-IsIn (releases j t same held) foreign alive = elim (Bool-cases (j == p)) [
    | inr other ↦ rw (held p) (rw other here)
    | inl same_path ↦ rw (held p) (
        rw same_path
          (IsIn-retain l (λ m. not (m.token == t)) (w.held p) here (rw named (rw foreign refl))))
  ]

Step-clock : {hash : ℕ → ℕ} {s t : System} → Step hash s t → s.clock ≤ t.clock
Step-clock (tick s n) = omega arith
Step-clock (acquire s target q) = omega arith
Step-clock (commit s target q) = omega arith
Step-clock (release s target token) = omega arith
Step-clock (prune s) = omega arith

alive_before :
    (t now : ℕ) (l : LockInfo) → t ≤ now → is_expired now l ≡ false → is_expired t l ≡ false
alive_before t now l m h = ground (arith, is_expired_mono t now l)

-- Nobody loses a lock to another client: in every interleaving of requests, pruning and time from a
-- consistent store in which no LOCK and no UNLOCK carries the lock's token, an active lock is still
-- there, unchanged, as long as it has not expired.
pub held_until_expiry :
    {hash : ℕ → ℕ} {s t : System} (l : LockInfo) (p : FilePath)
    → IsConsistent s.clock s.locks
    → (r : Reach hash s t) → Along (IsForeign l.token) r
    → IsIn l ((view s).held p)
    → is_expired t.clock l ≡ false
    → IsIn l ((view t).held p)
held_until_expiry l p h reach_here foreign here alive = here
held_until_expiry l p h (reach_after r step) (earlier, foreign) here alive =
    let still = alive_before _ _ l (Step-clock step) alive in
    Allows-IsIn l.token l p refl (held_until_expiry l p h r earlier here still)
      (Step-Allows step (Reach-IsConsistent h r)) foreign alive
