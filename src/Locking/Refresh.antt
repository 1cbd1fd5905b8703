-- ===== src/Locking/Refresh.antt =====
-- Refreshing an ancestor's lock changes no lock's scope, and makes none active or expired.
use rshs.Common.{
  Bool, List, [], any, arith, false, inl, inr, length, refl, retain, true, ℕ, ◌∙◌, ◌∷◌, ◌≡◌,
}
use rshs.Lock.{LockInfo, active_slice, is_exclusive, is_expired}
use rshs.LockStore.{is_match, refresh_first}
use rshs.Locking.Compatible.{IsCompatible}

module _ (now : ℕ) (predicate : LockInfo → Bool) where
  pub still_active :
      (l : LockInfo)
      → is_match now predicate l ≡ true
      → (is_expired now (record l { created = now }) ≡ false) × (is_expired now l ≡ false)
  unfolding is_match is_expired
  still_active l h = ground arith

  any-refresh_first :
      (infos : List LockInfo)
      → any is_exclusive (active_slice now (refresh_first now predicate infos))
        ≡ any is_exclusive (active_slice now infos)
  unfolding refresh_first active_slice retain any is_exclusive
  any-refresh_first [] = refl
  any-refresh_first (l ∷ infos) = ground (arith, any-refresh_first infos, still_active l)

  length-refresh_first :
      (infos : List LockInfo)
      → length (active_slice now (refresh_first now predicate infos))
        ≡ length (active_slice now infos)
  unfolding refresh_first active_slice retain
  length-refresh_first [] = refl
  length-refresh_first (l ∷ infos) = ground (arith, length-refresh_first infos, still_active l)

  pub refresh_first-IsCompatible :
      (infos : List LockInfo)
      → IsCompatible now infos
      → IsCompatible now (refresh_first now predicate infos)
  refresh_first-IsCompatible infos (inl h) = inl (any-refresh_first infos ∙ h)
  refresh_first-IsCompatible infos (inr h) = inr (omega (arith, length-refresh_first infos))
