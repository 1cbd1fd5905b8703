-- ===== src/LockStore/Enforced.antt =====
-- `is_path_locked`: which locks keep a request from writing to a path.
use rshs.Common.{
  Bool, Bool-cases, Bytes, List, [], and-eq-true_iff, any, arith, bytes_key, false, inl, inr, not,
  retain, true, ℕ, ◌&&◌, ◌↔◌, ◌∷◌, ◌≡◌, ◌⊎◌,
}
use rshs.FilePath.{FilePath, path_key}
use rshs.IfHeader.{IfList, eval_if}
use rshs.Lock.{LockInfo, LockStore, active_slice, is_infinity}
use rshs.LockStore.{has_infinity, is_path_locked}
use rshs.LockStore.Ancestor.{IsCanonical}
use rshs.LockStore.Strategies.{IsRooted, walk_locked_ancestors_iff}
use rshs.LockStore.Walk.{IsFound, passed}
use rshs.Map.{get, or_default}
use rshs.Map.Laws.{HasDistinctKeys}

-- An entry above the path has an active lock of infinite depth, and the `If` header fails for it.
abbrev pub blocks : ℕ → List IfList → Bytes → List LockInfo → Bool
blocks now lists request_path infos =
    any (λ l. is_infinity l.depth) (active_slice now infos)
    && not (eval_if now lists infos request_path)

any-retain :
    {A : Type 0} (p q : A → Bool) (xs : List A) → any p (retain q xs) ≡ true → any p xs ≡ true
unfolding any retain
any-retain p q [] h = h
any-retain p q (x ∷ xs) h = ground (arith, any-retain p q xs)

has_infinity_of_blocks :
    (now : ℕ) (lists : List IfList) (request_path : Bytes) (infos : List LockInfo)
    → blocks now lists request_path infos ≡ true
    → has_infinity infos ≡ true
unfolding has_infinity active_slice
has_infinity_of_blocks now lists request_path infos h =
    any-retain _ _ infos ((and-eq-true_iff _ _).0 h).0

-- A path is locked against a request exactly when the `If` header fails on the path's own locks, or
-- on the locks of an entry strictly above it that has an active lock of infinite depth.
pub is_path_locked_iff :
    (now : ℕ) (locks : LockStore) (path root : FilePath) (lists : List IfList)
    (request_path : Bytes)
    → HasDistinctKeys locks
    → IsRooted root locks
    → IsCanonical path
    → (is_path_locked now locks path lists root request_path ≡ true) ↔ (
        (eval_if now lists (or_default (get locks path)) request_path ≡ false)
        ⊎ IsFound (blocks now lists request_path) locks path)
unfolding is_path_locked
is_path_locked_iff now locks path root lists request_path distinct inside canonical =
    let own = eval_if now lists (or_default (get locks path)) request_path in
    let walk =
      walk_locked_ancestors_iff (blocks now lists request_path) locks root path distinct inside
        canonical (has_infinity_of_blocks now lists request_path) in
    (
      λ h. elim (Bool-cases own) [
        | inl passed ↦ inr (walk.0 (ground arith))
        | inr failed ↦ inl failed
      ],
      λ r. elim r [ inl failed ↦ ground arith | inr found ↦ ground (arith, walk.1 found) ],
    )
