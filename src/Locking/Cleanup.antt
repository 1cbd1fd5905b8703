-- ===== src/Locking/Cleanup.antt =====
-- The cleanup task is invisible to requests: it takes away only what they ignore.
use rshs.Common.{
  All, Bool, Bool-cases, Bytes, List, Option, Option-cases, [], any, arith, bytes_key, false, inl,
  inr, is_empty, is_empty_iff, none, not, refl, retain, some, sym, true, ℕ, ◌∙◌, ◌∷◌, ◌≡◌, ◌≤◌,
}
use rshs.FilePath.{FilePath, path_key, starts_with}
use rshs.IfHeader.{IfList, eval_if}
use rshs.Lock.{LockInfo, LockStore, active_slice, is_expired}
use rshs.LockStore.{is_path_locked}
use rshs.LockStore.Ancestor.{IsCanonical}
use rshs.LockStore.Enforced.{blocks, is_path_locked_iff}
use rshs.LockStore.Strategies.{IsRooted}
use rshs.LockStore.Walk.{IsFound}
use rshs.Locking.{cleanup_locks}
use rshs.Map.{get, or_default, retain_mut}
use rshs.Map.Laws.{HasDistinctKeys, get-retain_mut, kept, kept-some, retain_mut-HasDistinctKeys}

-- What has expired stays expired.
pub is_expired_mono :
    (t now : ℕ) (l : LockInfo)
    → t ≤ now
    → not (is_expired now l) ≡ true
    → not (is_expired t l) ≡ true
unfolding is_expired
is_expired_mono t now l m h = elim (Option-cases l.timeout) [
  | inl never ↦ ground (arith)
  | inr (d, timed) ↦ ground (arith)
]

active_slice-cleaned :
    (t now : ℕ) (infos : List LockInfo)
    → t ≤ now
    → active_slice now (active_slice t infos) ≡ active_slice now infos
unfolding active_slice retain
active_slice-cleaned t now [] m = refl
active_slice-cleaned t now (l ∷ infos) m =
    ground (arith, active_slice-cleaned t now infos m, is_expired_mono t now l m)

eval_if-active :
    (now : ℕ) (lists : List IfList) (xs ys : List LockInfo) (request_path : Bytes)
    → active_slice now xs ≡ active_slice now ys
    → eval_if now lists xs request_path ≡ eval_if now lists ys request_path
unfolding eval_if
eval_if-active now [] xs ys request_path e = rw e refl
eval_if-active now (l ∷ ls) xs ys request_path e = rw e refl

blocks-active :
    (now : ℕ) (lists : List IfList) (xs ys : List LockInfo) (request_path : Bytes)
    → active_slice now xs ≡ active_slice now ys
    → blocks now lists request_path xs ≡ blocks now lists request_path ys
blocks-active now lists xs ys request_path e =
    rw (eval_if-active now lists xs ys request_path e) (rw e refl)

blocks-ne-empty :
    (now : ℕ) (lists : List IfList) (request_path : Bytes) (infos : List LockInfo)
    → blocks now lists request_path infos ≡ true
    → is_empty infos ≡ false
unfolding active_slice retain any
blocks-ne-empty now lists request_path [] h = cc
blocks-ne-empty now lists request_path (l ∷ infos) h = refl

Bool-ext : (a b : Bool) → (a ≡ true → b ≡ true) → (b ≡ true → a ≡ true) → a ≡ b
Bool-ext true b f g = sym (f refl)
Bool-ext false b f g = ground (arith, g)

All-retain_mut :
    (P : FilePath → Type 0) (f : List LockInfo → List LockInfo) (keep : List LockInfo → Bool)
    (locks : LockStore)
    → All (λ e. P e.0) locks
    → All (λ e. P e.0) (retain_mut f keep locks)
unfolding retain_mut
All-retain_mut P f keep [] h = h
All-retain_mut P f keep ((p, v) ∷ locks) (here, h) = elim (Bool-cases (keep (f v))) [
  | inl stays ↦ rw stays (here, All-retain_mut P f keep locks h)
  | inr goes ↦ rw goes (All-retain_mut P f keep locks h)
]

cleanup_locks-IsRooted :
    (t : ℕ) (root : FilePath) (locks : LockStore)
    → IsRooted root locks
    → IsRooted root (cleanup_locks t locks)
unfolding cleanup_locks
cleanup_locks-IsRooted t root locks inside =
    All-retain_mut (λ p. IsCanonical p × (starts_with p root ≡ true)) _ _ locks inside

cleanup_locks-HasDistinctKeys :
    (t : ℕ) (locks : LockStore) → HasDistinctKeys locks → HasDistinctKeys (cleanup_locks t locks)
unfolding cleanup_locks
cleanup_locks-HasDistinctKeys t locks h = retain_mut-HasDistinctKeys _ _ locks h

module _ (t now : ℕ) (m : t ≤ now) (locks : LockStore) (distinct : HasDistinctKeys locks) where
  get-cleanup_locks :
      (p : FilePath)
      → get (cleanup_locks t locks) p
        ≡ kept (active_slice t) (λ infos. not (is_empty infos)) (get locks p)
  unfolding cleanup_locks
  get-cleanup_locks p = get-retain_mut (active_slice t) _ locks p distinct

  pub active-cleanup_locks :
      (p : FilePath)
      → active_slice now (or_default (get (cleanup_locks t locks) p))
        ≡ active_slice now (or_default (get locks p))
  active-cleanup_locks p = rw (get-cleanup_locks p) (of_kept (get locks p))
    where
      of_kept :
          (o : Option (List LockInfo))
          → active_slice now (or_default (kept (active_slice t) (λ infos. not (is_empty infos)) o))
            ≡ active_slice now (or_default o)
      of_kept none = refl
      of_kept (some v) = elim (Bool-cases (is_empty (active_slice t v))) [
        | inl gone ↦ rw gone (
            rw (← active_slice-cleaned t now v m)
              (rw ((is_empty_iff (active_slice t v)).0 gone) (unfold active_slice retain in refl)))
        | inr stays ↦ rw stays (active_slice-cleaned t now v m)
      ]

  module _ (lists : List IfList) (request_path : Bytes) (target : FilePath) where
    IsFound-cleaned :
        IsFound (blocks now lists request_path) locks target
        → IsFound (blocks now lists request_path) (cleanup_locks t locks) target
    IsFound-cleaned found =
        let v = found.infos in
        let same =
          blocks-active now lists (active_slice t v) v request_path
            (active_slice-cleaned t now v m) in
        let still : blocks now lists request_path (active_slice t v) ≡ true = same ∙ found.holds in
        let stays = blocks-ne-empty now lists request_path (active_slice t v) still in
        record {
          path = found.path;
          infos = active_slice t v;
          stored = rw (get-cleanup_locks found.path) (rw found.stored (rw stays refl));
          above = found.above;
          holds = still;
        }

    IsFound-uncleaned :
        IsFound (blocks now lists request_path) (cleanup_locks t locks) target
        → IsFound (blocks now lists request_path) locks target
    IsFound-uncleaned found =
        let (old, stored, slice) =
          kept-some (active_slice t) (λ infos. not (is_empty infos)) (get locks found.path)
            found.infos (rw (← get-cleanup_locks found.path) found.stored) in
        record {
          path = found.path;
          infos = old;
          stored = stored;
          above = found.above;
          holds =
              rw
                (← blocks-active now lists (active_slice t old) old request_path
                  (active_slice-cleaned t now old m))
                (rw slice found.holds);
        }

    -- A run of the cleanup task at any earlier time changes nothing of what the lock middleware
    -- answers: a path is locked with the cleaned store exactly when it is with the store before.
    pub cleanup_locks-is_path_locked :
        (root : FilePath)
        → IsRooted root locks
        → IsCanonical target
        → is_path_locked now (cleanup_locks t locks) target lists root request_path
          ≡ is_path_locked now locks target lists root request_path
    cleanup_locks-is_path_locked root inside canonical =
        let before =
          is_path_locked_iff now locks target root lists request_path distinct inside canonical in
        let cleaned =
          is_path_locked_iff now (cleanup_locks t locks) target root lists request_path
            (cleanup_locks-HasDistinctKeys t locks distinct)
            (cleanup_locks-IsRooted t root locks inside) canonical in
        let own =
          eval_if-active now lists (or_default (get (cleanup_locks t locks) target))
            (or_default (get locks target)) request_path (active-cleanup_locks target) in
        Bool-ext _ _
          (λ h. before.1 (elim (cleaned.0 h) [
            | inl failed ↦ inl (sym own ∙ failed)
            | inr found ↦ inr (IsFound-uncleaned found)
          ]))
          (λ h. cleaned.1 (elim (before.0 h) [
            | inl failed ↦ inl (own ∙ failed)
            | inr found ↦ inr (IsFound-cleaned found)
          ]))
