-- ===== src/LockStore/Walk.antt =====
-- `walk_locked_ancestors`: its two strategies, over the entries and up the parents, look at the
-- same locks.
use rshs.Common.{
  Bool, Bool-cases, List, Option, Option-cases, [], and-eq-true_iff, ap, append-nil, append_assoc,
  arith, bytes_key, if◌then◌else◌, inl, inr, length, none, refl, retain, some, suc, sym, true, zero,
  ℕ, ◌&&◌, ◌++◌, ◌<◌, ◌∙◌, ◌∷◌, ◌≡◌,
}
use rshs.FilePath.{
  Component, FilePath, cur_dir, normal, parent, parent_dir, path_eq_iff, path_key, root_dir,
  starts_with,
}
use rshs.Lock.{LockInfo, LockStore}
use rshs.LockStore.{holds_at, is_ancestor_of, walk_entries, walk_parents}
use rshs.LockStore.Ancestor.{IsBelow, is_ancestor_of_sound}
use rshs.Map.{get}
use rshs.Map.Laws.{HasDistinctKeys}

-- The entries of a filtered table, by lookup.
module _ (q : List LockInfo → Bool) where
  abbrev pub passed : Option (List LockInfo) → Option (List LockInfo)
  passed none = none
  passed (some v) = if q v then some v else none

  pub get-retain :
      (m : LockStore) (j : FilePath)
      → HasDistinctKeys m
      → get (retain (λ e. q e.1) m) j ≡ passed (get m j)
  unfolding get retain
  get-retain [] j h = refl
  get-retain ((i, w) ∷ m) j (fresh, h) = ground (arith, get-retain m j h, path_eq_iff i j)

  pub retain-HasDistinctKeys :
      (m : LockStore) → HasDistinctKeys m → HasDistinctKeys (retain (λ e. q e.1) m)
  unfolding retain
  retain-HasDistinctKeys [] h = tt
  retain-HasDistinctKeys ((i, w) ∷ m) (fresh, h) = elim (Bool-cases (q w)) [
    | inl stays ↦ rw stays (ground (arith, get-retain m i h), retain-HasDistinctKeys m h)
    | inr goes ↦ rw goes (retain-HasDistinctKeys m h)
  ]

-- A lock entry that the walk is about: at a path that holds it, above the target.
pub record IsFound (f : List LockInfo → Bool) (locks : LockStore) (target : FilePath) : Type 0 where
  pub path : FilePath
  pub infos : List LockInfo
  pub stored : get locks path ≡ some infos
  pub above : IsBelow target path
  pub holds : f infos ≡ true

module _ (f : List LockInfo → Bool) (target : FilePath) where
  pub walk_entries_sound :
      (m : LockStore) → HasDistinctKeys m → walk_entries f target m ≡ true → IsFound f m target
  unfolding walk_entries get
  walk_entries_sound [] h e = cc
  walk_entries_sound ((k, v) ∷ m) (fresh, h) e =
      elim (Bool-cases (is_ancestor_of k target && f v)) [
        | inl here ↦
            let (ancestor, good) = (and-eq-true_iff (is_ancestor_of k target) (f v)).0 here in
            record {
              path = k;
              infos = v;
              stored = ground (arith, path_eq_iff k k);
              above = is_ancestor_of_sound k target ancestor;
              holds = good;
            }
        | inr later ↦
            let found = walk_entries_sound m h (ground arith) in
            record {
              path = found.path;
              infos = found.infos;
              stored = ground (arith, found.stored, path_eq_iff k found.path);
              above = found.above;
              holds = found.holds;
            }
      ]

  pub walk_entries_complete :
      (m : LockStore) (p : FilePath) (infos : List LockInfo)
      → get m p ≡ some infos
      → is_ancestor_of p target ≡ true
      → f infos ≡ true
      → walk_entries f target m ≡ true
  unfolding walk_entries get
  walk_entries_complete [] p infos e a h = cc
  walk_entries_complete ((k, v) ∷ m) p infos e a h =
      ground (arith, walk_entries_complete m p infos, path_eq_iff k p)

pub drop_last : FilePath → FilePath
drop_last [] = []
drop_last (c ∷ []) = []
drop_last (c ∷ d ∷ p) = c ∷ drop_last (d ∷ p)

parent-eq-drop_last :
    (c d : Component) (p : FilePath) → parent (c ∷ d ∷ p) ≡ some (c ∷ drop_last (d ∷ p))
unfolding parent drop_last
parent-eq-drop_last c root_dir [] = refl
parent-eq-drop_last c cur_dir [] = refl
parent-eq-drop_last c parent_dir [] = refl
parent-eq-drop_last c (normal s) [] = refl
parent-eq-drop_last c d (e ∷ p) = rw (parent-eq-drop_last d e p)

drop_last-append :
    (p : FilePath) (c : Component) (rest : FilePath)
    → drop_last (p ++ c ∷ rest) ≡ p ++ drop_last (c ∷ rest)
unfolding drop_last
drop_last-append [] c rest = refl
drop_last-append (d ∷ []) c rest = refl
drop_last-append (d ∷ e ∷ p) c rest = ap (λ l. d ∷ l) (drop_last-append (e ∷ p) c rest)

-- One step up from below a path does not pass it.
pub parent-append :
    (d : Component) (p : FilePath) (c : Component) (rest : FilePath)
    → parent (d ∷ (p ++ c ∷ rest)) ≡ some (d ∷ (p ++ drop_last (c ∷ rest)))
parent-append d [] c rest = parent-eq-drop_last d c rest
parent-append d (e ∷ p) c rest =
    rw (parent-eq-drop_last d e (p ++ c ∷ rest))
      (ap (λ l. some (d ∷ l)) (drop_last-append (e ∷ p) c rest))

pub length-drop_last : (c : Component) (p : FilePath) → length (drop_last (c ∷ p)) ≡ length p
unfolding drop_last
length-drop_last c [] = refl
length-drop_last c (d ∷ p) = ap suc (length-drop_last d p)

-- The last component that `parent` takes off.
last_of : (c : Component) (p : FilePath) → (l : Component) × (c ∷ p ≡ drop_last (c ∷ p) ++ l ∷ [])
unfolding drop_last
last_of c [] = (c, refl)
last_of c (d ∷ p) = let (l, e) = last_of d p in (l, ap (λ q. c ∷ q) e)

pub IsBelow-parent : (p q : FilePath) → parent p ≡ some q → IsBelow p q
unfolding parent
IsBelow-parent [] q e = cc
IsBelow-parent (root_dir ∷ []) q e = cc
IsBelow-parent (cur_dir ∷ []) q e = (cur_dir, [], cc)
IsBelow-parent (parent_dir ∷ []) q e = (parent_dir, [], cc)
IsBelow-parent (normal s ∷ []) q e = (normal s, [], cc)
IsBelow-parent (c ∷ d ∷ p) q e =
    let (l, split) = last_of d p in
    let same : some q ≡ some (c ∷ drop_last (d ∷ p)) = sym e ∙ parent-eq-drop_last c d p in
    (l, [], cc (split, same))

pub IsBelow-trans : (p q r : FilePath) → IsBelow p q → IsBelow q r → IsBelow p r
IsBelow-trans p q r (c, s, e) (d, t, h) =
    (d, t ++ c ∷ s, e ∙ ap (λ l. l ++ c ∷ s) h ∙ append_assoc r (d ∷ t) (c ∷ s))

pub starts_with-append_right :
    (p q r : FilePath) → starts_with p q ≡ true → starts_with (p ++ r) q ≡ true
unfolding starts_with
starts_with-append_right p [] r h = refl
starts_with-append_right [] (b ∷ q) r h = cc
starts_with-append_right (a ∷ p) (b ∷ q) r h = ground (arith, starts_with-append_right p q r)

-- Where the walk stands: nowhere, or above the target.
abbrev pub IsAbove : FilePath → Option FilePath → Type 0
IsAbove target none = Unit
IsAbove target (some p) = IsBelow target p

module _ (f : List LockInfo → Bool) (locks : LockStore) (root target : FilePath) where
  IsAbove-parent : (p : FilePath) → IsBelow target p → IsAbove target (parent p)
  IsAbove-parent p h = elim (Option-cases (parent p)) [
    | inl top ↦ rw top tt
    | inr (q, e) ↦ rw e (IsBelow-trans target p q h (IsBelow-parent p q e))
  ]

  pub walk_parents_sound :
      (fuel : ℕ) (current : Option FilePath)
      → IsAbove target current
      → walk_parents fuel f locks root current ≡ true
      → IsFound f locks target
  unfolding walk_parents
  walk_parents_sound zero current h e = cc
  walk_parents_sound (suc fuel) none h e = cc
  walk_parents_sound (suc fuel) (some p) h e = elim (Bool-cases (holds_at f (get locks p))) [
    | inl here ↦ found_at (get locks p) refl here
    | inr missed ↦ walk_parents_sound fuel (parent p) (IsAbove-parent p h) (ground arith)
  ]
    where
      found_at :
          (o : Option (List LockInfo))
          → get locks p ≡ o
          → holds_at f o ≡ true
          → IsFound f locks target
      found_at none stored good = cc
      found_at (some v) stored good = record {
        path = p;
        infos = v;
        stored = stored;
        above = h;
        holds = good;
      }

  pub walk_parents_complete :
      (fuel : ℕ) (p rest : FilePath) (infos : List LockInfo)
      → length rest < fuel
      → get locks (root_dir ∷ p) ≡ some infos
      → f infos ≡ true
      → starts_with (root_dir ∷ p) root ≡ true
      → walk_parents fuel f locks root (some (root_dir ∷ (p ++ rest))) ≡ true
  unfolding walk_parents
  walk_parents_complete zero p rest infos m e h w = elim m [ ]
  walk_parents_complete (suc fuel) p [] infos m e h w = rw (append-nil p) (rw w (rw e (rw h)))
  walk_parents_complete (suc fuel) p (c ∷ rest) infos m e h w =
      let below = starts_with-append_right (root_dir ∷ p) root (c ∷ rest) w in
      let shorter =
        walk_parents_complete fuel p (drop_last (c ∷ rest)) infos
          (omega (arith, length-drop_last c rest)) e h w in
      let up = parent-append root_dir p c rest in rw below (rw up (ground (arith, shorter)))
