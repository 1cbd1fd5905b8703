-- ===== src/IfHeader/Laws.antt =====
-- What an `If` header demands of the locks that it is evaluated against.
use rshs.Common.{
  All, Bool, Bool-cases, Bytes, List, [], all, and-eq-true_iff, any, arith, bytes_key, false,
  false≢true, if◌then◌else◌, inl, inr, is_empty, is_empty_iff, none, refl, retain, sym, true, ℕ,
  ◌==◌, ◌↔◌, ◌∙◌, ◌∷◌, ◌≡◌,
}
use rshs.FilePath.{path_key}
use rshs.IfHeader.{
  IfList, applies_to, eval, eval_active, eval_if, has_lock_token, holds_for, negated, no_lock,
  state_token,
}
use rshs.Lock.{LockInfo, active_slice}

-- Every list that applies to the path has only conditions that hold of the active locks.
abbrev pub AllHold : ℕ → List IfList → List LockInfo → Bytes → Type 0
AllHold now lists infos request_path =
    All (λ l. applies_to request_path l ≡ true → All (λ c. eval now c infos ≡ true) l.conditions)
      lists

all_iff : {A : Type 0} (p : A → Bool) (xs : List A) → (all p xs ≡ true) ↔ All (λ x. p x ≡ true) xs
unfolding all
all_iff p [] = (λ _. tt, λ _. refl)
all_iff p (x ∷ xs) = (
  λ h. let (here, later) = (and-eq-true_iff (p x) (all p xs)).0 h in (here, (all_iff p xs).0 later),
  λ (here, later). (and-eq-true_iff (p x) (all p xs)).1 (here, (all_iff p xs).1 later),
)

all-retain :
    {A : Type 0} (p q : A → Bool) (xs : List A)
    → (all p (retain q xs) ≡ true) ↔ All (λ x. q x ≡ true → p x ≡ true) xs
unfolding all retain
all-retain p q [] = (λ _. tt, λ _. refl)
all-retain p q (x ∷ xs) = elim (Bool-cases (q x)) [
  | inl selected ↦ rw selected (
    λ h.
        let (here, later) = (and-eq-true_iff (p x) (all p (retain q xs))).0 h in
        (λ _. here, (all-retain p q xs).0 later),
    λ (here, later).
        (and-eq-true_iff (p x) (all p (retain q xs))).1 (here refl, (all-retain p q xs).1 later),
  )
  | inr skipped ↦ rw skipped (
    λ h. (λ e. absurd (false≢true e), (all-retain p q xs).0 h),
    λ (_, later). (all-retain p q xs).1 later,
  )
]

all_of_empty :
    {A : Type 0} (p : A → Bool) (xs : List A) → (if is_empty xs then true else all p xs) ≡ all p xs
unfolding all
all_of_empty p [] = refl
all_of_empty p (x ∷ xs) = refl

-- What the header demands: with no list, that no lock is active; else that the lists hold.
abbrev pub Demands : ℕ → List IfList → List LockInfo → Bytes → Type 0
Demands now [] infos request_path = active_slice now infos ≡ []
Demands now (l ∷ ls) infos request_path = AllHold now (l ∷ ls) infos request_path

holds_for_iff :
    (now : ℕ) (infos : List LockInfo) (l : IfList)
    → (holds_for (active_slice now infos) l ≡ true)
      ↔ All (λ c. eval now c infos ≡ true) l.conditions
unfolding holds_for eval
holds_for_iff now infos l = all_iff (λ c. eval_active c (active_slice now infos)) l.conditions

All-implies :
    {A : Type 0} (P Q : A → Type 0) (xs : List A) → ((x : A) → P x → Q x) → All P xs → All Q xs
All-implies P Q [] f h = tt
All-implies P Q (x ∷ xs) f (here, later) = (f x here, All-implies P Q xs f later)

-- `eval_if` holds exactly when the header's demands are met: the lists that apply to the request
-- path are joined by "and", and so are the conditions in a list; a header none of whose lists
-- applies demands nothing.
pub eval_if_iff :
    (now : ℕ) (lists : List IfList) (infos : List LockInfo) (request_path : Bytes)
    → (eval_if now lists infos request_path ≡ true) ↔ Demands now lists infos request_path
unfolding eval_if
eval_if_iff now [] infos request_path = is_empty_iff (active_slice now infos)
eval_if_iff now (l ∷ ls) infos request_path =
    let active = active_slice now infos in
    let joined = all-retain (holds_for active) (applies_to request_path) (l ∷ ls) in
    let whole = all_of_empty (holds_for active) (retain (applies_to request_path) (l ∷ ls)) in
    (
      λ h.
          All-implies _ _ (l ∷ ls) (λ k good applies. (holds_for_iff now infos k).0 (good applies))
            (joined.0 (sym whole ∙ h)),
      λ h.
          whole
          ∙ joined.1 (
              All-implies _ _ (l ∷ ls)
                (λ k good applies. (holds_for_iff now infos k).1 (good applies)) h),
    )

-- `(Not <t>)`
abbrev pub negation_of : Bytes → IfList
negation_of t = record { resource_tag = none; conditions = negated (state_token t) ∷ [] }

-- A header that only negates a token which no active lock has counts as one with a lock token, and
-- passes whatever locks are active: the request needs no token of theirs.
pub negation_passes :
    (now : ℕ) (t : Bytes) (infos : List LockInfo) (request_path : Bytes)
    → (t == no_lock) ≡ false
    → any (λ l. l.token == t) (active_slice now infos) ≡ false
    → (any has_lock_token (negation_of t ∷ []) ≡ true)
      × (eval_if now (negation_of t ∷ []) infos request_path ≡ true)
unfolding eval_if has_lock_token retain all any
negation_passes now t infos request_path other absent = (ground arith, rw other (rw absent refl))
