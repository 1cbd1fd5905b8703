-- ===== src/Common/Lists.antt =====
-- Lists measured and searched with native numbers and Boolean tests.
use Prim.Native.Nat.{ℕ, zero, suc, ◌+◌, ◌≤◌}
use mathlib.Core.Path.{◌≡◌, refl}
use mathlib.Core.Logic.{◌↔◌, ◌⊎◌, inl, inr}
use mathlib.Core.Bool.{Bool, true, false, ◌&&◌, ◌||◌, not}
use mathlib.Core.Option.{Option, none, some}
use mathlib.Core.List.{List, [], ◌∷◌, ◌++◌, reverse, reverse_aux}
use native.Mathlib.Omega.{arith}
use rshs.Common.Tests.{if◌then◌else◌}
use rshs.Common.Sums.{iff_trans, sum_cong, sum-empty, iff_refl}

module _ {ℓ} {A : Type ℓ} where
  abbrev pub length : List A → ℕ
  length [] = 0
  length (x ∷ xs) = suc (length xs)

  abbrev pub is_empty : List A → Bool
  is_empty [] = true
  is_empty (x ∷ xs) = false

  abbrev pub get_elem? : List A → ℕ → Option A
  get_elem? [] i = none
  get_elem? (x ∷ xs) zero = some x
  get_elem? (x ∷ xs) (suc i) = get_elem? xs i

  -- `Vec::retain`, `HashMap::retain`, `Iterator::filter`
  unfoldable pub retain : (A → Bool) → List A → List A
  retain p [] = []
  retain p (x ∷ xs) = let rest = retain p xs in if p x then x ∷ rest else rest

  unfoldable pub find : (A → Bool) → List A → Option A
  find p [] = none
  find p (x ∷ xs) = let rest = find p xs in if p x then some x else rest

  unfoldable pub any : (A → Bool) → List A → Bool
  any p [] = false
  any p (x ∷ xs) = p x || any p xs

  unfoldable pub all : (A → Bool) → List A → Bool
  all p [] = true
  all p (x ∷ xs) = p x && all p xs

module _ {ℓ κ} {A : Type ℓ} where
  abbrev pub All : (A → Type κ) → List A → Type κ
  All P [] = Unit
  All P (x ∷ xs) = P x × All P xs

module _ {ℓ} {A : Type ℓ} where
  abbrev pub AnyOf : (A → Type 0) → List A → Type 0
  AnyOf P [] = ⊥
  AnyOf P (x ∷ xs) = P x ⊎ AnyOf P xs

module _ {A : Type 0} where
  abbrev pub IsIn : A → List A → Type 0
  IsIn a = AnyOf (λ x. x ≡ a)

module _ {ℓ} {A : Type ℓ} (P : A → Type 0) where
  pub AnyOf-append : (xs ys : List A) → AnyOf P (xs ++ ys) ↔ (AnyOf P xs ⊎ AnyOf P ys)
  AnyOf-append [] ys = (inr, λ e. elim e [ inl h ↦ absurd h | inr h ↦ h ])
  AnyOf-append (x ∷ xs) ys =
      let (split, join) = AnyOf-append xs ys in
      (
        λ e. elim e [
          | inl h ↦ inl (inl h)
          | inr h ↦ elim (split h) [ inl h' ↦ inl (inr h') | inr h' ↦ inr h' ]
        ],
        λ e. elim e [
          | inl h ↦ elim h [ inl h' ↦ inl h' | inr h' ↦ inr (join (inl h')) ]
          | inr h ↦ inr (join (inr h))
        ],
      )

  pub AnyOf-reverse_aux : (xs ys : List A) → AnyOf P (reverse_aux xs ys) ↔ (AnyOf P xs ⊎ AnyOf P ys)
  AnyOf-reverse_aux [] ys = (inr, λ e. elim e [ inl h ↦ absurd h | inr h ↦ h ])
  AnyOf-reverse_aux (x ∷ xs) ys =
      let (split, join) = AnyOf-reverse_aux xs (x ∷ ys) in
      (
        λ e. elim (split e) [
          | inl h ↦ inl (inr h)
          | inr h ↦ elim h [ inl h' ↦ inl (inl h') | inr h' ↦ inr h' ]
        ],
        λ e. elim e [
          | inl h ↦ elim h [ inl h' ↦ join (inr (inl h')) | inr h' ↦ join (inl h') ]
          | inr h ↦ join (inr (inr h))
        ],
      )

module _ {A : Type 0} (P : A → Type 0) where
  pub AnyOf-push : (xs ys : List A) → AnyOf P (reverse xs ++ ys) ↔ (AnyOf P xs ⊎ AnyOf P ys)
  AnyOf-push xs ys =
      iff_trans (AnyOf-append P (reverse xs) ys)
        (sum_cong (iff_trans (AnyOf-reverse_aux P xs []) sum-empty) iff_refl)

  pub AnyOf-if :
      (b : Bool) (x : A) (xs : List A)
      → AnyOf P (if b then x ∷ xs else xs) ↔ (((b ≡ true) × P x) ⊎ AnyOf P xs)
  AnyOf-if true x xs = sum_cong (λ h. (refl, h), λ h. h.1) iff_refl
  AnyOf-if false x xs = (inr, λ s. elim s [ inl h ↦ cc | inr k ↦ k ])

  pub AnyOf-IsIn : (xs : List A) (a : A) → IsIn a xs → P a → AnyOf P xs
  AnyOf-IsIn [] a i h = absurd i
  AnyOf-IsIn (x ∷ xs) a (inl same) h = inl (rw same h)
  AnyOf-IsIn (x ∷ xs) a (inr i) h = inr (AnyOf-IsIn xs a i h)

  -- what an element found in a list has, whatever it is
  pub AnyOf-elim : {B : Type 0} (xs : List A) → AnyOf P xs → ((a : A) → IsIn a xs → P a → B) → B
  AnyOf-elim [] h f = absurd h
  AnyOf-elim (x ∷ xs) (inl h) f = f x (inl refl) h
  AnyOf-elim (x ∷ xs) (inr h) f = AnyOf-elim xs h (λ a i. f a (inr i))

module _ {κ} {A : Type 0} (P : A → Type κ) where
  pub All-IsIn : (xs : List A) (a : A) → All P xs → IsIn a xs → P a
  All-IsIn [] a h i = absurd i
  All-IsIn (x ∷ xs) a (h, more) (inl same) = rw (← same) h
  All-IsIn (x ∷ xs) a (h, more) (inr i) = All-IsIn xs a more i

module _ {κ} {A : Type 0} {P : A → Type κ} where
  pub All-of_IsIn : (xs : List A) → ((a : A) → IsIn a xs → P a) → All P xs
  All-of_IsIn [] h = tt
  All-of_IsIn (x ∷ xs) h = (h x (inl refl), All-of_IsIn xs (λ a e. h a (inr e)))

pub All-append {ℓ κ} :
    {A : Type ℓ} (P : A → Type κ) (xs ys : List A) → All P xs → All P ys → All P (xs ++ ys)
All-append P [] ys hx hy = hy
All-append P (x ∷ xs) ys (h, hx) hy = (h, All-append P xs ys hx hy)

module _ {ℓ} {A : Type ℓ} (p : A → Bool) where
  pub any-append : (xs ys : List A) → any p (xs ++ ys) ≡ (any p xs || any p ys)
  unfolding any
  any-append [] ys = refl
  any-append (x ∷ xs) ys = ground (arith, any-append xs ys)

  pub retain-append : (xs ys : List A) → retain p (xs ++ ys) ≡ retain p xs ++ retain p ys
  unfolding retain
  retain-append [] ys = refl
  retain-append (x ∷ xs) ys = ground (arith, retain-append xs ys)

  pub length-retain : (xs : List A) → length (retain p xs) ≤ length xs
  unfolding retain
  length-retain [] = omega arith
  length-retain (x ∷ xs) = ground (arith, length-retain xs)

  pub retain-retain : (xs : List A) → retain p (retain p xs) ≡ retain p xs
  unfolding retain
  retain-retain [] = refl
  retain-retain (x ∷ xs) = ground (arith, retain-retain xs)

module _ {ℓ} {A : Type ℓ} where
  pub length-append : (xs ys : List A) → length (xs ++ ys) ≡ length xs + length ys
  length-append [] ys = omega arith
  length-append (x ∷ xs) ys = omega (arith, length-append xs ys)

  pub append-is_empty : (xs ys : List A) → is_empty (xs ++ ys) ≡ (is_empty xs && is_empty ys)
  append-is_empty [] ys = refl
  append-is_empty (x ∷ xs) ys = refl

module _ {ℓ} {A : Type ℓ} (p q : A → Bool) where
  pub retain_comm : (xs : List A) → retain p (retain q xs) ≡ retain q (retain p xs)
  unfolding retain
  retain_comm [] = refl
  retain_comm (x ∷ xs) = ground (arith, retain_comm xs)

  pub any-retain : (xs : List A) → any p (retain q xs) ≡ true → any p xs ≡ true
  unfolding any retain
  any-retain [] h = h
  any-retain (x ∷ xs) h = ground (arith, any-retain xs)

  pub any-retain-false : (xs : List A) → any p xs ≡ false → any p (retain q xs) ≡ false
  unfolding any retain
  any-retain-false [] h = refl
  any-retain-false (x ∷ xs) h = ground (arith, any-retain-false xs)

module _ {ℓ} {A : Type ℓ} (p : A → Bool) where
  pub any-retain-not : (xs : List A) → any p (retain (λ x. not (p x)) xs) ≡ false
  unfolding any retain
  any-retain-not [] = refl
  any-retain-not (x ∷ xs) = ground (arith, any-retain-not xs)

  pub any_of_find : (xs : List A) (x : A) → find p xs ≡ some x → any p xs ≡ true
  unfolding any find
  any_of_find [] x h = cc
  any_of_find (y ∷ xs) x h = ground (arith, any_of_find xs x)

  pub any_of_find-none : (xs : List A) → find p xs ≡ none → any p xs ≡ false
  unfolding any find
  any_of_find-none [] h = refl
  any_of_find-none (y ∷ xs) h = ground (arith, any_of_find-none xs)

  -- Of at most one element, the one that satisfies the test goes.
  pub retain-not_single :
      (xs : List A) → length xs ≤ 1 → any p xs ≡ true → retain (λ x. not (p x)) xs ≡ []
  unfolding any retain
  retain-not_single [] h e = refl
  retain-not_single (x ∷ []) h e = ground arith
  retain-not_single (x ∷ y ∷ xs) h e = absurd (omega arith)

module _ {ℓ} {A : Type ℓ} where
  pub is_empty_iff : (xs : List A) → (is_empty xs ≡ true) ↔ (xs ≡ [])
  is_empty_iff [] = ground arith
  is_empty_iff (x ∷ xs) = ground arith

abbrev pub map_some {ℓ κ} : {A : Type ℓ} {B : Type κ} → (A → B) → Option A → Option B
map_some f none = none
map_some f (some a) = some (f a)

-- `unwrap_or`
abbrev pub or_value {ℓ} : {A : Type ℓ} → Option A → A → A
or_value none d = d
or_value (some a) d = a
