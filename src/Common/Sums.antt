-- ===== src/Common/Sums.antt =====
-- Sums of statements, put together and reordered.
use mathlib.Core.Logic.{◌↔◌, ◌⊎◌, inl, inr}

module _ {A B C : Type 0} where
  pub iff_trans : A ↔ B → B ↔ C → A ↔ C
  iff_trans (f, g) (f', g') = (λ a. f' (f a), λ c. g (g' c))

module _ {A B : Type 0} where
  pub iff_sym : A ↔ B → B ↔ A
  iff_sym (f, g) = (g, f)

  -- a statement that cannot hold may stand in front
  pub sum_absent : (A → ⊥) → B ↔ (A ⊎ B)
  sum_absent f = (inr, λ s. elim s [ inl a ↦ absurd (f a) | inr b ↦ b ])

module _ {A B C D : Type 0} where
  pub sum_cong : A ↔ B → C ↔ D → (A ⊎ C) ↔ (B ⊎ D)
  sum_cong (f, g) (f', g') = (
    λ s. elim s [ inl a ↦ inl (f a) | inr c ↦ inr (f' c) ],
    λ s. elim s [ inl b ↦ inl (g b) | inr d ↦ inr (g' d) ],
  )

  pub sum_swap : ((A ⊎ B) ⊎ (C ⊎ D)) ↔ ((A ⊎ C) ⊎ (B ⊎ D))
  sum_swap = (
    λ s. elim s [
      | inl x ↦ elim x [ inl a ↦ inl (inl a) | inr b ↦ inr (inl b) ]
      | inr x ↦ elim x [ inl c ↦ inl (inr c) | inr d ↦ inr (inr d) ]
    ],
    λ s. elim s [
      | inl x ↦ elim x [ inl a ↦ inl (inl a) | inr c ↦ inr (inl c) ]
      | inr x ↦ elim x [ inl b ↦ inl (inr b) | inr d ↦ inr (inr d) ]
    ],
  )

module _ {A B C : Type 0} where
  pub sum_assoc : ((A ⊎ B) ⊎ C) ↔ (A ⊎ (B ⊎ C))
  sum_assoc = (
    λ s. elim s [ inl x ↦ elim x [ inl a ↦ inl a | inr b ↦ inr (inl b) ] | inr c ↦ inr (inr c) ],
    λ s. elim s [ inl a ↦ inl (inl a) | inr x ↦ elim x [ inl b ↦ inl (inr b) | inr c ↦ inr c ] ],
  )

module _ {A : Type 0} where
  pub iff_refl : A ↔ A
  iff_refl = (λ a. a, λ a. a)

  pub sum-empty : (A ⊎ ⊥) ↔ A
  sum-empty = (λ s. elim s [ inl a ↦ a | inr h ↦ absurd h ], inl)
