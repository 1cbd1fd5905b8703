-- ===== src/Webdav/Stacks.antt =====
-- The stacks of directories of the walks in src/handlers/webdav.rs and src/webdav/fs.rs, weighed by
-- the directories that are to be read.
use rshs.Common.{List, [], arith, reverse, reverse_aux, suc, ℕ, ◌++◌, ◌+◌, ◌∷◌, ◌≡◌, ◌≤◌}
use rshs.FilePath.{FilePath}

module _ {A : Type 0} (weight : FilePath → ℕ) where
  unfoldable pub stack_weight : List (FilePath × A) → ℕ
  stack_weight [] = 0
  stack_weight ((dir, a) ∷ stack) = suc (weight dir) + stack_weight stack

  pub stack_weight-append :
      (xs ys : List (FilePath × A)) → stack_weight (xs ++ ys) ≡ stack_weight xs + stack_weight ys
  unfolding stack_weight
  stack_weight-append [] ys = omega arith
  stack_weight-append ((dir, a) ∷ xs) ys = omega (arith, stack_weight-append xs ys)

  stack_weight-reverse_aux :
      (xs ys : List (FilePath × A))
      → stack_weight (reverse_aux xs ys) ≡ stack_weight xs + stack_weight ys
  unfolding stack_weight
  stack_weight-reverse_aux [] ys = omega arith
  stack_weight-reverse_aux ((dir, a) ∷ xs) ys =
      omega (arith, stack_weight-reverse_aux xs ((dir, a) ∷ ys))

  -- What is found goes on the stack in reverse.
  pub stack_weight-push :
      (xs ys : List (FilePath × A))
      → stack_weight (reverse xs ++ ys) ≡ stack_weight xs + stack_weight ys
  unfolding stack_weight
  stack_weight-push xs ys =
      omega (arith, stack_weight-append (reverse xs) ys, stack_weight-reverse_aux xs [])

-- A stack that weighs nothing is empty.
pub no_weight : (m n : ℕ) → suc m + n ≤ 0 → ⊥
no_weight m n k = omega arith
