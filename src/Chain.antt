-- ===== src/Chain.antt =====
-- The `?` operator on `Option`: a `do` block stops at the first `none`.
use rshs.Common.{Option, none, some}

infixl 5 ◌>>=◌
abbrev pub ◌>>=◌ {ℓ κ} : {A : Type ℓ} {B : Type κ} → Option A → (A → Option B) → Option B
none >>= f = none
some a >>= f = f a
