-- ===== src/Map.antt =====
-- Rust's `HashMap` as an association list: the operations that the program calls, with the key's
-- equality as an instance. The iteration order of the table is the order of the list.
pub mod Laws
use rshs.Common.{
  Bool, List, Option, PartialEq, [], eqb, eqb_iff, if◌then◌else◌, none, some, ℕ, ◌==◌, ◌∷◌,
}

abbrev pub HashMap {ℓ κ} : Type ℓ → Type κ → Type (ℓ ⊔ κ)
HashMap K V = List (K × V)

module _ {ℓ κ} {K : Type ℓ} {V : Type κ} ⦃e : PartialEq K⦄ where
  unfoldable pub get : HashMap K V → K → Option V
  get [] k = none
  get ((j, v) ∷ m) k = let rest = get m k in if j == k then some v else rest

  -- replaces the value of a key that is there, or adds the key
  unfoldable pub insert : HashMap K V → K → V → HashMap K V
  insert [] k v = (k, v) ∷ []
  insert ((j, w) ∷ m) k v = let rest = insert m k v in if j == k then (j, v) ∷ m else (j, w) ∷ rest

  unfoldable pub remove : HashMap K V → K → HashMap K V
  remove [] k = []
  remove ((j, w) ∷ m) k = let rest = remove m k in if j == k then rest else (j, w) ∷ rest

  -- `HashMap::extend`
  unfoldable pub extend : HashMap K V → List (K × V) → HashMap K V
  extend m [] = m
  extend m ((k, v) ∷ more) = extend (insert m k v) more

abbrev pub or_default {ℓ} : {A : Type ℓ} → Option (List A) → List A
or_default none = []
or_default (some v) = v

module _ {ℓ κ} {K : Type ℓ} {V : Type κ} where
  -- `HashMap::retain` with a closure that changes the value and says whether it stays
  unfoldable pub retain_mut : (V → V) → (V → Bool) → HashMap K V → HashMap K V
  retain_mut f keep [] = []
  retain_mut f keep ((j, v) ∷ m) =
      let rest = retain_mut f keep m in if keep (f v) then (j, f v) ∷ rest else rest

instance abbrev pub nat_key : PartialEq ℕ
nat_key = record { eq = eqb; eq_iff = eqb_iff }
