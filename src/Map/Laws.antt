-- ===== src/Map/Laws.antt =====
-- What a lookup finds after each operation of a `HashMap`, and that keys stay distinct.
use rshs.Common.{
  Bool, Bool-cases, Option, PartialEq, [], arith, if◌then◌else◌, inl, inr, is_some, none, refl,
  some, ◌==◌, ◌||◌, ◌∙◌, ◌∷◌, ◌≡◌,
}
use rshs.Map.{HashMap, extend, get, insert, nat_key, remove, retain_mut}

-- What `retain_mut` leaves of a value.
abbrev pub kept {κ} : {V : Type κ} → (V → V) → (V → Bool) → Option V → Option V
kept f keep none = none
kept f keep (some v) = if keep (f v) then some (f v) else none

pub kept-some {κ} :
    {V : Type κ} (f : V → V) (keep : V → Bool) (o : Option V) (v : V)
    → kept f keep o ≡ some v
    → (old : V) × (o ≡ some old) × (f old ≡ v)
kept-some f keep none v e = cc
kept-some f keep (some old) v e = (old, refl, ground arith)

module _ {ℓ κ} {K : Type ℓ} {V : Type κ} ⦃e : PartialEq K⦄ where
  pub get-insert :
      (m : HashMap K V) (k j : K) (v : V)
      → get (insert m k v) j ≡ (if k == j then some v else get m j)
  unfolding get insert
  get-insert [] k j v = refl
  get-insert ((i, w) ∷ m) k j v =
      ground (arith, get-insert m k j v, e.eq_iff i k, e.eq_iff i j, e.eq_iff k j)

  pub get-remove :
      (m : HashMap K V) (k j : K) → get (remove m k) j ≡ (if k == j then none else get m j)
  unfolding get remove
  get-remove [] k j = ground arith
  get-remove ((i, w) ∷ m) k j =
      ground (arith, get-remove m k j, e.eq_iff i k, e.eq_iff i j, e.eq_iff k j)

  -- No key stands twice, as in every table.
  abbrev pub HasDistinctKeys : HashMap K V → Type κ
  HasDistinctKeys [] = Unit
  HasDistinctKeys ((j, v) ∷ m) = (get m j ≡ none) × HasDistinctKeys m

  pub insert-HasDistinctKeys :
      (m : HashMap K V) (k : K) (v : V) → HasDistinctKeys m → HasDistinctKeys (insert m k v)
  unfolding get insert
  insert-HasDistinctKeys [] k v h = (refl, tt)
  insert-HasDistinctKeys ((i, w) ∷ m) k v (fresh, h) = elim (Bool-cases (i == k)) [
    | inl same ↦ rw same (fresh, h)
    | inr other ↦ rw other (
      ground (arith, get-insert m k i v, e.eq_iff i k, e.eq_iff k i),
      insert-HasDistinctKeys m k v h,
    )
  ]

  pub get-retain_mut :
      (f : V → V) (keep : V → Bool) (m : HashMap K V) (j : K)
      → HasDistinctKeys m
      → get (retain_mut f keep m) j ≡ kept f keep (get m j)
  unfolding get retain_mut
  get-retain_mut f keep [] j h = refl
  get-retain_mut f keep ((i, w) ∷ m) j (fresh, h) =
      ground (arith, get-retain_mut f keep m j h, e.eq_iff i j)

  pub retain_mut-HasDistinctKeys :
      (f : V → V) (keep : V → Bool) (m : HashMap K V)
      → HasDistinctKeys m
      → HasDistinctKeys (retain_mut f keep m)
  unfolding retain_mut
  retain_mut-HasDistinctKeys f keep [] h = tt
  retain_mut-HasDistinctKeys f keep ((i, w) ∷ m) (fresh, h) = elim (Bool-cases (keep (f w))) [
    | inl stays ↦
        rw stays
          (ground (arith, get-retain_mut f keep m i h), retain_mut-HasDistinctKeys f keep m h)
    | inr goes ↦ rw goes (retain_mut-HasDistinctKeys f keep m h)
  ]

abbrev pub or_else {κ} : {V : Type κ} → Option V → Option V → Option V
or_else none old = old
or_else (some new) old = some new

module _ {ℓ κ} {K : Type ℓ} {V : Type κ} ⦃e : PartialEq K⦄ where
  pub get-extend :
      (m more : HashMap K V) (k : K)
      → HasDistinctKeys more
      → get (extend m more) k ≡ or_else (get more k) (get m k)
  unfolding extend get
  get-extend m [] k h = refl
  get-extend m ((j, v) ∷ more) k (fresh, h) =
      get-extend (insert m j v) more k h ∙ elim (Bool-cases (j == k)) [
        | inl same ↦
            let gone : get more k ≡ none = rw (← (e.eq_iff j k).0 same) fresh in
            rw gone (rw (get-insert m j k v) (rw same refl))
        | inr other ↦ rw (get-insert m j k v) (rw other refl)
      ]

  -- A key is in the extended map if it was there or came with the extension.
  pub has-extend :
      (m more : HashMap K V) (k : K)
      → is_some (get (extend m more) k) ≡ (is_some (get m k) || is_some (get more k))
  unfolding extend get
  has-extend m [] k = ground (arith)
  has-extend m ((j, v) ∷ more) k =
      has-extend (insert m j v) more k ∙ rw (get-insert m j k v) (ground (arith))
