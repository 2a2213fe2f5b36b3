-- ===== src/Prelude/Map.antt =====
-- The `IndexMap` of the indexmap crate, as the program uses it: entries in order of insertion,
-- `insert` writes in place or at the end, `swap_remove` puts the last entry in the hole.
pub mod Laws
use unit3d_announce.Prelude.{
  ℕ, ◌+◌, ◌≡◌, refl, Bool, true, false, Option, none, some, List, [], ◌∷◌, arith, if◌then◌else◌,
}
use unit3d_announce.Prelude.Eq.{Eq}

abbrev pub Map {ℓ κ} : Type ℓ → Type κ → Type (ℓ ⊔ κ)
Map K V = List (K × V)

module _ {ℓ} {A : Type ℓ} where
  bring : A → List A → List A
  bring x [] = x ∷ []
  bring x (l ∷ ys) = l ∷ x ∷ ys

  -- The last entry first, the others in order after it.
  unfoldable pub last_first : List A → List A
  unfolding bring
  last_first [] = []
  last_first (x ∷ xs) = bring x (last_first xs)

  -- The sum of a measure over a list.
  unfoldable pub total : (A → ℕ) → List A → ℕ
  total f [] = 0
  total f (x ∷ xs) = f x + total f xs

  total-bring : (f : A → ℕ) (x : A) (xs : List A) → total f (bring x xs) ≡ f x + total f xs
  unfolding total bring
  total-bring f x [] = refl
  total-bring f x (y ∷ ys) = omega arith

  pub total-last_first : (f : A → ℕ) (xs : List A) → total f (last_first xs) ≡ total f xs
  unfolding total last_first
  total-last_first f [] = refl
  total-last_first f (x ∷ xs) =
      omega (arith, total-bring f x (last_first xs), total-last_first f xs)

module _ {ℓ κ} {K : Type ℓ} {V : Type κ} ⦃e : Eq K⦄ where
  unfoldable pub lookup : K → Map K V → Option V
  lookup k [] = none
  lookup k ((j, v) ∷ m) = if e.beq j k then some v else lookup k m

  unfoldable pub contains_key : K → Map K V → Bool
  contains_key k [] = false
  contains_key k ((j, v) ∷ m) = if e.beq j k then true else contains_key k m

  unfoldable pub insert : K → V → Map K V → Map K V
  insert k v [] = (k, v) ∷ []
  insert k v ((j, w) ∷ m) = if e.beq j k then (j, v) ∷ m else (j, w) ∷ insert k v m

  -- `entry(k).and_modify(f)`
  unfoldable pub modify : K → (V → V) → Map K V → Map K V
  modify k f [] = []
  modify k f ((j, w) ∷ m) = if e.beq j k then (j, f w) ∷ m else (j, w) ∷ modify k f m

  unfoldable pub swap_remove : K → Map K V → Map K V
  swap_remove k [] = []
  swap_remove k ((j, w) ∷ m) = if e.beq j k then last_first m else (j, w) ∷ swap_remove k m

  -- No key twice.
  abbrev pub Distinct : Map K V → Type κ
  Distinct [] = Unit
  Distinct ((k, v) ∷ m) = (lookup k m ≡ none) × Distinct m

  -- `retain` by the value.
  unfoldable pub retain : (V → Bool) → Map K V → Map K V
  retain keep [] = []
  retain keep ((j, w) ∷ m) = if keep w then (j, w) ∷ retain keep m else retain keep m
