-- ===== src/Prelude/Map/Laws.antt =====
-- What the operations on maps do to lookups, to the distinctness of keys and to sums.
use unit3d_announce.Prelude.{
  Bool, true, false, List, length, suc, ◌≤◌, ℕ, ◌+◌, ◌≡◌, refl, none, some, [], ◌∷◌, arith,
  if◌then◌else◌,
}
use unit3d_announce.Prelude.Eq.{Eq}
use unit3d_announce.Prelude.Map.{
  Map, bring, last_first, total, total-last_first, lookup, insert, modify, swap_remove, retain,
  Distinct,
}

module _ {ℓ κ} {K : Type ℓ} {V : Type κ} ⦃e : Eq K⦄ where
  pub lookup-insert :
      (k j : K) (v : V) (m : Map K V)
      → lookup j (insert k v m) ≡ (if e.beq k j then some v else lookup j m)
  unfolding lookup insert
  lookup-insert k j v [] = refl
  lookup-insert k j v ((i, w) ∷ m) =
      ground (arith, e.beq_iff k j, e.beq_iff i k, e.beq_iff i j, lookup-insert k j v m)

  pub insert-Distinct : (k : K) (v : V) (m : Map K V) → Distinct m → Distinct (insert k v m)
  unfolding lookup insert
  insert-Distinct k v [] d = (refl, tt)
  insert-Distinct k v ((i, w) ∷ m) d =
      ground (arith, e.beq_iff k i, e.beq_iff i k, lookup-insert k i v m, insert-Distinct k v m)

  -- A modification of a present key writes, one of an absent key does nothing.
  pub modify_present :
      (k : K) (f : V → V) (m : Map K V) (v : V)
      → lookup k m ≡ some v
      → modify k f m ≡ insert k (f v) m
  unfolding lookup modify insert
  modify_present k f [] v h = ground arith
  modify_present k f ((i, w) ∷ m) v h = ground (arith, modify_present k f m v)

  pub modify_absent : (k : K) (f : V → V) (m : Map K V) → lookup k m ≡ none → modify k f m ≡ m
  unfolding lookup modify
  modify_absent k f [] h = refl
  modify_absent k f ((i, w) ∷ m) h = ground (arith, modify_absent k f m)

  -- To insert what is there does nothing.
  pub insert-lookup : (k : K) (v : V) (m : Map K V) → lookup k m ≡ some v → insert k v m ≡ m
  unfolding lookup insert
  insert-lookup k v [] h = ground arith
  insert-lookup k v ((i, w) ∷ m) h = ground (arith, insert-lookup k v m)

  pub lookup-modify_same :
      (k j : K) (f : V → V) (m : Map K V) (v : V)
      → e.beq k j ≡ true
      → lookup j m ≡ some v
      → lookup j (modify k f m) ≡ some (f v)
  unfolding lookup modify
  lookup-modify_same k j f [] v q h = ground arith
  lookup-modify_same k j f ((i, w) ∷ m) v q h =
      ground (arith, e.beq_iff k j, lookup-modify_same k j f m v q)

  pub lookup-modify_other :
      (k j : K) (f : V → V) (m : Map K V) → e.beq k j ≡ false → lookup j (modify k f m) ≡ lookup j m
  unfolding lookup modify
  lookup-modify_other k j f [] q = refl
  lookup-modify_other k j f ((i, w) ∷ m) q =
      ground (arith, e.beq_iff i j, e.beq_iff i k, e.beq_iff k j, lookup-modify_other k j f m q)

  pub lookup-modify_absent :
      (k j : K) (f : V → V) (m : Map K V) → lookup j m ≡ none → lookup j (modify k f m) ≡ none
  unfolding lookup modify
  lookup-modify_absent k j f [] h = h
  lookup-modify_absent k j f ((i, w) ∷ m) h = ground (arith, lookup-modify_absent k j f m)

  bring-Distinct :
      (j k : K) (v : V) (m : Map K V)
      → Distinct ((k, v) ∷ m)
      → Distinct (bring (k, v) m) × (lookup j (bring (k, v) m) ≡ lookup j ((k, v) ∷ m))
  unfolding lookup bring
  bring-Distinct j k v [] d = (d, refl)
  bring-Distinct j k v ((i, w) ∷ m) d =
      ground (arith, e.beq_iff k j, e.beq_iff i k, e.beq_iff k i, e.beq_iff i j)

  pub last_first-Distinct :
      (j : K) (m : Map K V)
      → Distinct m
      → Distinct (last_first m) × (lookup j (last_first m) ≡ lookup j m)
  unfolding lookup last_first
  last_first-Distinct j [] d = (d, refl)
  last_first-Distinct j ((i, w) ∷ m) d =
      ground (
        arith,
        last_first-Distinct i m,
        last_first-Distinct j m,
        bring-Distinct j i w (last_first m),
      )

  pub lookup-swap_remove :
      (k j : K) (m : Map K V)
      → Distinct m
      → lookup j (swap_remove k m) ≡ (if e.beq k j then none else lookup j m)
  unfolding lookup swap_remove
  lookup-swap_remove k j [] d = ground arith
  lookup-swap_remove k j ((i, w) ∷ m) d = ground (
    arith,
    e.beq_iff k j,
    e.beq_iff i k,
    e.beq_iff i j,
    lookup-swap_remove k j m,
    last_first-Distinct j m,
  )

  pub swap_remove-Distinct : (k : K) (m : Map K V) → Distinct m → Distinct (swap_remove k m)
  unfolding swap_remove
  swap_remove-Distinct k [] d = d
  swap_remove-Distinct k ((i, w) ∷ m) d =
      ground (arith, lookup-swap_remove k i m, last_first-Distinct k m, swap_remove-Distinct k m)

  lookup-retain-none :
      (keep : V → Bool) (j : K) (m : Map K V) → lookup j m ≡ none → lookup j (retain keep m) ≡ none
  unfolding lookup retain
  lookup-retain-none keep j [] h = refl
  lookup-retain-none keep j ((i, u) ∷ m) h = ground (arith, lookup-retain-none keep j m)

  pub lookup-retain :
      (keep : V → Bool) (j : K) (m : Map K V)
      → Distinct m
      → lookup j (retain keep m)
        ≡ elim (lookup j m) [ none ↦ none | some v ↦ if keep v then some v else none ]
  unfolding lookup retain
  lookup-retain keep j [] d = refl
  lookup-retain keep j ((i, u) ∷ m) d = ground (
    arith,
    e.beq_iff i j,
    lookup-retain keep j m,
    lookup-retain-none keep i m,
    lookup-retain-none keep j m,
  )

  module _ (f : K × V → ℕ) where
    pub total-insert_new :
        (k : K) (v : V) (m : Map K V)
        → lookup k m ≡ none
        → total f (insert k v m) ≡ total f m + f (k, v)
    unfolding lookup insert total
    total-insert_new k v [] h = omega arith
    total-insert_new k v ((i, w) ∷ m) h = ground (arith, total-insert_new k v m)

    pub total-insert_old :
        (k : K) (v w : V) (m : Map K V)
        → lookup k m ≡ some w
        → total f (insert k v m) + f (k, w) ≡ total f m + f (k, v)
    unfolding lookup insert total
    total-insert_old k v w [] h = ground arith
    total-insert_old k v w ((i, u) ∷ m) h = ground (arith, e.beq_iff i k, total-insert_old k v w m)

    pub total-swap_remove :
        (k : K) (w : V) (m : Map K V)
        → lookup k m ≡ some w
        → total f (swap_remove k m) + f (k, w) ≡ total f m
    unfolding lookup swap_remove total
    total-swap_remove k w [] h = ground arith
    total-swap_remove k w ((i, u) ∷ m) h =
        ground (arith, e.beq_iff i k, total-swap_remove k w m, total-last_first f m)

    pub total-retain :
        (keep : V → Bool) (m : Map K V)
        → ((k : K) (v : V) → keep v ≡ false → f (k, v) ≡ 0)
        → total f (retain keep m) ≡ total f m
    unfolding retain total
    total-retain keep [] h = refl
    total-retain keep ((i, u) ∷ m) h = ground (arith, h i u, total-retain keep m h)

  pub length-insert : (k : K) (v : V) (m : Map K V) → length (insert k v m) ≤ suc (length m)
  unfolding insert
  length-insert k v [] = omega arith
  length-insert k v ((i, w) ∷ m) = ground (arith, length-insert k v m)

  -- An entry that was inserted at the end is removed without a trace.
  pub swap_remove-insert_new :
      (k : K) (v : V) (m : Map K V) → lookup k m ≡ none → swap_remove k (insert k v m) ≡ m
  unfolding lookup insert swap_remove last_first
  swap_remove-insert_new k v [] h = ground (arith, e.beq_iff k k)
  swap_remove-insert_new k v ((i, w) ∷ m) h = ground (arith, swap_remove-insert_new k v m)

pub total-le-length {ℓ} :
    {A : Type ℓ} (f : A → ℕ) (xs : List A) → ((x : A) → f x ≤ 1) → total f xs ≤ length xs
unfolding total
total-le-length f [] h = omega arith
total-le-length f (x ∷ xs) h = omega (arith, h x, total-le-length f xs h)
