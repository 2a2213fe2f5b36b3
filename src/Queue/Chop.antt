-- ===== src/Queue/Chop.antt =====
-- How `take_batches` of src/queue.rs divides the records that it takes.
use mathlib.Core.List.{append_assoc, append-nil, Perm}
use mathlib.Core.List.Perm
use unit3d_announce.Prelude.{
  ℕ, zero, suc, ◌+◌, ◌-◌, ◌*◌, ◌≤◌, ◌<◌, ◌≡◌, refl, sym, ap, ◌∙◌, min, true, List, [], ◌∷◌, ◌++◌,
  length, length-take, length-drop, take, drop, take-append-drop, arith, inl, inr, Bool-cases,
}
use unit3d_announce.Prelude.Ord.{Ord}
use unit3d_announce.Prelude.Map.{Map}
use unit3d_announce.Config.{Config}
use unit3d_announce.Queue.{Queue, max_batch_size, chop, insert_sorted, sort_records, take_batches}

abbrev pub concat {ℓ} : {A : Type ℓ} → List (List A) → List A
concat [] = []
concat (b ∷ bs) = b ++ concat bs

abbrev pub AllWithin {ℓ} : {A : Type ℓ} → ℕ → List (List A) → Type 0
AllWithin size [] = Unit
AllWithin size (b ∷ bs) = (0 < length b) × (length b ≤ size) × AllWithin size bs

module _ {ℓ} {A : Type ℓ} (size : ℕ) (pos : 0 < size) where
  concat-chop :
      (fuel : ℕ) (rs : List A) (bs : List (List A))
      → length rs ≤ fuel
      → concat (chop fuel size rs bs) ≡ rs ++ concat bs
  unfolding chop
  concat-chop zero [] bs h = refl
  concat-chop zero (r ∷ rs) bs h = absurd (omega arith)
  concat-chop (suc fuel) [] bs h = refl
  concat-chop (suc fuel) (r ∷ rs) bs h =
      let at = length (r ∷ rs) - min (length (r ∷ rs)) size in
      let short : length (take at (r ∷ rs)) ≤ fuel = omega (arith, length-take at (r ∷ rs)) in
      concat-chop fuel (take at (r ∷ rs)) (drop at (r ∷ rs) ∷ bs) short
      ∙ (sym (append_assoc (take at (r ∷ rs)) (drop at (r ∷ rs)) (concat bs))
          ∙ ap (λ xs. xs ++ concat bs) (take-append-drop at (r ∷ rs)))

  chop-AllWithin :
      (fuel : ℕ) (rs : List A) (bs : List (List A))
      → AllWithin size bs
      → AllWithin size (chop fuel size rs bs)
  unfolding chop
  chop-AllWithin zero rs bs h = h
  chop-AllWithin (suc fuel) [] bs h = h
  chop-AllWithin (suc fuel) (r ∷ rs) bs h =
      let at = length (r ∷ rs) - min (length (r ∷ rs)) size in
      let e = length-drop at (r ∷ rs) in
      chop-AllWithin fuel (take at (r ∷ rs)) (drop at (r ∷ rs) ∷ bs)
        (omega (arith, e), omega (arith, e), h)

  length-chop :
      (fuel : ℕ) (rs : List A) (bs : List (List A)) (n : ℕ)
      → length rs ≤ n * size
      → length (chop fuel size rs bs) ≤ n + length bs
  unfolding chop
  length-chop zero rs bs n h = omega arith
  length-chop (suc fuel) [] bs n h = omega arith
  length-chop (suc fuel) (r ∷ rs) bs zero h = absurd (omega arith)
  length-chop (suc fuel) (r ∷ rs) bs (suc n) h =
      let at = length (r ∷ rs) - min (length (r ∷ rs)) size in
      let fits : length (take at (r ∷ rs)) ≤ n * size = omega (arith, length-take at (r ∷ rs)) in
      omega (arith, length-chop fuel (take at (r ∷ rs)) (drop at (r ∷ rs) ∷ bs) n fits)

module _ {K V : Type 0} ⦃o : Ord K⦄ where
  -- Neighbours are in order.
  abbrev pub IsSorted : Map K V → Type 0
  IsSorted [] = Unit
  IsSorted (r ∷ []) = Unit
  IsSorted (r ∷ s ∷ rs) = (o.leb r.0 s.0 ≡ true) × IsSorted (s ∷ rs)

  insert_sorted-perm : (r : K × V) (rs : Map K V) → Perm (insert_sorted r rs) (r ∷ rs)
  unfolding insert_sorted
  insert_sorted-perm r [] = Perm.refl (r ∷ [])
  insert_sorted-perm r (s ∷ rs) = elim (Bool-cases (o.leb r.0 s.0)) [
    | inl le ↦ rw le (Perm.refl (r ∷ s ∷ rs))
    | inr gt ↦ rw gt (Perm.trans (Perm.cons s (insert_sorted-perm r rs)) (Perm.swap r s rs))
  ]

  sort_records-perm : (rs : Map K V) → Perm (sort_records rs) rs
  unfolding sort_records
  sort_records-perm [] = Perm.refl []
  sort_records-perm (r ∷ rs) =
      Perm.trans (insert_sorted-perm r (sort_records rs)) (Perm.cons r (sort_records-perm rs))

  insert_sorted-IsSorted : (r : K × V) (rs : Map K V) → IsSorted rs → IsSorted (insert_sorted r rs)
  unfolding insert_sorted
  insert_sorted-IsSorted r [] h = tt
  insert_sorted-IsSorted r (s ∷ []) h = ground (arith, o.leb_total r.0 s.0)
  insert_sorted-IsSorted r (s ∷ t ∷ rs) h =
      ground (arith, o.leb_total r.0 s.0, insert_sorted-IsSorted r (t ∷ rs))

  sort_records-IsSorted : (rs : Map K V) → IsSorted (sort_records rs)
  unfolding sort_records
  sort_records-IsSorted [] = tt
  sort_records-IsSorted (r ∷ rs) =
      insert_sorted-IsSorted r (sort_records rs) (sort_records-IsSorted rs)

  length-insert_sorted : (r : K × V) (rs : Map K V) → length (insert_sorted r rs) ≡ suc (length rs)
  unfolding insert_sorted
  length-insert_sorted r [] = refl
  length-insert_sorted r (s ∷ rs) = ground (arith, length-insert_sorted r rs)

  length-sort_records : (rs : Map K V) → length (sort_records rs) ≡ length rs
  unfolding sort_records
  length-sort_records [] = refl
  length-sort_records (r ∷ rs) =
      length-insert_sorted r (sort_records rs) ∙ ap suc (length-sort_records rs)

  -- What `take_batches` promises of the batches and of the queue that it leaves.
  pub record Divides (size most : ℕ) (before : Map K V) (bs : List (Map K V)) (after : Map K V)
      : Type 0 where
    pub nothing_lost : Perm (concat bs ++ after) before
    pub sorted : IsSorted (concat bs)
    pub short : AllWithin size bs
    pub few : length bs ≤ most

  chop-Divides :
      (size most n : ℕ) (records : Map K V)
      → n ≤ most * size
      → Divides size most records
          (chop (length (sort_records (take n records))) size (sort_records (take n records)) [])
          (drop n records)
  unfolding sort_records chop
  chop-Divides zero most zero records h = record {
    nothing_lost = Perm.refl records;
    sorted = tt;
    short = tt;
    few = omega arith;
  }
  chop-Divides zero most (suc n) records h = absurd (omega arith)
  chop-Divides (suc size) most n records h =
      let rs = sort_records (take n records) in
      let e =
        concat-chop (suc size) (omega arith) (length rs) rs [] (omega arith) ∙ append-nil rs in
      let kept = Perm.append_right (drop n records) (sort_records-perm (take n records)) in
      let fits : length rs ≤ most * suc size =
        omega (arith, length-sort_records (take n records), length-take n records) in
      record {
        nothing_lost = rw e (rw (take-append-drop n records) at kept);
        sorted = rw e (sort_records-IsSorted (take n records));
        short = chop-AllWithin (suc size) (omega arith) (length rs) rs [] tt;
        few = omega (arith, length-chop (suc size) (omega arith) (length rs) rs [] most fits);
      }

  -- Whatever the configuration, `take_batches` loses and invents no record: the batches together
  -- are in the order of their keys, each has from one to `max_batch_size` records, and there are at
  -- most `max_batches_per_flush`.
  pub take_batches-Divides :
      {F : Type 0} (config : Config F) (queue : Queue K V)
      → Divides
          (max_batch_size queue.config config)
          config.max_batches_per_flush
          queue.records
          (take_batches config queue).0
          (take_batches config queue).1.records
  unfolding take_batches
  take_batches-Divides config queue = chop-Divides _ _ _ queue.records (omega arith)
