-- ===== src/Queue.antt =====
-- src/queue.rs: updates of the database that wait in a ring map, and are taken in batches.
pub mod Chop
pub mod Updates
pub mod Flow
pub mod Lookup
use unit3d_announce.Prelude.{
  ℕ, zero, suc, ◌-◌, ◌*◌, ◌/◌, min, Bool, true, false, not, Option, none, some, List, [], ◌∷◌, ◌++◌,
  length, take, drop, leb, if◌then◌else◌,
}
use unit3d_announce.Prelude.Eq.{Eq}
use unit3d_announce.Prelude.Ord.{Ord}
use unit3d_announce.Prelude.Word.{wrapping_mul}
use unit3d_announce.Prelude.Map.{Map}
use unit3d_announce.Config.{Config}

-- The trait `Mergeable`: the old record and the new one.
pub record Mergeable (V : Type 0) : Type 0 where
  pub merge : V → V → V

pub record QueueConfig : Type 0 where
  pub max_bindings_per_flush : ℕ
  pub bindings_per_record : ℕ
  pub extra_bindings_per_flush : ℕ

pub record Queue (K V : Type 0) : Type 0 where
  pub records : Map K V
  pub config : QueueConfig

-- `QueueConfig::max_batch_size`
unfoldable pub max_batch_size : {F : Type 0} → QueueConfig → Config F → ℕ
max_batch_size queue config =
    let max_bindings =
      (queue.max_bindings_per_flush - queue.extra_bindings_per_flush) / queue.bindings_per_record in
    elim config.max_records_per_batch [
      | some max_records ↦ min max_bindings max_records
      | none ↦ max_bindings
    ]

unfoldable pub new_queue : {K V : Type 0} → QueueConfig → Queue K V
new_queue config = record { records = []; config = config }

-- The loop of `take_batches` that splits the records from the end. The fuel is their number.
unfoldable pub chop {ℓ} : {A : Type ℓ} → ℕ → ℕ → List A → List (List A) → List (List A)
chop zero size records batches = batches
chop (suc fuel) size [] batches = batches
chop (suc fuel) size (r ∷ rs) batches =
    let at = length (r ∷ rs) - min (length (r ∷ rs)) size in
    chop fuel size (take at (r ∷ rs)) (drop at (r ∷ rs) ∷ batches)

module _ {K V : Type 0} where
  module _ ⦃o : Ord K⦄ where
    unfoldable pub insert_sorted : K × V → Map K V → Map K V
    insert_sorted r [] = r ∷ []
    insert_sorted r (s ∷ rs) =
        let rest = insert_sorted r rs in if o.leb r.0 s.0 then r ∷ s ∷ rs else s ∷ rest

    -- `sort_unstable_by` the keys.
    unfoldable pub sort_records : Map K V → Map K V
    unfolding insert_sorted
    sort_records [] = []
    sort_records (r ∷ rs) = insert_sorted r (sort_records rs)

    -- `take_batches`: the batches, and the queue that is left.
    unfoldable pub take_batches : {F : Type 0} → Config F → Queue K V → List (Map K V) × Queue K V
    unfolding wrapping_mul
    take_batches config queue =
        let size = max_batch_size queue.config config in
        let taken = min (length queue.records) (wrapping_mul config.max_batches_per_flush size) in
        let records = sort_records (take taken queue.records) in
        (chop (length records) size records [], record queue { records = drop taken queue.records })

  module _ ⦃e : Eq K⦄ ⦃m : Mergeable V⦄ where
    -- `entry(key).and_modify(merge).or_push_back(value)`
    unfoldable pub upsert_records : K → V → Map K V → Map K V
    upsert_records key value [] = (key, value) ∷ []
    upsert_records key value ((j, update) ∷ rs) =
        if e.beq j key
        then (j, m.merge update value) ∷ rs
        else (j, update) ∷ upsert_records key value rs

    unfoldable pub upsert : K → V → Queue K V → Queue K V
    unfolding upsert_records
    upsert key value queue = record queue { records = upsert_records key value queue.records }

    unfoldable pub upsert_batch : Map K V → Queue K V → Queue K V
    upsert_batch [] queue = queue
    upsert_batch ((k, v) ∷ batch) queue = upsert_batch batch (upsert k v queue)

  unfoldable pub is_not_empty : Queue K V → Bool
  is_not_empty queue = elim queue.records [ [] ↦ false | r ∷ rs ↦ true ]
