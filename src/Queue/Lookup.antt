-- ===== src/Queue/Lookup.antt =====
-- What a key finds in a queue of src/queue.rs after an update.
use unit3d_announce.Prelude.{◌≡◌, refl, Option, none, some, [], ◌∷◌, arith, if◌then◌else◌}
use unit3d_announce.Prelude.Eq.{Eq}
use unit3d_announce.Prelude.Map.{Map, lookup}
use unit3d_announce.Queue.{Queue, Mergeable, upsert_records, upsert, upsert_batch}

-- A new record is merged into the one that waits, if there is one.
abbrev pub merged : {V : Type 0} ⦃m : Mergeable V⦄ → Option V → V → V
merged ⦃m⦄ none v = v
merged ⦃m⦄ (some u) v = m.merge u v

module _ {K V : Type 0} ⦃e : Eq K⦄ ⦃m : Mergeable V⦄ where
  lookup-upsert_records :
      (k j : K) (v : V) (rs : Map K V)
      → lookup j (upsert_records k v rs)
        ≡ (if e.beq k j then some (merged (lookup k rs) v) else lookup j rs)
  unfolding lookup upsert_records
  lookup-upsert_records k j v [] = refl
  lookup-upsert_records k j v ((i, u) ∷ rs) =
      ground (arith, e.beq_iff k j, e.beq_iff i k, e.beq_iff i j, lookup-upsert_records k j v rs)

  -- An update is merged into the record of its key, or is its record if there is none, and leaves
  -- the records of all other keys.
  pub lookup-upsert :
      (k j : K) (v : V) (q : Queue K V)
      → lookup j (upsert k v q).records
        ≡ (if e.beq k j then some (merged (lookup k q.records) v) else lookup j q.records)
  unfolding upsert
  lookup-upsert k j v q = lookup-upsert_records k j v q.records

  pub lookup-upsert_self :
      (k : K) (v : V) (q : Queue K V)
      → lookup k (upsert k v q).records ≡ some (merged (lookup k q.records) v)
  lookup-upsert_self k v q = ground (arith, lookup-upsert k k v q, e.beq_iff k k)

  -- A batch of one record that is put back behind a newer update of the key.
  pub put_back :
      (k : K) (new old : V) (q : Queue K V)
      → lookup k q.records ≡ none
      → lookup k (upsert_batch ((k, old) ∷ []) (upsert k new q)).records ≡ some (m.merge new old)
  unfolding upsert_batch
  put_back k new old q missing =
      ground (arith, lookup-upsert_self k new q, lookup-upsert_self k old (upsert k new q))
