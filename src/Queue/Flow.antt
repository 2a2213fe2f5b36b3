-- ===== src/Queue/Flow.antt =====
-- Flushes that run beside new updates: what is queued, in flight or written adds up.
use mathlib.Core.List.{Perm, Permᴰ}
use mathlib.Core.Logic.{∥∥₁_elim}
use native.Mathlib.Nat.{ℕ_set}
use unit3d_announce.Prelude.{◌∙◌, ℕ, ◌+◌, ◌≤◌, ◌≡◌, refl, ap, List, [], ◌∷◌, ◌++◌, arith}
use unit3d_announce.Prelude.Eq.{Eq}
use unit3d_announce.Prelude.Ord.{Ord}
use unit3d_announce.Prelude.Map.{Map, total}
use unit3d_announce.Config.{Config}
use unit3d_announce.Queue.{Queue, Mergeable, upsert_records, upsert, upsert_batch, take_batches}
use unit3d_announce.Queue.Chop.{concat, take_batches-Divides}

total-append {ℓ} :
    {A : Type ℓ} (f : A → ℕ) (xs ys : List A) → total f (xs ++ ys) ≡ total f xs + total f ys
unfolding total
total-append f [] ys = omega arith
total-append f (x ∷ xs) ys = omega (arith, total-append f xs ys)

total-permᴰ {ℓ} : {A : Type ℓ} (f : A → ℕ) {xs ys : List A} → Permᴰ xs ys → total f xs ≡ total f ys
unfolding total
total-permᴰ f Permᴰ.nil = refl
total-permᴰ f (Permᴰ.cons h p) = omega (arith, ap f h, total-permᴰ f p)
total-permᴰ f (Permᴰ.swap h k) = omega (arith, ap f h, ap f k)
total-permᴰ f (Permᴰ.trans p q) = total-permᴰ f p ∙ total-permᴰ f q

total-perm {ℓ} : {A : Type ℓ} (f : A → ℕ) {xs ys : List A} → Perm xs ys → total f xs ≡ total f ys
total-perm f p = ∥∥₁_elim p (ℕ_set _ _) (total-permᴰ f)

-- A queue, the batches that wait for the database, and the records that it has accepted.
pub record Flow (K V : Type 0) : Type 0 where
  pub queue : Queue K V
  pub in_flight : List (Map K V)
  pub written : Map K V

module _ {F K V : Type 0} ⦃e : Eq K⦄ ⦃o : Ord K⦄ ⦃m : Mergeable V⦄ (config : Config F) where
  -- The steps of `flush`: its lock that takes the batches, and the result of one batch, which is put
  -- back if the database refused it.
  pub data Step : Flow K V → Flow K V → Type 0 where
    takes :
        (s : Flow K V)
        → Step s (record s {
          queue = (take_batches config s.queue).1;
          in_flight = (take_batches config s.queue).0 ++ s.in_flight;
        })
    writes :
        (s : Flow K V) (before after : List (Map K V)) (batch : Map K V)
        → s.in_flight ≡ before ++ batch ∷ after
        → Step s (record s { in_flight = before ++ after; written = s.written ++ batch })
    refuses :
        (s : Flow K V) (before after : List (Map K V)) (batch : Map K V)
        → s.in_flight ≡ before ++ batch ∷ after
        → Step s (record s { in_flight = before ++ after; queue = upsert_batch batch s.queue })

  -- A run, with the updates that the handlers have queued in it, latest first.
  pub data Run (s : Flow K V) : Map K V → Flow K V → Type 0 where
    here : Run s [] s
    flushes : {us : Map K V} {t u : Flow K V} → Run s us t → Step t u → Run s us u
    upserts :
        {us : Map K V} {t : Flow K V} (k : K) (v : V)
        → Run s us t
        → Run s ((k, v) ∷ us) (record t { queue = upsert k v t.queue })

  module _ (f : V → ℕ) (top : ℕ)
      (additive : (a b : V) → f a + f b ≤ top → f (m.merge a b) ≡ f a + f b) where
    abbrev pub sum : Map K V → ℕ
    sum = total (λ r. f r.1)

    -- What is queued, in flight and written.
    abbrev pub weight : Flow K V → ℕ
    weight s = sum s.queue.records + sum (concat s.in_flight) + sum s.written

    sum-upsert :
        (k : K) (v : V) (rs : Map K V)
        → sum rs + f v ≤ top
        → sum (upsert_records k v rs) ≡ sum rs + f v
    unfolding upsert_records total
    sum-upsert k v [] b = omega arith
    sum-upsert k v ((j, u) ∷ rs) b = ground (arith, additive u v, sum-upsert k v rs)

    sum-upsert_batch :
        (batch : Map K V) (q : Queue K V)
        → sum q.records + sum batch ≤ top
        → sum (upsert_batch batch q).records ≡ sum q.records + sum batch
    unfolding upsert_batch upsert total
    sum-upsert_batch [] q b = omega arith
    sum-upsert_batch ((k, v) ∷ batch) q b =
        let e1 = sum-upsert k v q.records (omega arith) in
        let e2 = sum-upsert_batch batch (upsert k v q) (omega arith) in omega (arith, e1, e2)

    concat-append :
        (xs ys : List (Map K V)) → sum (concat (xs ++ ys)) ≡ sum (concat xs) + sum (concat ys)
    unfolding total
    concat-append [] ys = omega arith
    concat-append (x ∷ xs) ys = omega (
      arith,
      concat-append xs ys,
      total-append (λ r. f r.1) x (concat (xs ++ ys)),
      total-append (λ r. f r.1) x (concat xs),
    )

    sum-append : (xs ys : Map K V) → sum (xs ++ ys) ≡ sum xs + sum ys
    sum-append = total-append (λ r. f r.1)

    landed :
        (flying before after : List (Map K V)) (batch : Map K V)
        → flying ≡ before ++ batch ∷ after
        → sum (concat flying) ≡ sum batch + sum (concat (before ++ after))
    landed flying before after batch h = omega (
      arith,
      ap (λ l. sum (concat l)) h,
      concat-append before (batch ∷ after),
      concat-append before after,
      sum-append batch (concat after),
    )

    Step-weight : {s t : Flow K V} → Step s t → weight s ≤ top → weight t ≡ weight s
    Step-weight (takes s) b =
        let d = take_batches-Divides config s.queue in
        omega (
          arith,
          total-perm (λ r. f r.1) d.nothing_lost,
          concat-append (take_batches config s.queue).0 s.in_flight,
          sum-append (concat (take_batches config s.queue).0)
              (take_batches config s.queue).1.records,
        )
    Step-weight (writes s before after batch h) b =
        omega (arith, landed s.in_flight before after batch h, sum-append s.written batch)
    Step-weight (refuses s before after batch h) b =
        let l = landed s.in_flight before after batch h in
        omega (arith, l, sum-upsert_batch batch s.queue (omega (arith, l)))

    -- A quantity of the records that merging adds up is kept: whatever batches the database refuses
    -- and whenever the handlers queue more, its sum over what is queued, in flight and written is
    -- the sum at first and that of what the handlers have added, while these together do not exceed
    -- the largest number.
    pub Run-weight :
        {s t : Flow K V} {us : Map K V}
        → Run s us t
        → weight s + sum us ≤ top
        → weight t ≡ weight s + sum us
    unfolding total upsert
    Run-weight here b = omega arith
    Run-weight (flushes r st) b =
        let ih = Run-weight r b in omega (arith, ih, Step-weight st (omega (arith, ih)))
    Run-weight (upserts {t = t} k v r) b =
        let ih = Run-weight r (omega arith) in
        omega (arith, ih, sum-upsert k v t.queue.records (omega (arith, ih)))
