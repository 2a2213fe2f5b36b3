-- ===== src/Server/Refines.antt =====
-- A flush of one queue in src/queue.rs is a run of the steps of Queue/Flow.
use mathlib.Core.List.{append-nil, append_assoc}
use unit3d_announce.Prelude.{
  ℕ, ◌+◌, ◌≤◌, arith, ◌≡◌, refl, Bool, List, [], ◌∷◌, ◌++◌, Bool-cases, inl, inr, if◌then◌else◌,
}
use unit3d_announce.Prelude.Eq.{Eq}
use unit3d_announce.Prelude.Ord.{Ord}
use unit3d_announce.Prelude.Map.{Map, total}
use unit3d_announce.Config.{Config}
use unit3d_announce.Queue.{Queue, Mergeable, take_batches, upsert_batch}
use unit3d_announce.Queue.Flow.{Flow, Step, Run, Run-weight}
use unit3d_announce.Server.{settle_batches, flush_queue}

module _ {F K V : Type 0} ⦃e : Eq K⦄ ⦃o : Ord K⦄ ⦃m : Mergeable V⦄ (config : Config F)
    (accepts : Map K V → Bool) where
  -- The records of the batches that the database accepts.
  abbrev pub accepted : List (Map K V) → Map K V
  accepted [] = []
  accepted (batch ∷ batches) = if accepts batch then batch ++ accepted batches else accepted batches

  abbrev pub flowing : Queue K V → List (Map K V) → Map K V → Flow K V
  flowing queue in_flight written = record {
    queue = queue;
    in_flight = in_flight;
    written = written;
  }

  settle_batches-Run :
      (s : Flow K V) (batches : List (Map K V)) (queue : Queue K V) (written : Map K V)
      → Run config s [] (flowing queue batches written)
      → Run config s []
          (flowing (settle_batches accepts batches queue) [] (written ++ accepted batches))
  unfolding settle_batches
  settle_batches-Run s [] queue written run = rw append-nil run
  settle_batches-Run s (batch ∷ batches) queue written run = elim (Bool-cases (accepts batch)) [
    | inl taken ↦ rw taken (
        rw append_assoc at (
          settle_batches-Run s batches queue (written ++ batch) (
            Run.flushes run
              (Step.writes (flowing queue (batch ∷ batches) written) [] batches batch refl))))
    | inr refused ↦ rw refused (
        settle_batches-Run s batches (upsert_batch batch queue) written (
          Run.flushes run
            (Step.refuses (flowing queue (batch ∷ batches) written) [] batches batch refl)))
  ]

  -- A flush beside which nothing is queued is a run of the steps: it takes the batches, and writes
  -- or puts back one after the other. What it has written is the batches that the database accepts.
  pub flush_queue-Run :
      (queue : Queue K V)
      → Run config
          (flowing queue [] [])
          []
          (flowing (flush_queue accepts config queue) [] (accepted (take_batches config queue).0))
  unfolding flush_queue
  flush_queue-Run queue =
      let (batches, rest) = take_batches config queue in
      let taken : Run config (flowing queue [] []) [] (flowing rest (batches ++ []) []) =
        Run.flushes Run.here (Step.takes (flowing queue [] [])) in
      settle_batches-Run (flowing queue [] []) batches rest [] (rw append-nil at taken)

  -- The sum of an additive quantity over the queue before a flush is the sum over what the flush
  -- leaves and what the database has accepted, whatever it refuses.
  pub flush_queue-sum :
      (f : V → ℕ) (top : ℕ)
      → ((a b : V) → f a + f b ≤ top → f (m.merge a b) ≡ f a + f b)
      → (queue : Queue K V) → total (λ r. f r.1) queue.records ≤ top
      → total (λ r. f r.1) (flush_queue accepts config queue).records
          + total (λ r. f r.1) (accepted (take_batches config queue).0)
        ≡ total (λ r. f r.1) queue.records
  unfolding total
  flush_queue-sum f top additive queue h =
      omega (arith, Run-weight config f top additive (flush_queue-Run queue) (omega arith))
