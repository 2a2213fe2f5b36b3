-- ===== src/Server/Shutdown.antt =====
-- The shutdown of src/main.rs writes all that is queued, where the database accepts it.
use unit3d_announce.Prelude.{
  ℕ, zero, suc, ◌+◌, ◌-◌, ◌*◌, ◌≤◌, ◌<◌, ◌≡◌, ◌≢◌, refl, Bool, true, false, not, List, [], ◌∷◌,
  length, length-drop, take, min, arith, Bool-cases, List-cases, inl, inr, ◌==◌,
}
use unit3d_announce.Prelude.Eq.{Eq, nat_eq, bytes_eq}
use unit3d_announce.Prelude.Ord.{Ord, nat_ord, bytes_ord, pair_ord}
use unit3d_announce.Prelude.Word.{wrapping_mul}
use unit3d_announce.Prelude.Map.{Map}
use unit3d_announce.Config.{Config}
use unit3d_announce.Queue.{Queue, Mergeable, max_batch_size, take_batches, is_not_empty}
use unit3d_announce.Announce.State.{Queues}
use unit3d_announce.Queue.Updates.{
  PeerIndex, HistoryIndex, UnregisteredInfoHashIndex, PeerUpdate, HistoryUpdate, TorrentUpdate,
  UserUpdate, UnregisteredInfoHashUpdate, AnnounceUpdate, announce_limit, take_batch, pair_eq,
  peer_mergeable, history_mergeable, torrent_mergeable, user_mergeable, unregistered_mergeable,
}
use unit3d_announce.Server.{
  settle_batches, flush_queue, Database, flush_announces, flush, is_empty_log, are_not_empty,
  flush_all, max_flushes, shut_down,
}

-- How many records a flush takes from a queue: the product, in 64 bits, of the settings.
abbrev pub capacity : {F K V : Type 0} → Config F → Queue K V → ℕ
capacity config queue =
    wrapping_mul config.max_batches_per_flush (max_batch_size queue.config config)

less : (n c l : ℕ) → l ≤ suc n * c → l - min l c ≤ n * c
less n c l h = omega (arith, h)

taken-length :
    {F K V : Type 0} ⦃o : Ord K⦄ (config : Config F) (n : ℕ) (queue : Queue K V)
    → length queue.records ≤ suc n * capacity config queue
    → length (take_batches config queue).1.records
      ≤ n * capacity config (take_batches config queue).1
unfolding take_batches
taken-length config n queue h =
    rw (length-drop (min (length queue.records) (capacity config queue)) queue.records)
      (less n (capacity config queue) (length queue.records) h)

module _ {F K V : Type 0} ⦃e : Eq K⦄ ⦃o : Ord K⦄ ⦃m : Mergeable V⦄ (config : Config F)
    (accepts : Map K V → Bool) (accepted : (batch : Map K V) → accepts batch ≡ true) where
  settle_batches-accepted :
      (batches : List (Map K V)) (queue : Queue K V) → settle_batches accepts batches queue ≡ queue
  unfolding settle_batches
  settle_batches-accepted [] queue = refl
  settle_batches-accepted (batch ∷ batches) queue =
      rw (accepted batch) (settle_batches-accepted batches queue)

  flush_queue-accepted :
      (queue : Queue K V) → flush_queue accepts config queue ≡ (take_batches config queue).1
  unfolding flush_queue
  flush_queue-accepted queue =
      settle_batches-accepted (take_batches config queue).0 (take_batches config queue).1

  -- What is left of a queue that needs so many flushes.
  flush_queue-length :
      (n : ℕ) (queue : Queue K V)
      → length queue.records ≤ suc n * capacity config queue
      → length (flush_queue accepts config queue).records
        ≤ n * capacity config (flush_queue accepts config queue)
  flush_queue-length n queue h = rw (flush_queue-accepted queue) (taken-length config n queue h)

module _ {F : Type 0} (config : Config F) where
  module _ (database : ℕ → Database) where
    flush_all-more :
        (allowed flushes : ℕ) (queues : Queues)
        → are_not_empty queues ≡ true
        → flush_all config database (suc allowed) flushes queues
          ≡ flush_all config database allowed (flushes + 1) (flush config (database flushes) queues)
    unfolding flush_all
    flush_all-more allowed flushes queues h = rw h refl

    flush_all-done :
        (allowed flushes : ℕ) (queues : Queues)
        → are_not_empty queues ≡ false
        → flush_all config database (suc allowed) flushes queues ≡ (flushes, queues)
    unfolding flush_all
    flush_all-done allowed flushes queues h = rw h refl

    flush_all-none :
        (flushes : ℕ) (queues : Queues)
        → flush_all config database 0 flushes queues ≡ (flushes, queues)
    unfolding flush_all
    flush_all-none flushes queues = refl

    -- A loop that stops before its last flush leaves nothing.
    flush_all-stops :
        (allowed flushes : ℕ) (queues : Queues)
        → (flush_all config database allowed flushes queues).0 ≢ flushes + allowed
        → are_not_empty (flush_all config database allowed flushes queues).1 ≡ false
    flush_all-stops zero flushes queues =
        rw (flush_all-none flushes queues) (λ h. absurd (omega (arith, h)))
    flush_all-stops (suc allowed) flushes queues = elim (Bool-cases (are_not_empty queues)) [
      | inl more ↦ rw (flush_all-more allowed flushes queues more) (λ h.
          flush_all-stops allowed (flushes + 1) (flush config (database flushes) queues)
            (λ e. h (omega (arith, e))))
      | inr done ↦ rw (flush_all-done allowed flushes queues done) (λ h. done)
    ]

    -- The shutdown says that it succeeded only where no update is left in any queue, whatever the
    -- database has accepted.
    pub shut_down-success :
        (queues : Queues)
        → (shut_down config database queues).0 ≡ true
        → are_not_empty (shut_down config database queues).1 ≡ false
    unfolding shut_down
    shut_down-success queues h = flush_all-stops max_flushes 0 queues (λ e. ground (arith, h, e))

-- A database that accepts every batch.
pub record AcceptsAll (d : Database) : Type 0 where
  pub announces : (batch : List AnnounceUpdate) → d.announces batch ≡ true
  pub histories : (batch : Map HistoryIndex HistoryUpdate) → d.histories batch ≡ true
  pub peers : (batch : Map PeerIndex PeerUpdate) → d.peers batch ≡ true
  pub torrents : (batch : Map ℕ TorrentUpdate) → d.torrents batch ≡ true
  pub unregistered_info_hashes :
      (batch : Map UnregisteredInfoHashIndex UnregisteredInfoHashUpdate)
      → d.unregistered_info_hashes batch ≡ true
  pub users : (batch : Map ℕ UserUpdate) → d.users batch ≡ true

-- Every queue fits in so many flushes.
pub record Fits {F : Type 0} (config : Config F) (n : ℕ) (queues : Queues) : Type 0 where
  pub announces : length queues.announces ≤ n * announce_limit
  pub histories : length queues.histories.records ≤ n * capacity config queues.histories
  pub peers : length queues.peers.records ≤ n * capacity config queues.peers
  pub torrents : length queues.torrents.records ≤ n * capacity config queues.torrents
  pub unregistered_info_hashes :
      length queues.unregistered_info_hashes.records
      ≤ n * capacity config queues.unregistered_info_hashes
  pub users : length queues.users.records ≤ n * capacity config queues.users

flush_announces-length :
    (accepts : List AnnounceUpdate → Bool) (n : ℕ) (announces : List AnnounceUpdate)
    → ((batch : List AnnounceUpdate) → accepts batch ≡ true)
    → length announces ≤ suc n * announce_limit
    → length (flush_announces accepts announces) ≤ n * announce_limit
unfolding flush_announces take_batch
flush_announces-length accepts n announces accepted h =
    rw
      (
        accepted (take (min announce_limit (length announces)) announces),
        length-drop (min announce_limit (length announces)) announces,
      )
      (omega (arith, h))

flush-Fits :
    {F : Type 0} (config : Config F) (d : Database) (n : ℕ) (queues : Queues)
    → AcceptsAll d
    → Fits config (suc n) queues
    → Fits config n (flush config d queues)
unfolding flush
flush-Fits config d n queues a h = record {
  announces = flush_announces-length d.announces n queues.announces a.announces h.announces;
  histories = flush_queue-length config d.histories a.histories n queues.histories h.histories;
  peers = flush_queue-length config d.peers a.peers n queues.peers h.peers;
  torrents = flush_queue-length config d.torrents a.torrents n queues.torrents h.torrents;
  unregistered_info_hashes =
      flush_queue-length config d.unregistered_info_hashes a.unregistered_info_hashes n
        queues.unregistered_info_hashes h.unregistered_info_hashes;
  users = flush_queue-length config d.users a.users n queues.users h.users;
}

is_not_empty-length :
    {K V : Type 0} (queue : Queue K V) → length queue.records ≤ 0 → is_not_empty queue ≡ false
unfolding is_not_empty
is_not_empty-length queue h = elim (List-cases queue.records) [
  | inl e ↦ rw (e, is_not_empty) refl
  | inr (r, rs, e) ↦ absurd (ground (arith, e, h))
]

is_empty_log-length : (log : List AnnounceUpdate) → length log ≤ 0 → is_empty_log log ≡ true
unfolding is_empty_log
is_empty_log-length [] h = refl
is_empty_log-length (a ∷ log) h = absurd (omega (arith, h))

Fits-are_not_empty :
    {F : Type 0} (config : Config F) (queues : Queues)
    → Fits config 0 queues
    → are_not_empty queues ≡ false
unfolding are_not_empty
Fits-are_not_empty config queues h = ground (
  arith,
  is_empty_log-length queues.announces (omega (arith, h.announces)),
  is_not_empty-length queues.histories (omega (arith, h.histories)),
  is_not_empty-length queues.peers (omega (arith, h.peers)),
  is_not_empty-length queues.torrents (omega (arith, h.torrents)),
  is_not_empty-length queues.users (omega (arith, h.users)),
  is_not_empty-length queues.unregistered_info_hashes (omega (arith, h.unregistered_info_hashes)),
)

fewer : (flushes n : ℕ) → flushes ≤ 0 + n → n < max_flushes → not (flushes == max_flushes) ≡ true
fewer flushes n h i = ground arith

module _ {F : Type 0} (config : Config F) (database : ℕ → Database)
    (accepts : (flushes : ℕ) → AcceptsAll (database flushes)) where
  flush_all-empties :
      (n allowed flushes : ℕ) (queues : Queues)
      → n ≤ allowed
      → Fits config n queues
      → ((flush_all config database allowed flushes queues).0 ≤ flushes + n)
        × (are_not_empty (flush_all config database allowed flushes queues).1 ≡ false)
  flush_all-empties zero zero flushes queues h fits =
      rw (flush_all-none config database flushes queues)
        (omega arith, Fits-are_not_empty config queues fits)
  flush_all-empties (suc n) zero flushes queues h fits = absurd (omega (arith, h))
  flush_all-empties zero (suc allowed) flushes queues h fits =
      let empty = Fits-are_not_empty config queues fits in
      rw (flush_all-done config database allowed flushes queues empty) (omega arith, empty)
  flush_all-empties (suc n) (suc allowed) flushes queues h fits =
      elim (Bool-cases (are_not_empty queues)) [
        | inr done ↦
            rw (flush_all-done config database allowed flushes queues done) (omega arith, done)
        | inl more ↦
            let next = flush config (database flushes) queues in
            let ih =
              flush_all-empties n allowed (flushes + 1) next (omega (arith, h))
                (flush-Fits config (database flushes) n queues (accepts flushes) fits) in
            rw (flush_all-more config database allowed flushes queues more)
              (omega (arith, ih), ih.1)
      ]

  -- Where the database accepts every batch and each queue fits in fewer flushes than are allowed, a
  -- flush taking as many records as the product of the number and the size of batches is in 64 bits,
  -- the shutdown says that it succeeded and leaves no update in any queue.
  pub shut_down-empties :
      (n : ℕ) (queues : Queues)
      → n < max_flushes
      → Fits config n queues
      → ((shut_down config database queues).0 ≡ true)
        × (are_not_empty (shut_down config database queues).1 ≡ false)
  unfolding shut_down
  shut_down-empties n queues h fits =
      let done = flush_all-empties n max_flushes 0 queues (omega (arith, h)) fits in
      (fewer _ n done.0 h, done.1)
