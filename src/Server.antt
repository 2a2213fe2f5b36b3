-- ===== src/Server.antt =====
-- The queues of src/queue.rs together, and the start and the shutdown of src/main.rs.
pub mod Shutdown
pub mod Refines
pub mod Configured
use unit3d_announce.Prelude.{
  ℕ, zero, suc, ◌+◌, ◌≡◌, Bool, true, false, not, ◌||◌, Option, none, some, List, [], ◌∷◌, ◌==◌,
  if◌then◌else◌,
}
use unit3d_announce.Prelude.Eq.{Eq, nat_eq, bytes_eq}
use unit3d_announce.Prelude.Ord.{Ord, nat_ord, bytes_ord, pair_ord}
use unit3d_announce.Prelude.Map.{Map}
use unit3d_announce.Model.{IpAddr}
use unit3d_announce.Config.{Config}
use unit3d_announce.Queue.{
  Queue, Mergeable, QueueConfig, new_queue, take_batches, upsert_batch, is_not_empty,
}
use unit3d_announce.Queue.Updates.{
  PeerIndex, HistoryIndex, UnregisteredInfoHashIndex, pair_eq, PeerUpdate, HistoryUpdate,
  TorrentUpdate, UserUpdate, UnregisteredInfoHashUpdate, AnnounceUpdate, take_batch,
  upsert_announces, peer_mergeable, history_mergeable, torrent_mergeable, user_mergeable,
  unregistered_mergeable,
}
use unit3d_announce.Announce.State.{Queues}

-- Where `main` listens.
pub data Listener : Type 0 where
  unix_socket : List ℕ → Listener
  tcp : IpAddr → ℕ → Listener
  not_configured : Listener

unfoldable pub listener_of : Option (List ℕ) → Option IpAddr → Option ℕ → Listener
listener_of (some path) ip port = unix_socket path
listener_of none (some ip) (some port) = tcp ip port
listener_of none (some ip) none = not_configured
listener_of none none port = not_configured

-- The branches of `main` on the settings.
unfoldable pub choose_listener : {F : Type 0} → Config F → Listener
unfolding listener_of
choose_listener config =
    listener_of config.listening_unix_socket config.listening_ip_address config.listening_port

abbrev pub queue_config : ℕ → ℕ → QueueConfig
queue_config bindings_per_record extra_bindings_per_flush = record {
  max_bindings_per_flush = 65535;
  bindings_per_record = bindings_per_record;
  extra_bindings_per_flush = extra_bindings_per_flush;
}

-- `Queues::new`
unfoldable pub new_queues : Queues
unfolding new_queue
new_queues = record {
  announces = [];
  histories = new_queue (queue_config 16 1);
  peers = new_queue (queue_config 15 0);
  torrents = new_queue (queue_config 15 0);
  unregistered_info_hashes = new_queue (queue_config 4 0);
  users = new_queue (queue_config 9 0);
}

module _ {K V : Type 0} ⦃e : Eq K⦄ ⦃o : Ord K⦄ ⦃m : Mergeable V⦄ (accepts : Map K V → Bool) where
  -- The loop over the results: what the database refuses is put back.
  unfoldable pub settle_batches : List (Map K V) → Queue K V → Queue K V
  settle_batches [] queue = queue
  settle_batches (batch ∷ batches) queue =
      settle_batches batches (if accepts batch then queue else upsert_batch batch queue)

  -- `MutexQueueExt::flush`, while nothing else is queued.
  unfoldable pub flush_queue : {F : Type 0} → Config F → Queue K V → Queue K V
  unfolding settle_batches
  flush_queue config queue =
      let (batches, rest) = take_batches config queue in settle_batches batches rest

-- Which batches the database accepts in a flush.
pub record Database : Type 0 where
  pub announces : List AnnounceUpdate → Bool
  pub histories : Map HistoryIndex HistoryUpdate → Bool
  pub peers : Map PeerIndex PeerUpdate → Bool
  pub torrents : Map ℕ TorrentUpdate → Bool
  pub unregistered_info_hashes : Map UnregisteredInfoHashIndex UnregisteredInfoHashUpdate → Bool
  pub users : Map ℕ UserUpdate → Bool

-- `flush_announce_updates`
unfoldable pub flush_announces :
    (List AnnounceUpdate → Bool) → List AnnounceUpdate → List AnnounceUpdate
unfolding take_batch upsert_announces
flush_announces accepts announces =
    let (batch, rest) = take_batch announces in
    if accepts batch then rest else upsert_announces rest batch

-- `Queues::flush`: the six queues are joined, and share nothing.
unfoldable pub flush : {F : Type 0} → Config F → Database → Queues → Queues
unfolding flush_announces flush_queue
flush config database queues = record {
  announces = flush_announces database.announces queues.announces;
  histories = flush_queue database.histories config queues.histories;
  peers = flush_queue database.peers config queues.peers;
  torrents = flush_queue database.torrents config queues.torrents;
  unregistered_info_hashes =
      flush_queue database.unregistered_info_hashes config queues.unregistered_info_hashes;
  users = flush_queue database.users config queues.users;
}

unfoldable pub is_empty_log : List AnnounceUpdate → Bool
is_empty_log [] = true
is_empty_log (a ∷ announces) = false

unfoldable pub are_not_empty : Queues → Bool
unfolding is_empty_log is_not_empty
are_not_empty queues =
    not (is_empty_log queues.announces)
    || is_not_empty queues.histories
    || is_not_empty queues.peers
    || is_not_empty queues.torrents
    || is_not_empty queues.users
    || is_not_empty queues.unregistered_info_hashes

-- The loop of the shutdown: so many flushes are still allowed. The database may change its mind from
-- one flush to the next.
unfoldable pub flush_all : {F : Type 0} → Config F → (ℕ → Database) → ℕ → ℕ → Queues → ℕ × Queues
unfolding flush are_not_empty
flush_all config database zero flushes queues = (flushes, queues)
flush_all config database (suc allowed) flushes queues =
    let rest =
      flush_all config database allowed (flushes + 1) (flush config (database flushes) queues) in
    if are_not_empty queues then rest else (flushes, queues)

abbrev pub max_flushes : ℕ
max_flushes = 1000

-- The end of `main`: whether it says that the shutdown succeeded, and the queues that it leaves.
unfoldable pub shut_down : {F : Type 0} → Config F → (ℕ → Database) → Queues → Bool × Queues
unfolding flush_all
shut_down config database queues =
    let (flushes, left) = flush_all config database max_flushes 0 queues in
    (not (flushes == max_flushes), left)
