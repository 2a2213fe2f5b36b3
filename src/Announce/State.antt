-- ===== src/Announce/State.antt =====
-- The state that `announce` of src/announce.rs reads and changes, and what it takes from its surroundings.
use unit3d_announce.Prelude.{ℕ, Bool, Option, List}
use unit3d_announce.Prelude.Eq.{nat_eq, bytes_eq}
use unit3d_announce.Stats.{Stats, Windows}
use unit3d_announce.Store.{Stores}
use unit3d_announce.Store.Peer.{PeerStore}
use unit3d_announce.Queue.{Queue}
use unit3d_announce.Queue.Updates.{
  PeerIndex, HistoryIndex, UnregisteredInfoHashIndex, pair_eq, PeerUpdate, HistoryUpdate,
  TorrentUpdate, UserUpdate, UnregisteredInfoHashUpdate, AnnounceUpdate, peer_mergeable,
  history_mergeable, torrent_mergeable, user_mergeable, unregistered_mergeable,
}
use unit3d_announce.Announce.Swarm.{Change}
use unit3d_announce.Announce.Admit.{Member}

-- src/queue.rs
pub record Queues : Type 0 where
  pub announces : List AnnounceUpdate
  pub histories : Queue HistoryIndex HistoryUpdate
  pub peers : Queue PeerIndex PeerUpdate
  pub torrents : Queue ℕ TorrentUpdate
  pub unregistered_info_hashes : Queue UnregisteredInfoHashIndex UnregisteredInfoHashUpdate
  pub users : Queue ℕ UserUpdate

-- The `AppState` of src/state.rs, less the configuration and the database.
pub record App (F : Type 0) : Type 0 where
  pub stores : Stores F
  pub queues : Queues
  pub stats : Stats F

-- What the handler takes from its surroundings: the clock when it is read, the outcome of a
-- connection, and the draws of the rand crate, with the largest number of peers that one of them can
-- reserve memory for. A clock before the epoch is `none`.
pub record World (F : Type 0) : Type 0 where
  pub now : ℕ
  pub connect_now : ℕ
  pub max_utc : ℕ
  pub can_connect : Bool
  pub choose_seeds : PeerStore → ℕ → PeerStore
  pub choose_leeches : PeerStore → ℕ → PeerStore
  pub capacity : ℕ
  pub random_range : ℕ → ℕ → ℕ
  pub rates_now : Option F
  pub stats_now : Option F
  pub windows : Windows F

-- What the part under the lock of the torrents hands on.
pub record Served (F : Type 0) : Type 0 where
  pub member : Member F
  pub change : Change
  pub has_requested_seed_list : Bool
  pub has_requested_leech_list : Bool
  pub upload_factor : ℕ
  pub download_factor : ℕ
  pub response : List ℕ
