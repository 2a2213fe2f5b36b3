-- ===== src/Load.antt =====
-- The stores that src/store.rs loads at the start, from the rows that the database returns.
pub mod Linked
pub mod Ports
use unit3d_announce.Prelude.{ℕ, zero, suc, ◌≡◌, Bool, false, Option, none, some, List, [], ◌∷◌, map}
use unit3d_announce.Prelude.Eq.{Eq, nat_eq, bytes_eq, int_eq}
use unit3d_announce.Prelude.Int.{ℤ}
use unit3d_announce.Prelude.Map.{Map, lookup, insert}
use unit3d_announce.Prelude.Outcome.{Outcome, ok, expect, ◌>>=◌}
use unit3d_announce.Model.{IpAddr}
use unit3d_announce.Model.Status.{TorrentStatus}
use unit3d_announce.Config.{Config}
use unit3d_announce.Rate.{Float}
use unit3d_announce.Stats.{Stats, new_stats}
use unit3d_announce.Store.{Stores, ConnectablePort}
use unit3d_announce.Store.Peer.{Index, Peer, Index-eq}
use unit3d_announce.Store.Torrent.{Torrent}
use unit3d_announce.Store.User.{User, Group}
use unit3d_announce.Queue.Updates.{pair_eq}
use unit3d_announce.Announce.Connect.{ip_eq}
use unit3d_announce.Announce.State.{App}
use unit3d_announce.Server.{new_queues}

-- `try_fold` with `insert`: the rows in the order in which they come.
unfoldable pub insert_rows {ℓ κ} :
    {K : Type ℓ} {V : Type κ} ⦃e : Eq K⦄ → List (K × V) → Map K V → Map K V
insert_rows [] store = store
insert_rows ((k, v) ∷ rows) store = insert_rows rows (insert k v store)

-- The same for a set.
unfoldable pub insert_all {ℓ} :
    {K : Type ℓ} ⦃e : Eq K⦄ → List K → Map K (Unit {0}) → Map K (Unit {0})
insert_all [] set = set
insert_all (k ∷ ks) set = insert_all ks (insert k tt set)

-- The loop over `0..n`.
unfoldable pub insert_below : ℕ → Map ℕ (Unit {0}) → Map ℕ (Unit {0})
insert_below zero set = set
insert_below (suc n) set = insert n tt (insert_below n set)

abbrev pub known_ports : List ℕ
known_ports = 8080 ∷ 8081 ∷ 1214 ∷ 3389 ∷ 4662 ∷ 6346 ∷ 6347 ∷ 6699 ∷ []

-- `BlacklistedPortStore::default`
unfoldable pub blacklisted_ports : Map ℕ (Unit {0})
unfolding insert_all insert_below
blacklisted_ports = insert_below 1024 (insert_all known_ports [])

-- src/store/torrent.rs
pub record DbImportTorrent : Type 0 where
  pub id : ℕ
  pub status : TorrentStatus
  pub seeders : ℕ
  pub leechers : ℕ
  pub times_completed : ℕ
  pub download_factor : ℕ
  pub upload_factor : ℕ
  pub is_deleted : Bool

unfoldable pub import_torrent : DbImportTorrent → Torrent
import_torrent torrent = record {
  id = torrent.id;
  status = torrent.status;
  is_deleted = torrent.is_deleted;
  peers = [];
  seeders = torrent.seeders;
  leechers = torrent.leechers;
  times_completed = torrent.times_completed;
  download_factor = torrent.download_factor;
  upload_factor = torrent.upload_factor;
}

unfoldable pub torrent_rows : List DbImportTorrent → List (ℕ × Torrent)
unfolding import_torrent
torrent_rows [] = []
torrent_rows (torrent ∷ rows) = (torrent.id, import_torrent torrent) ∷ torrent_rows rows

-- The rows of the second query. An address or a time may be null.
pub record DbPeer : Type 0 where
  pub ip_address : Option IpAddr
  pub user_id : ℕ
  pub torrent_id : ℕ
  pub port : ℕ
  pub is_seeder : Bool
  pub is_active : Bool
  pub is_visible : Bool
  pub is_connectable : Bool
  pub updated_at : Option ℕ
  pub uploaded : ℕ
  pub downloaded : ℕ
  pub peer_id : List ℕ

-- The peer of a row, which panics where something is null.
unfoldable pub import_peer : DbPeer → Outcome Peer
import_peer peer = do
  ip_address ← expect peer.ip_address
  updated_at ← expect peer.updated_at
  ok (record {
    ip_address = ip_address;
    port = peer.port;
    is_seeder = peer.is_seeder;
    is_active = peer.is_active;
    is_visible = peer.is_visible;
    is_connectable = peer.is_connectable;
    has_sent_completed = false;
    updated_at = updated_at;
    uploaded = peer.uploaded;
    downloaded = peer.downloaded;
  })

-- `entry(…).and_modify(…)`: a peer of no torrent is left out.
unfoldable pub add_peer : DbPeer → Map ℕ Torrent → Outcome (Map ℕ Torrent)
unfolding import_peer
add_peer row store = elim (lookup row.torrent_id store) [
  | none ↦ ok store
  | some torrent ↦
      (import_peer row >>= λ peer. ok (
        insert row.torrent_id
          (record torrent {
            peers =
                insert (record { user_id = row.user_id; peer_id = row.peer_id }) peer torrent.peers;
          })
          store))
]

unfoldable pub add_peers : List DbPeer → Map ℕ Torrent → Outcome (Map ℕ Torrent)
unfolding add_peer
add_peers [] store = ok store
add_peers (row ∷ rows) store = do next ← add_peer row store; add_peers rows next

-- `TorrentStore::from_db`
unfoldable pub load_torrents : List DbImportTorrent → List DbPeer → Outcome (Map ℕ Torrent)
unfolding insert_rows torrent_rows add_peers
load_torrents torrents peers = add_peers peers (insert_rows (torrent_rows torrents) [])

-- src/store/user.rs
pub record DbImportUser : Type 0 where
  pub id : ℕ
  pub group_id : ℤ
  pub passkey : List ℕ
  pub can_download : Bool
  pub num_seeding : ℕ
  pub num_leeching : ℕ
  pub is_donor : Bool
  pub is_lifetime : Bool

unfoldable pub import_user : {F : Type 0} → Config F → DbImportUser → ℕ × User F
import_user config user = (
  user.id,
  record {
    id = user.id;
    group_id = user.group_id;
    passkey = user.passkey;
    can_download = user.can_download;
    num_seeding = user.num_seeding;
    num_leeching = user.num_leeching;
    is_donor = user.is_donor;
    is_lifetime = user.is_lifetime;
    receive_seed_list_rates = config.user_receive_seed_list_rate_limits;
    receive_leech_list_rates = config.user_receive_leech_list_rate_limits;
  },
)

-- src/store/connectable_port.rs: an address that does not parse is none as well.
pub record DbPort : Type 0 where
  pub ip_address : Option IpAddr
  pub port : ℕ
  pub connectable : Bool
  pub updated_at : Option ℕ

unfoldable pub load_ports :
    List DbPort → Map (IpAddr × ℕ) ConnectablePort → Outcome (Map (IpAddr × ℕ) ConnectablePort)
load_ports [] store = ok store
load_ports (row ∷ rows) store = do
  ip_address ← expect row.ip_address
  updated_at ← expect row.updated_at
  load_ports rows (
      insert (ip_address, row.port)
        (record { connectable = row.connectable; updated_at = updated_at }) store)

unfoldable pub group_rows : List Group → List (ℤ × Group)
group_rows [] = []
group_rows (group ∷ rows) = (group.id, group) ∷ group_rows rows

-- The rows of all tables.
pub record Rows : Type 0 where
  pub agents : List (List ℕ)
  pub torrents : List DbImportTorrent
  pub peers : List DbPeer
  pub info_hashes : List (List ℕ × ℕ)
  pub users : List DbImportUser
  pub passkeys : List (List ℕ × ℕ)
  pub ports : List DbPort
  pub freeleech_tokens : List (ℕ × ℕ)
  pub personal_freeleeches : List ℕ
  pub featured_torrents : List ℕ
  pub groups : List Group

module _ {F : Type 0} where
  -- `Stores::new`, where no query fails.
  unfoldable pub new_stores : Config F → Rows → Outcome (Stores F)
  unfolding blacklisted_ports insert_all insert_rows load_torrents import_user load_ports group_rows
  new_stores config rows = do
    torrents ← load_torrents rows.torrents rows.peers
    ports ← load_ports rows.ports []
    ok (record {
      agent_blacklist = insert_all rows.agents [];
      connectable_ports = ports;
      featured_torrents = insert_all rows.featured_torrents [];
      freeleech_tokens = insert_all rows.freeleech_tokens [];
      groups = insert_rows (group_rows rows.groups) [];
      infohash2id = insert_rows rows.info_hashes [];
      passkey2id = insert_rows rows.passkeys [];
      personal_freeleeches = insert_all rows.personal_freeleeches [];
      port_blacklist = blacklisted_ports;
      torrents = torrents;
      users = insert_rows (map (import_user config) rows.users) [];
    })

  -- `AppState::default` of src/state.rs, with the configuration and the time of the statistics.
  unfoldable pub new_app : ⦃f : Float F⦄ → Config F → Rows → F → Outcome (App F)
  unfolding new_stores new_queues new_stats
  new_app config rows now = do
    stores ← new_stores config rows
    ok (record { stores = stores; queues = new_queues; stats = new_stats now })
