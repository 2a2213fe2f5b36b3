-- ===== src/Tests/Fixtures.antt =====
-- A small tracker for the tests: its numbers stand in for floating point ones.
use unit3d_announce.Prelude.{
  ℕ, ◌+◌, ◌-◌, ◌*◌, ◌/◌, Bool, true, false, none, some, List, [], ◌∷◌, leb, replicate, take,
}
use unit3d_announce.Prelude.Int.{pos}
use unit3d_announce.Prelude.Bytes.{bytes}
use unit3d_announce.Model.{v4, Event}
use unit3d_announce.Model.Status.{TorrentStatus}
use unit3d_announce.Rate.{Float}
use unit3d_announce.Stats.{Gauge}
use unit3d_announce.Config.{Config}
use unit3d_announce.Store.{Stores}
use unit3d_announce.Store.Peer.{Index, Peer, PeerStore}
use unit3d_announce.Store.Torrent.{Torrent}
use unit3d_announce.Store.User.{User, Group}
use unit3d_announce.Queue.{QueueConfig}
use unit3d_announce.Announce.Query.{Announce}
use unit3d_announce.Announce.Swarm.{Visit}
use unit3d_announce.Announce.Request.{Request}
use unit3d_announce.Announce.State.{Queues, App, World}

instance abbrev pub numbers : Float ℕ
numbers = record {
  zero = 0;
  one = 1;
  minus_one = 1;
  add = λ a b. a + b;
  sub = λ a b. a - b;
  mul = λ a b. a * b;
  div = λ a b. a / b;
  exp = λ a. 1;
  leb = leb;
}

abbrev pub config : Config ℕ
config = record {
  flush_interval_milliseconds = 3000;
  max_batches_per_flush = 2;
  max_records_per_batch = some 2;
  numwant_default = 25;
  numwant_max = 50;
  announce_min = 2100;
  announce_min_enforced = 1700;
  announce_max = 2400;
  upload_factor = 100;
  download_factor = 100;
  peer_expiry_interval = 1800;
  active_peer_ttl = 7200;
  inactive_peer_ttl = 1814400;
  apikey = replicate 32 97;
  listening_ip_address = some (v4 (127 ∷ 0 ∷ 0 ∷ 1 ∷ []));
  listening_port = some 3000;
  listening_unix_socket = none;
  max_peers_per_torrent_per_user = 2;
  is_connectivity_check_enabled = true;
  connectivity_check_interval = pos 604800;
  require_peer_connectivity = false;
  is_announce_logging_enabled = true;
  reverse_proxy_client_ip_header_name = none;
  user_receive_seed_list_rate_limits = [];
  user_receive_leech_list_rate_limits = [];
  donor_immunity_override = none;
  donor_upload_factor_override = none;
  donor_download_factor_override = none;
  lifetime_donor_immunity_override = none;
  lifetime_donor_upload_factor_override = none;
  lifetime_donor_download_factor_override = none;
}

abbrev pub peer_id : ℕ → List ℕ
peer_id n = n ∷ replicate 19 0

abbrev pub info_hash : List ℕ
info_hash = replicate 20 7

abbrev pub passkey : List ℕ
passkey = replicate 32 97

abbrev pub index : ℕ → Index
index n = record { user_id = n; peer_id = peer_id n }

-- A peer that seeds or leeches, last seen at a time.
abbrev pub peer : Bool → ℕ → Peer
peer is_seeder time = record {
  ip_address = v4 (10 ∷ 0 ∷ 0 ∷ 1 ∷ []);
  port = 6881;
  is_seeder = is_seeder;
  is_active = true;
  is_visible = true;
  is_connectable = true;
  has_sent_completed = false;
  updated_at = time;
  uploaded = 10;
  downloaded = 20;
}

-- User 2 seeds and user 3 leeches.
abbrev pub torrent : Torrent
torrent = record {
  id = 5;
  status = TorrentStatus.approved;
  is_deleted = false;
  peers = (index 2, peer true 100) ∷ (index 3, peer false 200) ∷ [];
  seeders = 1;
  leechers = 1;
  times_completed = 0;
  download_factor = 50;
  upload_factor = 100;
}

abbrev pub user : ℕ → User ℕ
user n = record {
  id = n;
  group_id = pos 1;
  passkey = passkey;
  can_download = true;
  num_seeding = 1;
  num_leeching = 1;
  is_donor = false;
  is_lifetime = false;
  receive_seed_list_rates = [];
  receive_leech_list_rates = [];
}

abbrev pub group : Group
group = record {
  id = pos 1;
  slug = bytes "user";
  download_slots = none;
  is_immune = false;
  download_factor = 100;
  upload_factor = 100;
}

-- User 1 leeches.
abbrev pub queries : Event → Announce
queries event = record {
  info_hash = info_hash;
  peer_id = peer_id 1;
  port = 6882;
  uploaded = 0;
  downloaded = 0;
  left = 8;
  event = event;
  numwant = 50;
  corrupt = none;
  key = none;
}

abbrev pub visit_of : Event → Visit ℕ
visit_of event = record {
  config = config;
  user_id = 1;
  queries = queries event;
  client_ip = v4 (10 ∷ 0 ∷ 0 ∷ 9 ∷ []);
  is_connectable = true;
  has_hit_download_slot_limit = false;
  now = 300;
  max_utc = 1000000000000000000000;
}

abbrev pub request : Event → Request
request event = record {
  has_accept_language = false;
  has_referer = false;
  has_accept_charset = false;
  has_want_digest = false;
  user_agent = some (some (bytes "tr/4"));
  passkey = passkey;
  queries = queries event;
  client_ip = v4 (10 ∷ 0 ∷ 0 ∷ 9 ∷ []);
}

abbrev pub stores : Stores ℕ
stores = record {
  agent_blacklist = [];
  connectable_ports = [];
  featured_torrents = [];
  freeleech_tokens = ((1, 5), tt) ∷ [];
  groups = (pos 1, group) ∷ [];
  infohash2id = (info_hash, 5) ∷ [];
  passkey2id = (passkey, 1) ∷ [];
  personal_freeleeches = [];
  port_blacklist = (8080, tt) ∷ [];
  torrents = (5, torrent) ∷ [];
  users = (1, user 1) ∷ (2, user 2) ∷ (3, user 3) ∷ [];
}

abbrev pub queue_config : QueueConfig
queue_config = record {
  max_bindings_per_flush = 65535;
  bindings_per_record = 12;
  extra_bindings_per_flush = 0;
}

abbrev pub queues : Queues
queues = record {
  announces = [];
  histories = record { records = []; config = queue_config };
  peers = record { records = []; config = queue_config };
  torrents = record { records = []; config = queue_config };
  unregistered_info_hashes = record { records = []; config = queue_config };
  users = record { records = []; config = queue_config };
}

abbrev pub gauge : Gauge ℕ
gauge = record { last_at = 0; per_1s = 0; per_10s = 0; per_60s = 0; per_900s = 0; per_7200s = 0 }

abbrev pub app : App ℕ
app = record {
  stores = stores;
  queues = queues;
  stats = record { created_at = 0; requests = gauge; announce_responses = gauge };
}

abbrev pub first : PeerStore → ℕ → PeerStore
first es n = take n es

abbrev pub world : World ℕ
world = record {
  now = 300;
  connect_now = 300;
  max_utc = 1000000000000000000000;
  can_connect = true;
  choose_seeds = first;
  choose_leeches = first;
  capacity = 576460752303423487;
  random_range = λ low high. low;
  rates_now = some 300;
  stats_now = some 300;
  windows = record { s1 = 1; s10 = 10; s60 = 60; s900 = 900; s7200 = 7200 };
}
