-- ===== src/Tests/Start.antt =====
-- The start and the end of the tracker at concrete settings and rows.
use unit3d_announce.Prelude.Word.{wrapping_mul}
use unit3d_announce.Prelude.{
  ℕ, ◌+◌, ◌≡◌, refl, some, true, false, Bool, [], ◌∷◌, replicate, arith, inl,
}
use unit3d_announce.Prelude.Eq.{nat_eq, bytes_eq}
use unit3d_announce.Prelude.Ord.{nat_ord}
use unit3d_announce.Prelude.Map.{Map, lookup, insert, total}
use unit3d_announce.Prelude.Outcome.{Outcome}
use unit3d_announce.Prelude.Word.{u64_max}
use unit3d_announce.Model.{v4}
use unit3d_announce.Model.Status.{TorrentStatus}
use unit3d_announce.Store.{Stores}
use unit3d_announce.Store.Peer.{Index, Peer}
use unit3d_announce.Queue.{Queue, max_batch_size, take_batches}
use unit3d_announce.Queue.Updates.{UserUpdate, user_mergeable}
use unit3d_announce.Queue.Updates.Merge.{merge_user-uploaded}
use unit3d_announce.Announce.State.{Queues}
use unit3d_announce.Api.Torrents.Linked.{Linked}
use unit3d_announce.Load.{
  Rows, DbImportTorrent, DbPeer, import_torrent, torrent_rows, insert_rows, insert_all,
  blacklisted_ports, new_stores,
}
use unit3d_announce.Load.Linked.{new_stores-Linked}
use unit3d_announce.Server.{Database, flush_queue, are_not_empty, shut_down}
use unit3d_announce.Server.Shutdown.{AcceptsAll, Fits, shut_down-success, shut_down-empties}
use unit3d_announce.Server.Refines.{accepted, flush_queue-sum}
use unit3d_announce.Tests.Fixtures.{numbers, config, queues, queue_config, info_hash}

abbrev credit : ℕ → UserUpdate
credit n = record { uploaded_delta = n; downloaded_delta = 0 }

abbrev waiting : Queue ℕ UserUpdate
waiting = record {
  records = (9, credit 1) ∷ (4, credit 2) ∷ (7, credit 3) ∷ [];
  config = queue_config;
}

-- The database refuses batches of one record.
abbrev accepts_two : Map ℕ UserUpdate → Bool
accepts_two [] = true
accepts_two (r ∷ []) = false
accepts_two (r ∷ s ∷ rs) = true

flush_example :
    total (λ r. r.1.uploaded_delta) (flush_queue accepts_two config waiting).records
      + total
          (λ r. r.1.uploaded_delta)
          (accepted config accepts_two (take_batches config waiting).0)
    ≡ total (λ r. r.1.uploaded_delta) waiting.records
unfolding total
flush_example =
    flush_queue-sum config accepts_two (λ u. u.uploaded_delta) u64_max merge_user-uploaded waiting
      (omega arith)

abbrev all_queues : Queues
all_queues = record queues { users = waiting }

abbrev database : ℕ → Database
database flushes = record {
  announces = λ batch. true;
  histories = λ batch. true;
  peers = λ batch. true;
  torrents = λ batch. true;
  unregistered_info_hashes = λ batch. true;
  users = λ batch. true;
}

all_accepted : (flushes : ℕ) → AcceptsAll (database flushes)
all_accepted flushes = record {
  announces = λ batch. refl;
  histories = λ batch. refl;
  peers = λ batch. refl;
  torrents = λ batch. refl;
  unregistered_info_hashes = λ batch. refl;
  users = λ batch. refl;
}

one_flush : Fits config 1 all_queues
unfolding max_batch_size wrapping_mul
one_flush = record {
  announces = omega arith;
  histories = omega arith;
  peers = omega arith;
  torrents = omega arith;
  unregistered_info_hashes = omega arith;
  users = omega arith;
}

shutdown_example :
    ((shut_down config database all_queues).0 ≡ true)
    × (are_not_empty (shut_down config database all_queues).1 ≡ false)
shutdown_example =
    shut_down-empties config database all_accepted 1 all_queues (omega arith) one_flush

shutdown_succeeds : (shut_down config database all_queues).0 ≡ true
shutdown_succeeds =
    (shut_down-empties config database all_accepted 1 all_queues (omega arith) one_flush).0

success_example : are_not_empty (shut_down config database all_queues).1 ≡ false
success_example = shut_down-success config database all_queues shutdown_succeeds

-- The rows of a torrent and of two peers, one of them of no torrent.
abbrev row : ℕ → DbPeer
row torrent_id = record {
  ip_address = some (v4 (10 ∷ 0 ∷ 0 ∷ 1 ∷ []));
  user_id = 2;
  torrent_id = torrent_id;
  port = 6881;
  is_seeder = true;
  is_active = true;
  is_visible = true;
  is_connectable = true;
  updated_at = some 100;
  uploaded = 0;
  downloaded = 0;
  peer_id = replicate 20 0;
}

abbrev torrent_row : DbImportTorrent
torrent_row = record {
  id = 5;
  status = TorrentStatus.approved;
  seeders = 1;
  leechers = 0;
  times_completed = 0;
  download_factor = 100;
  upload_factor = 100;
  is_deleted = false;
}

abbrev rows : Rows
rows = record {
  agents = [];
  torrents = torrent_row ∷ [];
  peers = row 5 ∷ row 6 ∷ [];
  info_hashes = (info_hash, 5) ∷ [];
  users = [];
  passkeys = [];
  ports = [];
  freeleech_tokens = [];
  personal_freeleeches = [];
  featured_torrents = [];
  groups = [];
}

abbrev index : Index
index = record { user_id = 2; peer_id = replicate 20 0 }

abbrev peer : Peer
peer = record {
  ip_address = v4 (10 ∷ 0 ∷ 0 ∷ 1 ∷ []);
  port = 6881;
  is_seeder = true;
  is_active = true;
  is_visible = true;
  is_connectable = true;
  has_sent_completed = false;
  updated_at = 100;
  uploaded = 0;
  downloaded = 0;
}

-- What the rows give; nobody needs the ports here.
abbrev loaded : Stores ℕ
loaded = record {
  agent_blacklist = [];
  connectable_ports = [];
  featured_torrents = [];
  freeleech_tokens = [];
  groups = [];
  infohash2id = (info_hash, 5) ∷ [];
  passkey2id = [];
  personal_freeleeches = [];
  port_blacklist = blacklisted_ports;
  torrents = (5, record (import_torrent torrent_row) { peers = (index, peer) ∷ [] }) ∷ [];
  users = [];
}

rows_load : new_stores config rows ≡ Outcome.ok loaded
unfolding new_stores insert insert_rows insert_all lookup torrent_rows
rows_load = refl

load_example : Linked loaded
load_example = new_stores-Linked config rows loaded (inl refl, tt) rows_load
