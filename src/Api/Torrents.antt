-- ===== src/Api/Torrents.antt =====
-- src/api/torrent.rs
pub mod Linked
pub mod Removed
use unit3d_announce.Prelude.{ℕ, Bool, true, Option, none, some, List, []}
use unit3d_announce.Prelude.Eq.{nat_eq, bytes_eq}
use unit3d_announce.Prelude.Map.{lookup, insert, modify, swap_remove}
use unit3d_announce.Prelude.Outcome.{Outcome}
use unit3d_announce.Model.Hash.{info_hash_from_str}
use unit3d_announce.Model.Status.{TorrentStatus}
use unit3d_announce.Store.{Stores}
use unit3d_announce.Store.Peer.{PeerStore}
use unit3d_announce.Store.Torrent.{Torrent}
use unit3d_announce.Announce.State.{App}
use unit3d_announce.Api.{Reply, success, bad_request, panicked}

pub record ApiInsertTorrent : Type 0 where
  pub id : ℕ
  pub status : TorrentStatus
  pub info_hash : List ℕ
  pub is_deleted : Bool
  pub seeders : ℕ
  pub leechers : ℕ
  pub times_completed : ℕ
  pub download_factor : ℕ
  pub upload_factor : ℕ

-- `old_torrent.unwrap_or_default().peers`
unfoldable pub peers_of : Option Torrent → PeerStore
peers_of none = []
peers_of (some torrent) = torrent.peers

-- The torrent that a request writes, with the peers that were known.
unfoldable pub torrent_with : ApiInsertTorrent → PeerStore → Torrent
torrent_with torrent peers = record {
  id = torrent.id;
  status = torrent.status;
  is_deleted = torrent.is_deleted;
  peers = peers;
  seeders = torrent.seeders;
  leechers = torrent.leechers;
  times_completed = torrent.times_completed;
  download_factor = torrent.download_factor;
  upload_factor = torrent.upload_factor;
}

-- `torrent.is_deleted = true`
abbrev pub deleted : Torrent → Torrent
deleted torrent = record torrent { is_deleted = true }

module _ {F : Type 0} where
  -- `upsert`, where the info hash is one.
  unfoldable pub put_torrent : ApiInsertTorrent → List ℕ → Stores F → Stores F
  unfolding peers_of torrent_with
  put_torrent torrent info_hash stores =
      let peers = peers_of (lookup torrent.id stores.torrents) in
      record stores {
        torrents =
            insert torrent.id (torrent_with torrent peers) (swap_remove torrent.id stores.torrents);
        infohash2id = insert info_hash torrent.id stores.infohash2id;
      }

  unfoldable pub upsert_torrent : ApiInsertTorrent → App F → Reply × App F
  unfolding put_torrent
  upsert_torrent torrent app = elim (info_hash_from_str torrent.info_hash) [
    | Outcome.ok info_hash ↦
        (success, record app { stores = put_torrent torrent info_hash app.stores })
    | Outcome.bail ↦ (bad_request, app)
    | Outcome.panic ↦ (panicked, app)
  ]

  unfoldable pub destroy_torrent : ℕ → App F → Reply × App F
  destroy_torrent id app = elim (lookup id app.stores.torrents) [
    | some torrent ↦ (
      success,
      record app {
        stores = record app.stores { torrents = modify id deleted app.stores.torrents };
      },
    )
    | none ↦ (bad_request, app)
  ]

  -- `show`: no torrent is NOT_FOUND.
  unfoldable pub show_torrent : ℕ → App F → Option Torrent
  show_torrent id app = lookup id app.stores.torrents
