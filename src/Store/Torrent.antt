-- ===== src/Store/Torrent.antt =====
-- src/store/torrent.rs
use unit3d_announce.Prelude.{ℕ, Bool}
use unit3d_announce.Model.Status.{TorrentStatus}
use unit3d_announce.Store.Peer.{PeerStore}

pub record Torrent : Type 0 where
  pub id : ℕ
  pub status : TorrentStatus
  pub is_deleted : Bool
  pub peers : PeerStore
  pub seeders : ℕ
  pub leechers : ℕ
  pub times_completed : ℕ
  pub download_factor : ℕ
  pub upload_factor : ℕ
