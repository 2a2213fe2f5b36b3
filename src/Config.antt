-- ===== src/Config.antt =====
-- src/config.rs: the settings.
pub mod Env
pub mod Parts
pub mod Valid
pub mod Reload
use unit3d_announce.Prelude.{ℕ, Bool, Option, List}
use unit3d_announce.Prelude.Int.{ℤ}
use unit3d_announce.Model.{IpAddr}
use unit3d_announce.Rate.{Rate}

pub record Config (F : Type 0) : Type 0 where
  pub flush_interval_milliseconds : ℕ
  pub max_batches_per_flush : ℕ
  pub max_records_per_batch : Option ℕ
  pub numwant_default : ℕ
  pub numwant_max : ℕ
  pub announce_min : ℕ
  pub announce_min_enforced : ℕ
  pub announce_max : ℕ
  pub upload_factor : ℕ
  pub download_factor : ℕ
  pub peer_expiry_interval : ℕ
  pub active_peer_ttl : ℕ
  pub inactive_peer_ttl : ℕ
  pub apikey : List ℕ
  pub listening_ip_address : Option IpAddr
  pub listening_port : Option ℕ
  pub listening_unix_socket : Option (List ℕ)
  pub max_peers_per_torrent_per_user : ℕ
  pub is_connectivity_check_enabled : Bool
  pub connectivity_check_interval : ℤ
  pub require_peer_connectivity : Bool
  pub is_announce_logging_enabled : Bool
  pub reverse_proxy_client_ip_header_name : Option (List ℕ)
  pub user_receive_seed_list_rate_limits : List (Rate F)
  pub user_receive_leech_list_rate_limits : List (Rate F)
  pub donor_immunity_override : Option Bool
  pub donor_upload_factor_override : Option ℕ
  pub donor_download_factor_override : Option ℕ
  pub lifetime_donor_immunity_override : Option Bool
  pub lifetime_donor_upload_factor_override : Option ℕ
  pub lifetime_donor_download_factor_override : Option ℕ
