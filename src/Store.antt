-- ===== src/Store.antt =====
-- src/store.rs: the stores that the tracker keeps in memory.
pub mod Peer
pub mod Torrent
pub mod User
use unit3d_announce.Prelude.{ℕ, Bool, List}
use unit3d_announce.Prelude.Int.{ℤ}
use unit3d_announce.Prelude.Map.{Map}
use unit3d_announce.Model.{IpAddr}

-- src/store/connectable_port.rs
pub record ConnectablePort : Type 0 where
  pub connectable : Bool
  pub updated_at : ℕ

-- The sets are maps to the unit: src/store/freeleech_token.rs holds pairs of a user and a torrent,
-- src/store/blacklisted_agent.rs prefixes of peer ids.
pub record Stores (F : Type 0) : Type 0 where
  pub agent_blacklist : Map (List ℕ) (Unit {0})
  pub connectable_ports : Map (IpAddr × ℕ) ConnectablePort
  pub featured_torrents : Map ℕ (Unit {0})
  pub freeleech_tokens : Map (ℕ × ℕ) (Unit {0})
  pub groups : Map ℤ User.Group
  pub infohash2id : Map (List ℕ) ℕ
  pub passkey2id : Map (List ℕ) ℕ
  pub personal_freeleeches : Map ℕ (Unit {0})
  pub port_blacklist : Map ℕ (Unit {0})
  pub torrents : Map ℕ Torrent.Torrent
  pub users : Map ℕ (User.User F)
