-- ===== src/Store/Peer.antt =====
-- src/store/peer.rs
use unit3d_announce.Prelude.{ℕ, ◌≡◌, ◌↔◌, Bool, true, ◌&&◌, not, List, arith, ◌==◌, if◌then◌else◌}
use unit3d_announce.Prelude.Eq.{Eq, list_beq, list_beq_iff}
use unit3d_announce.Prelude.Map.{Map}
use unit3d_announce.Model.{IpAddr}
use unit3d_announce.Config.{Config}

-- The key of a peer in its torrent.
pub record Index : Type 0 where
  pub user_id : ℕ
  pub peer_id : List ℕ

pub record Peer : Type 0 where
  pub ip_address : IpAddr
  pub port : ℕ
  pub is_seeder : Bool
  pub is_active : Bool
  pub is_visible : Bool
  pub is_connectable : Bool
  pub has_sent_completed : Bool
  pub updated_at : ℕ
  pub uploaded : ℕ
  pub downloaded : ℕ

abbrev pub PeerStore : Type 0
PeerStore = Map Index Peer

unfoldable pub index_eq : Index → Index → Bool
index_eq i j = i.user_id == j.user_id && list_beq i.peer_id j.peer_id

pub index_eq_iff : (i j : Index) → (index_eq i j ≡ true) ↔ (i ≡ j)
unfolding index_eq
index_eq_iff i j = ground (arith, list_beq_iff i.peer_id j.peer_id)

instance abbrev pub Index-eq : Eq Index
Index-eq = record { beq = index_eq; beq_iff = index_eq_iff }

module _ {F : Type 0} (config : Config F) where
  unfoldable pub is_included_in_peer_list : Peer → Bool
  is_included_in_peer_list p =
      if config.require_peer_connectivity
      then p.is_active && p.is_visible && p.is_connectable
      else p.is_active && p.is_visible

  unfoldable pub is_included_in_seed_list : Peer → Bool
  unfolding is_included_in_peer_list
  is_included_in_seed_list p = p.is_seeder && is_included_in_peer_list p

  unfoldable pub is_included_in_leech_list : Peer → Bool
  unfolding is_included_in_peer_list
  is_included_in_leech_list p = not p.is_seeder && is_included_in_peer_list p
