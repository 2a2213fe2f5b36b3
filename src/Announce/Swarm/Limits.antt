-- ===== src/Announce/Swarm/Limits.antt =====
-- The limit on the active peers of a user on a torrent.
use unit3d_announce.Prelude.{
  ℕ, ◌+◌, ◌≤◌, ◌<◌, ◌≡◌, Bool, false, ◌&&◌, none, some, List, [], ◌∷◌, arith, ◌==◌, ltb, leb,
  if◌then◌else◌,
}
use unit3d_announce.Prelude.Word.{of_bool, u16_max}
use unit3d_announce.Prelude.Map.{total, lookup, insert}
use unit3d_announce.Prelude.Map.Laws.{total-insert_new, total-insert_old}
use unit3d_announce.Model.{Event, event_eq}
use unit3d_announce.Error.{peers_per_torrent_per_user_limit}
use unit3d_announce.Warning.{AnnounceWarning}
use unit3d_announce.Store.Peer.{Index, Peer, PeerStore, Index-eq}
use unit3d_announce.Store.Torrent.{Torrent}
use unit3d_announce.Announce.Swarm.{
  Visit, ok, err, peer_index, inserted_peer, exceeds_limit, first_visit, revisit, modified_peer,
  update_peers, update_torrent,
}

abbrev pub is_active_of : ℕ → Index × Peer → Bool
is_active_of user_id (index, peer) = index.user_id == user_id && peer.is_active

-- The number of active peers of a user.
abbrev pub active_peers : ℕ → PeerStore → ℕ
active_peers user_id = total (λ e. of_bool (is_active_of user_id e))

exceeds_limit-ltb :
    (limit user_id n : ℕ) (peers : PeerStore)
    → limit < u16_max
    → n ≤ limit
    → exceeds_limit limit user_id n peers ≡ ltb limit (n + active_peers user_id peers)
unfolding exceeds_limit total
exceeds_limit-ltb limit user_id n [] h b = ground arith
exceeds_limit-ltb limit user_id n ((index, peer) ∷ peers) h b = ground (
  arith,
  exceeds_limit-ltb limit user_id n peers h,
  exceeds_limit-ltb limit user_id (n + 1) peers h,
)

module _ {F : Type 0} (v : Visit F) (t : Torrent) (warnings : List AnnounceWarning) where
  open v use {config, user_id, queries}

  entered_active :
      lookup (peer_index v) t.peers ≡ none
      → active_peers user_id (insert (peer_index v) (inserted_peer v) t.peers)
        ≡ active_peers user_id t.peers + 1
  unfolding peer_index inserted_peer
  entered_active missing = ground (
    arith,
    total-insert_new (λ e. of_bool (is_active_of user_id e)) (peer_index v) (inserted_peer v)
        t.peers missing,
  )

  entered_exceeds :
      lookup (peer_index v) t.peers ≡ none
      → config.max_peers_per_torrent_per_user < u16_max
      → exceeds_limit config.max_peers_per_torrent_per_user user_id 0
          (insert (peer_index v) (inserted_peer v) t.peers)
        ≡ leb config.max_peers_per_torrent_per_user (active_peers user_id t.peers)
  entered_exceeds missing small = ground (
    arith,
    entered_active missing,
    exceeds_limit-ltb config.max_peers_per_torrent_per_user user_id 0
        (insert (peer_index v) (inserted_peer v) t.peers) small,
  )

  -- A peer that is new to the torrent is refused exactly when its user has as many active peers
  -- there as the limit allows, for every limit below the largest number of 16 bits.
  pub update_torrent_new :
      lookup (peer_index v) t.peers ≡ none
      → event_eq queries.event Event.stopped ≡ false
      → config.max_peers_per_torrent_per_user < u16_max
      → (update_torrent v t warnings).0 ≡ (
          if leb config.max_peers_per_torrent_per_user (active_peers user_id t.peers)
          then err (peers_per_torrent_per_user_limit config.max_peers_per_torrent_per_user)
          else ok (first_visit v warnings))
  unfolding update_torrent update_peers
  update_torrent_new missing go small =
      rw (go, missing, entered_exceeds missing small) (ground arith)

  -- A peer that the torrent knows is never refused, whatever the limit: if it was inactive its user
  -- has one active peer more.
  pub update_torrent_known :
      (old : Peer)
      → lookup (peer_index v) t.peers ≡ some old
      → event_eq queries.event Event.stopped ≡ false
      → ((update_torrent v t warnings).0 ≡ ok (revisit v old warnings))
        × (active_peers user_id (update_torrent v t warnings).1.peers + of_bool old.is_active
            ≡ active_peers user_id t.peers + 1)
  unfolding update_torrent update_peers peer_index modified_peer
  update_torrent_known old found go = (
    rw (go, found),
    rw (go, found)
        (ground (
          arith,
          total-insert_old (λ e. of_bool (is_active_of user_id e)) (peer_index v)
              (modified_peer v old) old t.peers found,
        )),
  )
