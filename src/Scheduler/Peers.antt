-- ===== src/Scheduler/Peers.antt =====
-- What a pass of `reap` in src/scheduler.rs does to each peer and to each user.
use unit3d_announce.Prelude.{
  leb, ℕ, ◌-◌, ◌≡◌, refl, Bool, true, false, not, ◌&&◌, Option, none, some, [], ◌∷◌, arith,
  Bool-cases, inl, inr, Option-cases, ◌==◌, if◌then◌else◌,
}
use unit3d_announce.Prelude.Eq.{nat_eq}
use unit3d_announce.Prelude.Word.{of_bool}
use unit3d_announce.Prelude.Map.{Map, total, lookup, retain, Distinct}
use unit3d_announce.Prelude.Map.Laws.{lookup-retain, lookup-modify_same, lookup-modify_other}
use unit3d_announce.Config.{Config}
use unit3d_announce.Store.Peer.{Index, Peer, PeerStore, Index-eq, is_included_in_peer_list}
use unit3d_announce.Store.Torrent.{Torrent}
use unit3d_announce.Store.User.{User}
use unit3d_announce.Scheduler.{
  is_kept, is_stale, expired, expired_peers, Expiry, drop_from_user, expire_peer, expire_peers,
  reap_torrent,
}

map_expired : ℕ → Option Peer → Option Peer
map_expired active_cutoff none = none
map_expired active_cutoff (some p) = some (expired active_cutoff p)

kept_of : ℕ → Option Peer → Option Peer
kept_of inactive_cutoff none = none
kept_of inactive_cutoff (some p) = if is_kept inactive_cutoff p then some p else none

lookup-expired_peers :
    (active_cutoff : ℕ) (k : Index) (peers : PeerStore)
    → lookup k (expired_peers active_cutoff peers) ≡ map_expired active_cutoff (lookup k peers)
unfolding lookup expired_peers map_expired
lookup-expired_peers active_cutoff k [] = refl
lookup-expired_peers active_cutoff k ((i, p) ∷ peers) =
    ground (arith, lookup-expired_peers active_cutoff k peers)

lookup-kept :
    (inactive_cutoff : ℕ) (k : Index) (peers : PeerStore)
    → Distinct peers
    → lookup k (retain (is_kept inactive_cutoff) peers) ≡ kept_of inactive_cutoff (lookup k peers)
unfolding kept_of
lookup-kept inactive_cutoff k peers d = elim (Option-cases (lookup k peers)) [
  | inl e ↦ rw (lookup-retain (is_kept inactive_cutoff) k peers d, e) refl
  | inr (p, e) ↦ rw (lookup-retain (is_kept inactive_cutoff) k peers d, e) refl
]

-- What becomes of a peer: one that announced since the cut-off for its state stays as it is; an
-- active one that did not becomes inactive, and an inactive one is forgotten.
abbrev pub fate : ℕ → ℕ → Option Peer → Option Peer
fate active_cutoff inactive_cutoff none = none
fate active_cutoff inactive_cutoff (some p) =
    if p.is_active
    then (if leb active_cutoff p.updated_at then some p else some (record p { is_active = false }))
    else (if leb inactive_cutoff p.updated_at then some p else none)

module _ {F : Type 0} (config : Config F) (active_cutoff inactive_cutoff : ℕ) where
  map_expired-kept_of :
      (before : Option Peer)
      → map_expired active_cutoff (kept_of inactive_cutoff before)
        ≡ fate active_cutoff inactive_cutoff before
  unfolding is_kept expired is_stale map_expired kept_of
  map_expired-kept_of none = refl
  map_expired-kept_of (some p) = ground arith

  pub reap_torrent-peers :
      (t : Torrent) (users : Map ℕ (User F))
      → (reap_torrent config active_cutoff inactive_cutoff t users).peers
        ≡ expired_peers active_cutoff (retain (is_kept inactive_cutoff) t.peers)
  unfolding reap_torrent
  reap_torrent-peers t users = ground arith

  -- In a torrent that holds no key twice, a pass of `reap` leaves a peer that announced since the
  -- cut-off for its state as it is, makes an active one that did not inactive, forgets an inactive
  -- one that did not, and adds none.
  pub lookup-reap_torrent :
      (t : Torrent) (users : Map ℕ (User F)) (k : Index)
      → Distinct t.peers
      → lookup k (reap_torrent config active_cutoff inactive_cutoff t users).peers
        ≡ fate active_cutoff inactive_cutoff (lookup k t.peers)
  lookup-reap_torrent t users k d =
      rw
        (
          reap_torrent-peers t users,
          lookup-expired_peers active_cutoff k (retain (is_kept inactive_cutoff) t.peers),
          lookup-kept inactive_cutoff k t.peers d,
        )
        (map_expired-kept_of (lookup k t.peers))

  -- The stale peers of a user that were in the peer list, seeders or leechers.
  abbrev pub lost_of : ℕ → Bool → PeerStore → ℕ
  lost_of user_id seeding = total (λ e. of_bool (
      (e.0.user_id == user_id)
      && ((if seeding then e.1.is_seeder else not e.1.is_seeder)
          && (is_stale active_cutoff e.1 && is_included_in_peer_list config e.1))))

  -- The user after the loop, by the user before.
  abbrev pub Dropped : ℕ → PeerStore → User F → Option (User F) → Type 0
  Dropped user_id peers user after =
      (u : User F) × (after ≡ some u)
      × (u.num_seeding ≡ user.num_seeding - lost_of user_id true peers)
      × (u.num_leeching ≡ user.num_leeching - lost_of user_id false peers)

  -- One round: another user's peer, and one that is not dropped, leave the user as it is.
  expire_peer-lookup :
      (user_id : ℕ) (index : Index) (peer : Peer) (e : Expiry F) (user : User F)
      → lookup user_id e.users ≡ some user
      → Dropped user_id
          ((index, peer) ∷ [])
          user
          (lookup user_id (expire_peer config active_cutoff index peer e).users)
  unfolding expire_peer drop_from_user total
  expire_peer-lookup user_id index peer e user h =
      elim (Bool-cases (is_stale active_cutoff peer && is_included_in_peer_list config peer)) [
        | inr kept ↦ (user, ground arith, ground arith, ground arith)
        | inl dropped ↦ elim (Bool-cases (index.user_id == user_id)) [
          | inr other ↦
              let same =
                lookup-modify_other index.user_id user_id (drop_from_user config active_cutoff peer)
                  e.users other in
              (user, ground arith, ground arith, ground arith)
          | inl own ↦
              let changed =
                lookup-modify_same index.user_id user_id (drop_from_user config active_cutoff peer)
                  e.users user own h in
              (
                drop_from_user config active_cutoff peer user,
                ground arith,
                ground arith,
                ground arith,
              )
        ]
      ]

  -- After the loop a user has lost what it had stale, one by one and never below 0.
  pub expire_peers-Dropped :
      (user_id : ℕ) (peers : PeerStore) (e : Expiry F) (user : User F)
      → lookup user_id e.users ≡ some user
      → Dropped user_id peers user
          (lookup user_id (expire_peers config active_cutoff peers e).users)
  unfolding expire_peers total
  expire_peers-Dropped user_id [] e user h = (user, h, omega arith, omega arith)
  expire_peers-Dropped user_id ((index, peer) ∷ peers) e user h =
      let (u, a, s, l) = expire_peer-lookup user_id index peer e user h in
      let (u', a', s', l') =
        expire_peers-Dropped user_id peers (expire_peer config active_cutoff index peer e) u a in
      (u', a', omega arith, omega arith)
