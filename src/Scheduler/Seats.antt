-- ===== src/Scheduler/Seats.antt =====
-- `reap` of src/scheduler.rs and the counts of the users over all torrents.
use unit3d_announce.Prelude.{
  ℕ, ◌+◌, ◌≡◌, refl, sym, ap, ◌∙◌, true, false, ◌&&◌, none, some, [], ◌∷◌, arith, Bool-cases,
  Option-cases, inl, inr,
}
use mathlib.Core.Path.{subst}
use mathlib.Core.Option.{some-injective, some-ne-none}
use unit3d_announce.Prelude.Int.{pos}
use unit3d_announce.Prelude.Eq.{nat_eq}
use unit3d_announce.Prelude.Map.{Map, total, lookup, retain}
use unit3d_announce.Prelude.Map.Laws.{total-retain, lookup-modify_absent}
use unit3d_announce.Config.{Config}
use unit3d_announce.Store.Peer.{
  Index-eq, PeerStore, is_included_in_peer_list, is_included_in_seed_list,
  is_included_in_leech_list,
}
use unit3d_announce.Store.Torrent.{Torrent}
use unit3d_announce.Store.User.{User}
use unit3d_announce.Announce.Swarm.Seats.{seats}
use unit3d_announce.Announce.Tallies.{tally, Tallied}
use unit3d_announce.Scheduler.{
  is_kept, is_stale, expired, expired_peers, Expiry, drop_from_user, expire_peer, expire_peers,
  Reaped, expiry, reap_torrent, reap_rest, reap_torrents,
}
use unit3d_announce.Scheduler.Peers.{lost_of, expire_peers-Dropped, reap_torrent-peers}

module _ {F : Type 0} (config : Config F) (active_cutoff inactive_cutoff : ℕ) where
  abbrev kept : PeerStore → PeerStore
  kept peers = retain (is_kept inactive_cutoff) peers

  seeds_left :
      (id : ℕ) (peers : PeerStore)
      → seats (is_included_in_seed_list config) id (expired_peers active_cutoff peers)
          + lost_of config active_cutoff inactive_cutoff id true peers
        ≡ seats (is_included_in_seed_list config) id peers
  unfolding total expired_peers expired is_stale is_included_in_seed_list is_included_in_peer_list
  seeds_left id [] = refl
  seeds_left id ((index, p) ∷ peers) = ground (arith, seeds_left id peers)

  leeches_left :
      (id : ℕ) (peers : PeerStore)
      → seats (is_included_in_leech_list config) id (expired_peers active_cutoff peers)
          + lost_of config active_cutoff inactive_cutoff id false peers
        ≡ seats (is_included_in_leech_list config) id peers
  unfolding total expired_peers expired is_stale is_included_in_leech_list is_included_in_peer_list
  leeches_left id [] = refl
  leeches_left id ((index, p) ∷ peers) = ground (arith, leeches_left id peers)

  seeds_kept :
      (id : ℕ) (peers : PeerStore)
      → seats (is_included_in_seed_list config) id (kept peers)
        ≡ seats (is_included_in_seed_list config) id peers
  unfolding is_kept is_included_in_seed_list is_included_in_peer_list
  seeds_kept id peers = total-retain _ _ peers (λ k p h. ground arith)

  leeches_kept :
      (id : ℕ) (peers : PeerStore)
      → seats (is_included_in_leech_list config) id (kept peers)
        ≡ seats (is_included_in_leech_list config) id peers
  unfolding is_kept is_included_in_leech_list is_included_in_peer_list
  leeches_kept id peers = total-retain _ _ peers (λ k p h. ground arith)

  -- No user appears.
  expire_peers-none :
      (id : ℕ) (peers : PeerStore) (e : Expiry F)
      → lookup id e.users ≡ none
      → lookup id (expire_peers config active_cutoff peers e).users ≡ none
  unfolding expire_peers expire_peer
  expire_peers-none id [] e h = h
  expire_peers-none id ((index, p) ∷ peers) e h =
      expire_peers-none id peers (expire_peer config active_cutoff index p e)
        (elim (Bool-cases (is_stale active_cutoff p && is_included_in_peer_list config p)) [
          | inl lost ↦ rw lost (
              lookup-modify_absent index.user_id id (drop_from_user config active_cutoff p) e.users
                h)
          | inr here ↦ rw here h
        ])

  reap_torrents-none :
      (id : ℕ) (torrents : Map ℕ Torrent) (r : Reaped F)
      → lookup id r.users ≡ none
      → lookup id (reap_torrents config active_cutoff inactive_cutoff torrents r).1.users ≡ none
  unfolding reap_torrents reap_rest expiry
  reap_torrents-none id [] r h = h
  reap_torrents-none id ((k, t) ∷ torrents) r h =
      reap_torrents-none id torrents (reap_rest config active_cutoff inactive_cutoff t r)
        (expire_peers-none id (kept t.peers) _ h)

  -- The counts of a user, on top of the peers in torrents that have been visited.
  abbrev Counts : ℕ → Map ℕ Torrent → ℕ → ℕ → User F → Type 0
  Counts id torrents seeds leeches user =
      (user.num_seeding ≡ seeds + tally (is_included_in_seed_list config) id torrents)
      × (user.num_leeching ≡ leeches + tally (is_included_in_leech_list config) id torrents)

  reap_torrents-Counts :
      (id : ℕ) (torrents : Map ℕ Torrent) (r : Reaped F) (seeds leeches : ℕ) (user : User F)
      → lookup id r.users ≡ some user
      → Counts id torrents seeds leeches user
      → (u : User F) × (lookup id
            (reap_torrents config active_cutoff inactive_cutoff torrents r).1.users
          ≡ some u)
        × Counts id
            (reap_torrents config active_cutoff inactive_cutoff torrents r).0
            seeds
            leeches
            u
  unfolding reap_torrents reap_rest expiry total
  reap_torrents-Counts id [] r seeds leeches user h c = (user, h, c)
  reap_torrents-Counts id ((k, t) ∷ torrents) r seeds leeches user h (c, d) =
      let (u, there, s, l) =
        expire_peers-Dropped config active_cutoff inactive_cutoff id (kept t.peers)
          (record { users = r.users; seeder_delta = pos 0; leecher_delta = pos 0 }) user h in
      let t' = reap_torrent config active_cutoff inactive_cutoff t r.users in
      let peers = reap_torrent-peers config active_cutoff inactive_cutoff t r.users in
      let ps = ap (seats (is_included_in_seed_list config) id) peers in
      let pl = ap (seats (is_included_in_leech_list config) id) peers in
      let sl = seeds_left id (kept t.peers) in
      let sk = seeds_kept id t.peers in
      let ll = leeches_left id (kept t.peers) in
      let lk = leeches_kept id t.peers in
      let (u', at, (s', l')) =
        reap_torrents-Counts id torrents (reap_rest config active_cutoff inactive_cutoff t r)
          (seeds + seats (is_included_in_seed_list config) id t'.peers)
          (leeches + seats (is_included_in_leech_list config) id t'.peers) u there
          (omega (arith, ps, sl, sk, s, c), omega (arith, pl, ll, lk, l, d)) in
      (u', at, (omega (arith, s'), omega (arith, l')))

  left-Counts :
      (id : ℕ) (torrents : Map ℕ Torrent) (r : Reaped F) (user : User F)
      → Tallied config torrents r.users
      → lookup id (reap_torrents config active_cutoff inactive_cutoff torrents r).1.users
        ≡ some user
      → Counts id (reap_torrents config active_cutoff inactive_cutoff torrents r).0 0 0 user
  left-Counts id torrents r user h there = elim (Option-cases (lookup id r.users)) [
    | inl missing ↦
        absurd (some-ne-none user (sym there ∙ reap_torrents-none id torrents r missing))
    | inr (old, found) ↦
        let (u, at, c) =
          reap_torrents-Counts id torrents r 0 0 old found
            (omega (arith, h.seeding id old found), omega (arith, h.leeching id old found)) in
        subst (Counts id (reap_torrents config active_cutoff inactive_cutoff torrents r).0 0 0)
          (some-injective u user (sym at ∙ there)) c
  ]

  -- Where the counts of every user are the numbers of its listed seeds and leeches over all
  -- torrents, they are again after a pass of `reap` over the torrents.
  pub reap_torrents-Tallied :
      (torrents : Map ℕ Torrent) (r : Reaped F)
      → Tallied config torrents r.users
      → Tallied config
          (reap_torrents config active_cutoff inactive_cutoff torrents r).0
          (reap_torrents config active_cutoff inactive_cutoff torrents r).1.users
  reap_torrents-Tallied torrents r h =
      let after = reap_torrents config active_cutoff inactive_cutoff torrents r in
      let counts = λ (id : ℕ) (user : User F) (there : lookup id after.1.users ≡ some user).
        left-Counts id torrents r user h there in
      record {
        seeding = λ id user there. let c = (counts id user there).0 in omega (arith, c);
        leeching = λ id user there. let c = (counts id user there).1 in omega (arith, c);
      }
