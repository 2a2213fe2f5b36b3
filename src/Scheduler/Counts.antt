-- ===== src/Scheduler/Counts.antt =====
-- `reap` of src/scheduler.rs keeps the counts of a torrent right.
use unit3d_announce.Prelude.{
  ℕ, ◌+◌, ◌≤◌, ◌≡◌, ap, ◌∙◌, Bool, false, ◌&&◌, ◌||◌, [], ◌∷◌, arith, Bool-cases, inl, inr,
}
use unit3d_announce.Prelude.Int.{is_nonzero, pos, ◌-ℤ◌, int_laws}
use unit3d_announce.Prelude.Word.{
  of_bool, i32_max, u32_max, saturating_add_signed, wrapping_decrement,
}
use unit3d_announce.Prelude.Map.{Map, total, retain}
use unit3d_announce.Prelude.Map.Laws.{total-retain}
use unit3d_announce.Config.{Config}
use unit3d_announce.Store.Peer.{
  Index, Peer, PeerStore, Index-eq, is_included_in_seed_list, is_included_in_leech_list,
}
use unit3d_announce.Store.Torrent.{Torrent}
use unit3d_announce.Store.User.{User}
use unit3d_announce.Announce.Swarm.Counts.{count, HasCounts}
use unit3d_announce.Scheduler.{
  is_kept, is_stale, expired, expired_peers, Expiry, expire_peer, expire_peers, expiry,
  reap_torrent,
}

module _ {F : Type 0} (config : Config F) (active_cutoff inactive_cutoff : ℕ) where
  -- How many stale peers pass a test.
  abbrev lost : (Peer → Bool) → PeerStore → ℕ
  lost test = count (λ p. is_stale active_cutoff p && test p)

  -- Both differences, which are so far below 0.
  abbrev Below : Expiry F → ℕ → ℕ → Type 0
  Below e n m = (e.seeder_delta ≡ pos 0 -ℤ pos n) × (e.leecher_delta ≡ pos 0 -ℤ pos m)

  decrement-below :
      (n : ℕ) → n ≤ i32_max → wrapping_decrement (pos 0 -ℤ pos n) ≡ pos 0 -ℤ pos (n + 1)
  unfolding wrapping_decrement ◌-ℤ◌
  decrement-below n h = ground arith

  expire_peer-Below :
      (index : Index) (peer : Peer) (e : Expiry F) (n m : ℕ)
      → Below e n m
      → n + of_bool (is_stale active_cutoff peer && is_included_in_seed_list config peer)
        ≤ i32_max + 1
      → m + of_bool (is_stale active_cutoff peer && is_included_in_leech_list config peer)
        ≤ i32_max + 1
      → Below
          (expire_peer config active_cutoff index peer e)
          (n + of_bool (is_stale active_cutoff peer && is_included_in_seed_list config peer))
          (m + of_bool (is_stale active_cutoff peer && is_included_in_leech_list config peer))
  unfolding expire_peer is_included_in_seed_list is_included_in_leech_list
  expire_peer-Below index peer e n m (a, b) h k =
      ground (arith, decrement-below n, decrement-below m)

  -- While they fit in 32 bits they count what is lost.
  expire_peers-Below :
      (peers : PeerStore) (e : Expiry F) (n m : ℕ)
      → Below e n m
      → n + lost (is_included_in_seed_list config) peers ≤ i32_max + 1
      → m + lost (is_included_in_leech_list config) peers ≤ i32_max + 1
      → Below
          (expire_peers config active_cutoff peers e)
          (n + lost (is_included_in_seed_list config) peers)
          (m + lost (is_included_in_leech_list config) peers)
  unfolding expire_peers total
  expire_peers-Below [] e n m (a, b) h k =
      (a ∙ ap (λ k. pos 0 -ℤ pos k) (omega arith), b ∙ ap (λ k. pos 0 -ℤ pos k) (omega arith))
  expire_peers-Below ((index, peer) ∷ peers) e n m below h k =
      let next = expire_peer-Below index peer e n m below (omega (arith, h)) (omega (arith, k)) in
      let rest =
        expire_peers-Below peers (expire_peer config active_cutoff index peer e) _ _ next
          (omega (arith, h)) (omega (arith, k)) in
      (
        rest.0 ∙ ap (λ k. pos 0 -ℤ pos k) (omega arith),
        rest.1 ∙ ap (λ k. pos 0 -ℤ pos k) (omega arith),
      )

  expire_peers_deltas :
      (peers : PeerStore) (users : Map ℕ (User F))
      → lost (is_included_in_seed_list config) peers ≤ i32_max + 1
      → lost (is_included_in_leech_list config) peers ≤ i32_max + 1
      → Below
          (expire_peers config active_cutoff peers
            (record { users = users; seeder_delta = pos 0; leecher_delta = pos 0 }))
          (lost (is_included_in_seed_list config) peers)
          (lost (is_included_in_leech_list config) peers)
  expire_peers_deltas peers users h k =
      let below =
        expire_peers-Below peers
          (record { users = users; seeder_delta = pos 0; leecher_delta = pos 0 }) 0 0
          (omega int_laws, omega int_laws) (omega (arith, h)) (omega (arith, k)) in
      (
        below.0 ∙ ap (λ k. pos 0 -ℤ pos k) (omega arith),
        below.1 ∙ ap (λ k. pos 0 -ℤ pos k) (omega arith),
      )

  -- Every peer that a test lets pass is in the test's list before or is stale.
  abbrev Leaves : (Peer → Bool) → Type 0
  Leaves test =
      (p : Peer)
      → of_bool (test (expired active_cutoff p)) + of_bool (is_stale active_cutoff p && test p)
        ≡ of_bool (test p)

  seed_list-Leaves : Leaves (is_included_in_seed_list config)
  unfolding is_included_in_seed_list expired
  seed_list-Leaves p = ground arith

  leech_list-Leaves : Leaves (is_included_in_leech_list config)
  unfolding is_included_in_leech_list expired
  leech_list-Leaves p = ground arith

  count-expired_peers :
      (test : Peer → Bool) (peers : PeerStore)
      → Leaves test
      → count test (expired_peers active_cutoff peers) + lost test peers ≡ count test peers
  unfolding total expired_peers
  count-expired_peers test [] leaves = omega arith
  count-expired_peers test ((index, peer) ∷ peers) leaves =
      omega (arith, leaves peer, count-expired_peers test peers leaves)

  abbrev kept : PeerStore → PeerStore
  kept peers = retain (is_kept inactive_cutoff) peers

  seeds-kept :
      (peers : PeerStore)
      → count (is_included_in_seed_list config) (kept peers)
        ≡ count (is_included_in_seed_list config) peers
  unfolding is_kept is_included_in_seed_list
  seeds-kept peers = total-retain _ _ peers (λ k p h. ground arith)

  leeches-kept :
      (peers : PeerStore)
      → count (is_included_in_leech_list config) (kept peers)
        ≡ count (is_included_in_leech_list config) peers
  unfolding is_kept is_included_in_leech_list
  leeches-kept peers = total-retain _ _ peers (λ k p h. ground arith)

  -- The count moves by the delta, and the delta is 0 only if nothing is lost.
  fall :
      (n m lost : ℕ)
      → m + lost ≡ n
      → n ≤ u32_max
      → (saturating_add_signed u32_max n (pos 0 -ℤ pos lost) ≡ m)
        × (is_nonzero (pos 0 -ℤ pos lost) ≡ false → n ≡ m)
  unfolding saturating_add_signed is_nonzero ◌-ℤ◌
  fall n m lost h b = (ground arith, λ z. ground arith)

  module _ (t : Torrent) (users : Map ℕ (User F)) (h : HasCounts config t) where
    abbrev deltas : Expiry F
    deltas = expiry config active_cutoff inactive_cutoff t users

    abbrev left : PeerStore
    left = expired_peers active_cutoff (kept t.peers)

    module _ (few_seeders : t.seeders ≤ i32_max + 1) (few_leechers : t.leechers ≤ i32_max + 1) where
      lost_seeds :
          count (is_included_in_seed_list config) left
            + lost (is_included_in_seed_list config) (kept t.peers)
          ≡ t.seeders
      lost_seeds = omega (
        arith,
        count-expired_peers (is_included_in_seed_list config) (kept t.peers) seed_list-Leaves,
        seeds-kept t.peers,
        h.seeders,
      )

      lost_leeches :
          count (is_included_in_leech_list config) left
            + lost (is_included_in_leech_list config) (kept t.peers)
          ≡ t.leechers
      lost_leeches = omega (
        arith,
        count-expired_peers (is_included_in_leech_list config) (kept t.peers) leech_list-Leaves,
        leeches-kept t.peers,
        h.leechers,
      )

      below :
          Below deltas
            (lost (is_included_in_seed_list config) (kept t.peers))
            (lost (is_included_in_leech_list config) (kept t.peers))
      unfolding expiry
      below =
          expire_peers_deltas (kept t.peers) users (omega (arith, lost_seeds, few_seeders))
            (omega (arith, lost_leeches, few_leechers))

      seeders-left :
          (saturating_add_signed u32_max t.seeders deltas.seeder_delta
            ≡ count (is_included_in_seed_list config) left)
          × (is_nonzero deltas.seeder_delta ≡ false
              → t.seeders ≡ count (is_included_in_seed_list config) left)
      seeders-left = rw (below.0) (
          fall t.seeders (count (is_included_in_seed_list config) left)
            (lost (is_included_in_seed_list config) (kept t.peers)) lost_seeds
            (omega (arith, few_seeders)))

      leechers-left :
          (saturating_add_signed u32_max t.leechers deltas.leecher_delta
            ≡ count (is_included_in_leech_list config) left)
          × (is_nonzero deltas.leecher_delta ≡ false
              → t.leechers ≡ count (is_included_in_leech_list config) left)
      leechers-left = rw (below.1) (
          fall t.leechers (count (is_included_in_leech_list config) left)
            (lost (is_included_in_leech_list config) (kept t.peers)) lost_leeches
            (omega (arith, few_leechers)))

      -- Where the counts of a torrent are right and at most 2 to the 31, so that the differences fit in
      -- an `i32`, they are right after a pass of `reap`.
      pub reap_torrent-HasCounts :
          HasCounts config (reap_torrent config active_cutoff inactive_cutoff t users)
      unfolding reap_torrent
      reap_torrent-HasCounts =
          let (fs, zs) = seeders-left in
          let (fl, zl) = leechers-left in
          elim (Bool-cases (is_nonzero deltas.seeder_delta || is_nonzero deltas.leecher_delta)) [
            | inl some_lost ↦ rw some_lost (record { seeders = fs; leechers = fl })
            | inr none_lost ↦
                rw none_lost (record { seeders = zs (ground arith); leechers = zl (ground arith) })
          ]
