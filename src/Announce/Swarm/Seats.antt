-- ===== src/Announce/Swarm/Seats.antt =====
-- How an announce moves the peers of one user in the lists of a torrent.
use mathlib.Core.Path.{subst}
use unit3d_announce.Prelude.{
  ℕ, ◌+◌, ◌≤◌, ◌<◌, ◌≡◌, ◌≢◌, ap, Bool, true, false, ◌&&◌, inl, inr, none, some, List, arith,
  Bool-cases, Option-cases, ◌==◌,
}
use unit3d_announce.Prelude.Int.{ℤ, pos}
use unit3d_announce.Prelude.Word.{of_bool, u32_max, saturating_add_signed}
use unit3d_announce.Prelude.Map.{total, lookup, insert, swap_remove}
use unit3d_announce.Prelude.Map.Laws.{total-insert_new, total-insert_old, total-swap_remove}
use unit3d_announce.Model.{Event, event_eq}
use unit3d_announce.Warning.{AnnounceWarning}
use unit3d_announce.Store.Peer.{
  Index, Peer, PeerStore, Index-eq, is_included_in_seed_list, is_included_in_leech_list,
}
use unit3d_announce.Store.Torrent.{Torrent}
use unit3d_announce.Announce.Swarm.{
  Visit, Change, Result, ok, err, panic, delta, peer_index, inserted_peer, revisit, first_visit,
  stop_visit, exceeds_limit, update_peers, update_torrent,
}
use unit3d_announce.Announce.Swarm.Counts.{shift, raise}

-- Whether a peer is one of a user's that passes a test.
abbrev pub seat : (Peer → Bool) → ℕ → Index × Peer → ℕ
seat test u e = of_bool ((e.0.user_id == u) && test e.1)

abbrev pub seats : (Peer → Bool) → ℕ → PeerStore → ℕ
seats test u = total (seat test u)

at_most_one : (b : Bool) → of_bool b ≤ 1
at_most_one b = ground arith

seat_own :
    (test : Peer → Bool) (k : Index) (p : Peer) → seat test k.user_id (k, p) ≡ of_bool (test p)
seat_own test k p = ground arith

seat_other :
    (test : Peer → Bool) (u : ℕ) (k : Index) (p : Peer) → k.user_id ≢ u → seat test u (k, p) ≡ 0
seat_other test u k p h = ground arith

-- The seats of a user move by a difference, on top of those in other torrents, and the seats of
-- other users stay.
pub record Moves (test : Peer → Bool) (user_id : ℕ) (before after : PeerStore) (d : ℤ)
    : Type 0 where
  pub own :
      (base : ℕ)
      → base + seats test user_id before < u32_max
      → saturating_add_signed u32_max (base + seats test user_id before) d
        ≡ base + seats test user_id after
  pub other : (u : ℕ) → user_id ≢ u → seats test u after ≡ seats test u before

module _ (test : Peer → Bool) (k : Index) (peers : PeerStore) where
  insert_old-Moves :
      (new old : Peer)
      → lookup k peers ≡ some old
      → Moves test k.user_id peers (insert k new peers) (delta (test new) (test old))
  insert_old-Moves new old found = record {
    own = λ base room.
        let e = total-insert_old (seat test k.user_id) k new old peers found in
        let n = seat_own test k new in
        let o = seat_own test k old in
        let moved : base + seats test k.user_id (insert k new peers) + of_bool (test old)
            ≡ base + seats test k.user_id peers + of_bool (test new) =
          omega (arith, e, n, o) in
        shift _ _ (test new) (test old) moved (omega (arith, moved, room, at_most_one (test new)));
    other = λ u h. omega (
      arith,
      total-insert_old (seat test u) k new old peers found,
      seat_other test u k new h,
      seat_other test u k old h,
    );
  }

  insert_new-Moves :
      (new : Peer)
      → lookup k peers ≡ none
      → Moves test k.user_id peers (insert k new peers) (pos (of_bool (test new)))
  insert_new-Moves new missing = record {
    own = λ base room.
        let e = total-insert_new (seat test k.user_id) k new peers missing in
        let n = seat_own test k new in
        let moved : base + seats test k.user_id (insert k new peers)
            ≡ base + seats test k.user_id peers + of_bool (test new) =
          omega (arith, e, n) in
        raise _ _ (test new) moved (omega (arith, moved, room, at_most_one (test new)));
    other = λ u h.
        omega
          (arith, total-insert_new (seat test u) k new peers missing, seat_other test u k new h);
  }

  swap_remove-Moves :
      (old : Peer)
      → lookup k peers ≡ some old
      → Moves test k.user_id peers (swap_remove k peers) (delta false (test old))
  swap_remove-Moves old found = record {
    own = λ base room.
        let e = total-swap_remove (seat test k.user_id) k old peers found in
        let o = seat_own test k old in
        let moved : base + seats test k.user_id (swap_remove k peers) + of_bool (test old)
            ≡ base + seats test k.user_id peers + of_bool false =
          omega (arith, e, o) in
        shift _ _ false (test old) moved (omega (arith, moved, room));
    other = λ u h.
        omega (arith, total-swap_remove (seat test u) k old peers found, seat_other test u k old h);
  }

-- What an announce does to the seeds and the leeches of each user.
pub record Moved {F : Type 0} (v : Visit F) (before after : PeerStore) (c : Change) : Type 0 where
  pub seeds : Moves (is_included_in_seed_list v.config) v.user_id before after c.seeder_delta
  pub leeches : Moves (is_included_in_leech_list v.config) v.user_id before after c.leecher_delta

ok_injective : (a b : Change) → Path (Result Change) (ok a) (ok b) → a ≡ b
ok_injective a b h = ap (λ (x : Result Change). elim x [ ok c ↦ c | err e ↦ a | panic ↦ a ]) h

module _ {F : Type 0} (v : Visit F) (t : Torrent) (warnings : List AnnounceWarning)
    (c : Change) where
  open v use {config}

  abbrev HasMoved : Type 0
  HasMoved =
      (update_torrent v t warnings).0 ≡ ok c
      → Moved v t.peers (update_torrent v t warnings).1.peers c

  stop_moves :
      (old : Peer)
      → lookup (peer_index v) t.peers ≡ some old
      → event_eq v.queries.event Event.stopped ≡ true
      → HasMoved
  unfolding update_torrent update_peers stop_visit peer_index
  stop_moves old found stop =
      rw (stop, found)
        (λ h. subst (Moved v t.peers _) (ok_injective _ c h) (record {
          seeds = swap_remove-Moves _ (peer_index v) t.peers old found;
          leeches = swap_remove-Moves _ (peer_index v) t.peers old found;
        }))

  revisit_moves :
      (old : Peer)
      → lookup (peer_index v) t.peers ≡ some old
      → event_eq v.queries.event Event.stopped ≡ false
      → HasMoved
  unfolding update_torrent update_peers revisit peer_index
  revisit_moves old found go =
      rw (go, found)
        (λ h. subst (Moved v t.peers _) (ok_injective _ c h) (record {
          seeds = insert_old-Moves _ (peer_index v) t.peers _ old found;
          leeches = insert_old-Moves _ (peer_index v) t.peers _ old found;
        }))

  first_moves :
      lookup (peer_index v) t.peers ≡ none
      → event_eq v.queries.event Event.stopped ≡ false
      → HasMoved
  unfolding update_torrent update_peers first_visit peer_index
  first_moves missing go =
      elim (Bool-cases (
        exceeds_limit config.max_peers_per_torrent_per_user v.user_id 0
          (insert (peer_index v) (inserted_peer v) t.peers))) [
            | inl over ↦ rw (go, missing, over) (λ h. absurd (ground arith))
            | inr under ↦
                rw (go, missing, under)
                  (λ h. subst (Moved v t.peers _) (ok_injective _ c h) (record {
                    seeds = insert_new-Moves _ (peer_index v) t.peers _ missing;
                    leeches = insert_new-Moves _ (peer_index v) t.peers _ missing;
                  }))
          ]

  -- An accepted announce moves the seats of its user by the deltas, and no others.
  pub update_torrent-Moved :
      (update_torrent v t warnings).0 ≡ ok c
      → Moved v t.peers (update_torrent v t warnings).1.peers c
  unfolding update_torrent update_peers
  update_torrent-Moved = elim (Option-cases (lookup (peer_index v) t.peers)) [
    | inl missing ↦ elim (Bool-cases (event_eq v.queries.event Event.stopped)) [
      | inl stop ↦ rw (stop, missing) (λ h. absurd (ground arith))
      | inr go ↦ first_moves missing go
    ]
    | inr (old, found) ↦ elim (Bool-cases (event_eq v.queries.event Event.stopped)) [
      | inl stop ↦ stop_moves old found stop
      | inr go ↦ revisit_moves old found go
    ]
  ]
