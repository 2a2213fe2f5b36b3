-- ===== src/Announce/Swarm/Counts.antt =====
-- The counts of a torrent are the numbers of its peers in the seed list and in the leech list.
use unit3d_announce.Prelude.{
  ℕ, ◌+◌, ◌≤◌, ◌<◌, ◌≡◌, refl, ap, ◌∙◌, Bool, true, false, inl, inr, none, some, List, arith,
  length, Bool-cases, Option-cases,
}
use unit3d_announce.Prelude.Int.{ℤ, pos, ◌-ℤ◌}
use unit3d_announce.Prelude.Word.{of_bool, u32_max, saturating_add_signed}
use unit3d_announce.Prelude.Map.{total, lookup, insert, swap_remove}
use unit3d_announce.Prelude.Map.Laws.{
  total-insert_new, total-insert_old, total-swap_remove, total-le-length, length-insert,
  swap_remove-insert_new,
}
use unit3d_announce.Model.{Event, event_eq}
use unit3d_announce.Config.{Config}
use unit3d_announce.Error.{AnnounceError}
use unit3d_announce.Warning.{AnnounceWarning}
use unit3d_announce.Store.Peer.{
  Index, Peer, PeerStore, Index-eq, is_included_in_seed_list, is_included_in_leech_list,
}
use unit3d_announce.Store.Torrent.{Torrent}
use unit3d_announce.Announce.Swarm.{
  Visit, Change, Result, err, delta, peer_index, inserted_peer, revisit, first_visit, stop_visit,
  exceeds_limit, update_peers, update_torrent, settle, adjust_counts, panic, ok,
}

-- How many peers pass a test.
abbrev pub count : (Peer → Bool) → PeerStore → ℕ
count test = total (λ e. of_bool (test e.1))

pub record HasCounts {F : Type 0} (config : Config F) (t : Torrent) : Type 0 where
  pub seeders : t.seeders ≡ count (is_included_in_seed_list config) t.peers
  pub leechers : t.leechers ≡ count (is_included_in_leech_list config) t.peers

count-le-length : (test : Peer → Bool) (peers : PeerStore) → count test peers ≤ length peers
count-le-length test peers = total-le-length (λ e. of_bool (test e.1)) peers (λ e. ground arith)

-- A count moved by the difference of two tests.
pub shift :
    (n m : ℕ) (new old : Bool)
    → m + of_bool old ≡ n + of_bool new
    → m ≤ u32_max
    → saturating_add_signed u32_max n (delta new old) ≡ m
unfolding saturating_add_signed delta ◌-ℤ◌
shift n m new old h b = ground arith

pub raise :
    (n m : ℕ) (new : Bool)
    → m ≡ n + of_bool new
    → m ≤ u32_max
    → saturating_add_signed u32_max n (pos (of_bool new)) ≡ m
unfolding saturating_add_signed
raise n m new h b = ground arith

module _ (test : Peer → Bool) (peers : PeerStore) (room : length peers < u32_max) (k : Index) where
  -- What an entry written over another does to a count.
  count-insert_old :
      (new old : Peer)
      → lookup k peers ≡ some old
      → saturating_add_signed u32_max (count test peers) (delta (test new) (test old))
        ≡ count test (insert k new peers)
  count-insert_old new old found =
      shift _ _ (test new) (test old)
        (total-insert_old (λ e. of_bool (test e.1)) k new old peers found)
        (omega (arith, count-le-length test (insert k new peers), length-insert k new peers))

  count-insert_new :
      (new : Peer)
      → lookup k peers ≡ none
      → saturating_add_signed u32_max (count test peers) (pos (of_bool (test new)))
        ≡ count test (insert k new peers)
  count-insert_new new missing =
      raise _ _ (test new) (total-insert_new (λ e. of_bool (test e.1)) k new peers missing)
        (omega (arith, count-le-length test (insert k new peers), length-insert k new peers))

  count-swap_remove :
      (old : Peer)
      → lookup k peers ≡ some old
      → saturating_add_signed u32_max (count test peers) (delta false (test old))
        ≡ count test (swap_remove k peers)
  count-swap_remove old found =
      let e = total-swap_remove (λ e. of_bool (test e.1)) k old peers found in
      shift _ _ false (test old) (omega (arith, e)) (omega (arith, e, count-le-length test peers))

from_counts :
    {n c m : ℕ} (d : ℤ)
    → n ≡ c
    → saturating_add_signed u32_max c d ≡ m
    → saturating_add_signed u32_max n d ≡ m
from_counts d h e = ap (λ n. saturating_add_signed u32_max n d) h ∙ e

module _ {F : Type 0} (v : Visit F) (t : Torrent) (warnings : List AnnounceWarning) where
  open v use {config}

  abbrev update : Result Change × Torrent
  update = update_torrent v t warnings

  module _ (room : length t.peers < u32_max) (h : HasCounts config t) where
    stop_counts :
        (old : Peer)
        → lookup (peer_index v) t.peers ≡ some old
        → event_eq v.queries.event Event.stopped ≡ true
        → HasCounts config update.1
    unfolding update_torrent update_peers stop_visit
    stop_counts old found stop =
        rw (stop, found)
          (record {
            seeders = from_counts _ h.seeders (count-swap_remove _ t.peers room _ old found);
            leechers = from_counts _ h.leechers (count-swap_remove _ t.peers room _ old found);
          })

    revisit_counts :
        (old : Peer)
        → lookup (peer_index v) t.peers ≡ some old
        → event_eq v.queries.event Event.stopped ≡ false
        → HasCounts config update.1
    unfolding update_torrent update_peers revisit
    revisit_counts old found go =
        rw (go, found)
          (record {
            seeders = from_counts _ h.seeders (count-insert_old _ t.peers room _ _ old found);
            leechers = from_counts _ h.leechers (count-insert_old _ t.peers room _ _ old found);
          })

    first_counts :
        lookup (peer_index v) t.peers ≡ none
        → event_eq v.queries.event Event.stopped ≡ false
        → HasCounts config update.1
    unfolding update_torrent update_peers first_visit
    first_counts missing go =
        elim (Bool-cases (
          exceeds_limit config.max_peers_per_torrent_per_user v.user_id 0
            (insert (peer_index v) (inserted_peer v) t.peers))) [
              | inl over ↦
                  rw (go, missing, over, swap_remove-insert_new _ (inserted_peer v) _ missing) h
              | inr under ↦
                  rw (go, missing, under)
                    (record {
                      seeders =
                          from_counts _ h.seeders (count-insert_new _ t.peers room _ _ missing);
                      leechers =
                          from_counts _ h.leechers (count-insert_new _ t.peers room _ _ missing);
                    })
            ]

    -- Where the counts of a torrent are right and there is room for a peer more, they are right
    -- after every announce, whether it starts, goes on, stops or is refused.
    pub update_torrent-HasCounts : HasCounts config update.1
    unfolding update_torrent update_peers
    update_torrent-HasCounts = elim (Option-cases (lookup (peer_index v) t.peers)) [
      | inl missing ↦ elim (Bool-cases (event_eq v.queries.event Event.stopped)) [
        | inl stop ↦ rw (stop, missing) h
        | inr go ↦ first_counts missing go
      ]
      | inr (old, found) ↦ elim (Bool-cases (event_eq v.queries.event Event.stopped)) [
        | inl stop ↦ stop_counts old found stop
        | inr go ↦ revisit_counts old found go
      ]
    ]

  -- An announce that is refused leaves the torrent as it was.
  pub update_torrent-err : {e : AnnounceError} → update.0 ≡ err e → update.1 ≡ t
  unfolding update_torrent update_peers
  update_torrent-err {e} h =
      ground (arith, swap_remove-insert_new (peer_index v) (inserted_peer v) t.peers)

settle-id : (t : Torrent) (x : Result Change × PeerStore) → (settle t x).1.id ≡ t.id
unfolding settle adjust_counts
settle-id t (ok c, peers) = refl
settle-id t (err e, peers) = refl
settle-id t (panic, peers) = refl

pub update_torrent-id :
    {F : Type 0} (v : Visit F) (t : Torrent) (ws : List AnnounceWarning)
    → (update_torrent v t ws).1.id ≡ t.id
unfolding update_torrent
update_torrent-id v t ws = settle-id t (update_peers v t.peers ws)
