-- ===== src/Scheduler.antt =====
-- src/scheduler.rs: stale peers are marked inactive, and later forgotten.
pub mod Counts
pub mod Peers
pub mod Seats
use unit3d_announce.Prelude.{
  ℕ, ◌+◌, ◌-◌, ◌*◌, ◌/◌, ◌%◌, Bool, true, false, not, ◌&&◌, ◌||◌, Option, none, some, List, [], ◌∷◌,
  ltb, leb, ◌==◌, if◌then◌else◌,
}
use unit3d_announce.Prelude.Int.{ℤ, pos, negsuc, ◌-ℤ◌, is_nonzero}
use unit3d_announce.Prelude.Eq.{nat_eq}
use unit3d_announce.Prelude.Outcome.{Outcome, ok, panic, ◌>>=◌}
use unit3d_announce.Prelude.Word.{
  i64_max, u32_max, saturating_add_signed, wrapping_mul, wrapping_decrement,
}
use unit3d_announce.Prelude.Map.{Map, modify, retain}
use unit3d_announce.Config.{Config}
use unit3d_announce.Store.Peer.{Index, Peer, PeerStore, Index-eq, is_included_in_peer_list}
use unit3d_announce.Store.Torrent.{Torrent}
use unit3d_announce.Store.User.{User}
use unit3d_announce.Announce.Swarm.{nanos}
use unit3d_announce.Queue.{Queue, upsert}
use unit3d_announce.Queue.Updates.{TorrentUpdate, torrent_mergeable}

-- `now - Duration::seconds(ttl)`: the conversion to `i64`, `Duration::seconds` and the `unwrap` of
-- `checked_sub_signed` panic out of their ranges.
unfoldable pub cutoff : ℕ → ℕ → Outcome ℕ
cutoff now ttl =
    if leb ttl (i64_max / 1000)
    then (if leb (nanos ttl) now then ok (now - nanos ttl) else panic)
    else panic

-- The argument of `retain`.
unfoldable pub is_kept : ℕ → Peer → Bool
is_kept inactive_cutoff peer = leb inactive_cutoff peer.updated_at || peer.is_active

-- The test of the loop over the peers.
unfoldable pub is_stale : ℕ → Peer → Bool
is_stale active_cutoff peer = ltb peer.updated_at active_cutoff && peer.is_active

-- What the loop makes of a peer.
unfoldable pub expired : ℕ → Peer → Peer
unfolding is_stale
expired active_cutoff peer =
    if is_stale active_cutoff peer then record peer { is_active = false } else peer

unfoldable pub expired_peers : ℕ → PeerStore → PeerStore
expired_peers active_cutoff [] = []
expired_peers active_cutoff ((index, peer) ∷ peers) =
    (index, expired active_cutoff peer) ∷ expired_peers active_cutoff peers

-- What the loop changes besides the peers.
pub record Expiry (F : Type 0) : Type 0 where
  pub users : Map ℕ (User F)
  pub seeder_delta : ℤ
  pub leecher_delta : ℤ

module _ {F : Type 0} (config : Config F) (active_cutoff : ℕ) where
  unfoldable pub drop_from_user : Peer → User F → User F
  drop_from_user peer user =
      if peer.is_seeder
      then record user { num_seeding = user.num_seeding - 1 }
      else record user { num_leeching = user.num_leeching - 1 }

  -- One round of the loop.
  unfoldable pub expire_peer : Index → Peer → Expiry F → Expiry F
  unfolding wrapping_decrement
  expire_peer index peer e =
      if is_stale active_cutoff peer && is_included_in_peer_list config peer
      then record {
        users = modify index.user_id (drop_from_user peer) e.users;
        seeder_delta = if peer.is_seeder then wrapping_decrement e.seeder_delta else e.seeder_delta;
        leecher_delta =
            if peer.is_seeder then e.leecher_delta else wrapping_decrement e.leecher_delta;
      }
      else e

  unfoldable pub expire_peers : PeerStore → Expiry F → Expiry F
  expire_peers [] e = e
  expire_peers ((index, peer) ∷ peers) e = expire_peers peers (expire_peer index peer e)

-- What `reap` changes: the users, and the queue of the torrents.
pub record Reaped (F : Type 0) : Type 0 where
  pub users : Map ℕ (User F)
  pub torrent_updates : Queue ℕ TorrentUpdate

module _ {F : Type 0} (config : Config F) (active_cutoff inactive_cutoff : ℕ) where
  -- The loop over the peers of a torrent that `retain` has kept.
  unfoldable pub expiry : Torrent → Map ℕ (User F) → Expiry F
  expiry torrent users =
      expire_peers config active_cutoff (retain (is_kept inactive_cutoff) torrent.peers)
        (record { users = users; seeder_delta = pos 0; leecher_delta = pos 0 })

  -- The body of `for_each`: the torrent.
  unfoldable pub reap_torrent : Torrent → Map ℕ (User F) → Torrent
  unfolding expiry
  reap_torrent torrent users =
      let e = expiry torrent users in
      let peers = expired_peers active_cutoff (retain (is_kept inactive_cutoff) torrent.peers) in
      if is_nonzero e.seeder_delta || is_nonzero e.leecher_delta
      then record torrent {
        peers = peers;
        seeders = saturating_add_signed u32_max torrent.seeders e.seeder_delta;
        leechers = saturating_add_signed u32_max torrent.leechers e.leecher_delta;
      }
      else record torrent { peers = peers }

  -- The body of `for_each`: the users and the queue.
  unfoldable pub reap_rest : Torrent → Reaped F → Reaped F
  unfolding expiry
  reap_rest torrent r =
      let e = expiry torrent r.users in
      record {
        users = e.users;
        torrent_updates =
            if is_nonzero e.seeder_delta || is_nonzero e.leecher_delta
            then upsert torrent.id
                (record {
                  seeder_delta = e.seeder_delta;
                  leecher_delta = e.leecher_delta;
                  times_completed_delta = 0;
                  balance_delta = pos 0;
                })
                r.torrent_updates
            else r.torrent_updates;
      }

  -- The loop over the torrents, which `rayon` runs in parallel, in the order of the store.
  unfoldable pub reap_torrents : Map ℕ Torrent → Reaped F → Map ℕ Torrent × Reaped F
  unfolding reap_torrent reap_rest
  reap_torrents [] r = ([], r)
  reap_torrents ((id, torrent) ∷ torrents) r =
      let (rest, done) = reap_torrents torrents (reap_rest torrent r) in
      ((id, reap_torrent torrent r.users) ∷ rest, done)

unfoldable pub reap :
    {F : Type 0} → Config F → ℕ → Map ℕ Torrent → Reaped F → Outcome (Map ℕ Torrent × Reaped F)
reap config now torrents r = do
  active_cutoff ← cutoff now config.active_peer_ttl
  inactive_cutoff ← cutoff now config.inactive_peer_ttl
  ok (reap_torrents config active_cutoff inactive_cutoff torrents r)

-- The tests of `handle` at a tick of its counter, a `u64`; a remainder by 0 panics.
unfoldable pub divides : ℕ → ℕ → Outcome Bool
divides period counter = if period == 0 then panic else ok (counter % period == 0)

unfoldable pub flush_due : {F : Type 0} → Config F → ℕ → Outcome Bool
unfolding divides
flush_due config counter = divides config.flush_interval_milliseconds counter

unfoldable pub reap_due : {F : Type 0} → Config F → ℕ → Outcome Bool
unfolding divides wrapping_mul
reap_due config counter = divides (wrapping_mul config.peer_expiry_interval 1000) counter
