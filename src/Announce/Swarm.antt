-- ===== src/Announce/Swarm.antt =====
-- The part of `announce` in src/announce.rs that updates the torrent under its lock: the peer
-- entry, the deltas, the warnings and the counts.
pub mod Counts
pub mod Seats
pub mod Limits
use unit3d_announce.Prelude.{
  ◌≡◌, refl, ◌⊎◌, inl, inr, ℕ, ◌+◌, ◌-◌, ◌*◌, ◌%◌, Bool, true, false, not, ◌&&◌, ◌||◌, Option, none,
  some, List, [], ◌∷◌, ltb, leb, ◌==◌, if◌then◌else◌,
}
pub use unit3d_announce.Error.Result.{Result, ok, err, panic, ◌>>=◌, ok_or, Result-cases}
use unit3d_announce.Prelude.Int.{ℤ, pos, ◌-ℤ◌}
use unit3d_announce.Prelude.Word.{of_bool, u16_max, u32_max, saturating_add, saturating_add_signed}
use unit3d_announce.Prelude.Map.{lookup, insert, swap_remove}
use unit3d_announce.Model.{IpAddr, Event, event_eq}
use unit3d_announce.Config.{Config}
use unit3d_announce.Warning.{AnnounceWarning, hit_download_slot_limit, rate_limit_exceeded, add}
use unit3d_announce.Error.{AnnounceError}
use unit3d_announce.Store.Peer.{
  Index, Peer, PeerStore, Index-eq, is_included_in_seed_list, is_included_in_leech_list,
}
use unit3d_announce.Store.Torrent.{Torrent}
use unit3d_announce.Announce.Query.{Announce}

-- What the update of the peer reads.
pub record Visit (F : Type 0) : Type 0 where
  pub config : Config F
  pub user_id : ℕ
  pub queries : Announce
  pub client_ip : IpAddr
  pub is_connectable : Bool
  pub has_hit_download_slot_limit : Bool
  pub now : ℕ
  -- The largest time that `chrono` represents; times are nanoseconds from the least one.
  pub max_utc : ℕ

-- What it hands on.
pub record Change : Type 0 where
  pub uploaded_delta : ℕ
  pub downloaded_delta : ℕ
  pub seeder_delta : ℤ
  pub leecher_delta : ℤ
  pub times_completed_delta : ℕ
  pub is_visible : Bool
  pub is_active_after_stop : Bool
  pub warnings : List AnnounceWarning

abbrev pub nanos : ℕ → ℕ
nanos seconds = seconds * 1000000000

-- `checked_add_signed` of a length of time that is not negative.
unfoldable pub checked_add : ℕ → ℕ → ℕ → Option ℕ
checked_add max_utc time duration =
    if leb (time + duration) max_utc then some (time + duration) else none

-- The loop over the peers of a user, with its `break`.
unfoldable pub has_active_peer : ℕ → PeerStore → Bool
has_active_peer user_id [] = false
has_active_peer user_id ((index, peer) ∷ peers) =
    if index.user_id == user_id && peer.is_active then true else has_active_peer user_id peers

-- The loop that counts the active peers of a user in a `u16`: does it exceed the limit?
unfoldable pub exceeds_limit : ℕ → ℕ → ℕ → PeerStore → Bool
exceeds_limit limit user_id peer_count [] = false
exceeds_limit limit user_id peer_count ((index, peer) ∷ peers) =
    let counted = (peer_count + 1) % (u16_max + 1) in
    let rest =
      exceeds_limit limit user_id
        (if index.user_id == user_id && peer.is_active then counted else peer_count) peers in
    if (index.user_id == user_id && peer.is_active) && ltb limit counted then true else rest

-- `a as i32 - b as i32` for the tests of two peers.
unfoldable pub delta : Bool → Bool → ℤ
delta new old = pos (of_bool new) -ℤ pos (of_bool old)

module _ {F : Type 0} (v : Visit F) where
  open v use {config, user_id, queries, now}

  unfoldable pub peer_index : Index
  peer_index = record { user_id = user_id; peer_id = queries.peer_id }

  -- The closure of `and_modify`.
  unfoldable pub modified_peer : Peer → Peer
  modified_peer old =
      let peer = record old {
        ip_address = v.client_ip;
        port = queries.port;
        is_seeder = queries.left == 0;
        is_connectable = v.is_connectable;
      } in
      record peer {
        is_visible = is_included_in_leech_list config peer || not v.has_hit_download_slot_limit;
        is_active = true;
        has_sent_completed = peer.has_sent_completed || event_eq queries.event Event.completed;
        updated_at = now;
        uploaded = queries.uploaded;
        downloaded = queries.downloaded;
      }

  -- The argument of `or_insert`.
  unfoldable pub inserted_peer : Peer
  inserted_peer = record {
    ip_address = v.client_ip;
    port = queries.port;
    is_seeder = queries.left == 0;
    is_active = true;
    is_visible = not v.has_hit_download_slot_limit;
    is_connectable = v.is_connectable;
    has_sent_completed = event_eq queries.event Event.completed;
    updated_at = now;
    uploaded = queries.uploaded;
    downloaded = queries.downloaded;
  }

  -- The client announces again before `announce_min_enforced` seconds have passed, and this is not
  -- its first `completed` event.
  unfoldable pub is_too_early : Peer → Bool
  unfolding checked_add
  is_too_early old =
      elim (checked_add v.max_utc old.updated_at (nanos config.announce_min_enforced)) [
        | none ↦ false
        | some blocked_until ↦ ltb now blocked_until
      ]
      && (not (event_eq queries.event Event.completed) || old.has_sent_completed)

  -- The deltas of uploaded and downloaded bytes against the last announce.
  unfoldable pub restarted : Peer → Bool
  restarted old = ltb queries.uploaded old.uploaded || ltb queries.downloaded old.downloaded

  -- The branch for an event that is not `stopped` and a peer that was there.
  unfoldable pub revisit : Peer → List AnnounceWarning → Change
  revisit old warnings =
      let new = modified_peer old in
      let seen = if new.is_visible then warnings else add warnings hit_download_slot_limit in
      record {
        uploaded_delta = if restarted old then 0 else queries.uploaded - old.uploaded;
        downloaded_delta = if restarted old then 0 else queries.downloaded - old.downloaded;
        seeder_delta =
            delta (is_included_in_seed_list config new) (is_included_in_seed_list config old);
        leecher_delta =
            delta (is_included_in_leech_list config new) (is_included_in_leech_list config old);
        times_completed_delta = of_bool (new.is_seeder && not old.is_seeder);
        is_visible = new.is_visible;
        is_active_after_stop = false;
        warnings = if is_too_early old then add seen rate_limit_exceeded else seen;
      }

  -- The same for a peer that is new.
  unfoldable pub first_visit : List AnnounceWarning → Change
  first_visit warnings = record {
    uploaded_delta = 0;
    downloaded_delta = 0;
    seeder_delta = pos (of_bool (is_included_in_seed_list config inserted_peer));
    leecher_delta = pos (of_bool (is_included_in_leech_list config inserted_peer));
    times_completed_delta = 0;
    is_visible = inserted_peer.is_visible;
    is_active_after_stop = false;
    warnings = if inserted_peer.is_visible then warnings else add warnings hit_download_slot_limit;
  }

  -- The branch for `stopped`, for a peer that was there.
  unfoldable pub stop_visit : Peer → PeerStore → List AnnounceWarning → Change
  stop_visit peer peers warnings = record {
    uploaded_delta = queries.uploaded - peer.uploaded;
    downloaded_delta = queries.downloaded - peer.downloaded;
    seeder_delta = delta false (is_included_in_seed_list config peer);
    leecher_delta = delta false (is_included_in_leech_list config peer);
    times_completed_delta = 0;
    is_visible = false;
    is_active_after_stop = has_active_peer user_id peers;
    warnings = warnings;
  }

  -- `if queries.event == Event::Stopped { … } else { … }`, with the peers that it leaves.
  unfoldable pub update_peers : PeerStore → List AnnounceWarning → Result Change × PeerStore
  update_peers peers warnings =
      if event_eq queries.event Event.stopped
      then elim (lookup peer_index peers) [
        | none ↦ (err AnnounceError.stopped_peer_does_not_exist, peers)
        | some peer ↦
            let rest = swap_remove peer_index peers in (ok (stop_visit peer rest warnings), rest)
      ]
      else elim (lookup peer_index peers) [
        | some old ↦ (ok (revisit old warnings), insert peer_index (modified_peer old) peers)
        | none ↦
            let limit = config.max_peers_per_torrent_per_user in
            let entered = insert peer_index inserted_peer peers in
            if exceeds_limit limit user_id 0 entered
            then (
              err (AnnounceError.peers_per_torrent_per_user_limit limit),
              swap_remove peer_index entered,
            )
            else (ok (first_visit warnings), entered)
      ]

-- The adjustment of the counts of the torrent.
unfoldable pub adjust_counts : Torrent → Change → Torrent
adjust_counts torrent c = record torrent {
  seeders = saturating_add_signed u32_max torrent.seeders c.seeder_delta;
  leechers = saturating_add_signed u32_max torrent.leechers c.leecher_delta;
  times_completed = saturating_add u32_max torrent.times_completed c.times_completed_delta;
}

settle : Torrent → Result Change × PeerStore → Result Change × Torrent
unfolding adjust_counts
settle torrent (ok c, peers) = (ok c, adjust_counts (record torrent { peers = peers }) c)
settle torrent (err e, peers) = (err e, record torrent { peers = peers })
settle torrent (panic, peers) = (panic, record torrent { peers = peers })

-- Both together: an error leaves the torrent with the peers of that branch.
unfoldable pub update_torrent :
    {F : Type 0} → Visit F → Torrent → List AnnounceWarning → Result Change × Torrent
unfolding settle
update_torrent v torrent warnings = settle torrent (update_peers v torrent.peers warnings)
