-- ===== src/Announce.antt =====
-- `announce` of src/announce.rs: the whole handler, from the request to the answer and the queues.
-- Between the parts it holds locks one after the other; here one announce runs at a time.
pub mod Query
pub mod Swarm
pub mod Request
pub mod Admit
pub mod Answer
pub mod Credit
pub mod Connect
pub mod State
pub mod After
pub mod Effects
pub mod Safety
pub mod Total
pub mod Checks
pub mod Answered
pub mod Written
pub mod Adjusted
pub mod Tallies
pub mod ClientIp
use unit3d_announce.Prelude.{
  ℕ, ◌+◌, ◌≡◌, Bool, true, false, not, ◌&&◌, ◌||◌, Option, none, some, List, [], ◌∷◌, ltb, leb,
  ◌==◌, if◌then◌else◌,
}
use unit3d_announce.Prelude.Int.{ℤ, pos, ◌-ℤ◌, is_nonzero}
use unit3d_announce.Prelude.Eq.{nat_eq, bytes_eq}
use unit3d_announce.Prelude.Word.{u16_max, u32_max, i64_max, saturating_add_signed}
use unit3d_announce.Prelude.Map.{Map, lookup, insert, modify}
use unit3d_announce.Model.{IpAddr, Event, event_eq}
use unit3d_announce.Config.{Config}
use unit3d_announce.Rate.{Float, tick}
use unit3d_announce.Stats.{Stats, Windows, increment_announce_response}
use unit3d_announce.Warning.{AnnounceWarning, connectivity_issue_detected, add}
use unit3d_announce.Error.{AnnounceError}
use unit3d_announce.Store.{Stores}
use unit3d_announce.Store.Peer.{PeerStore}
use unit3d_announce.Store.Torrent.{Torrent}
use unit3d_announce.Store.User.{User, Group}
use unit3d_announce.Queue.{Queue, upsert}
use unit3d_announce.Queue.Updates.{
  PeerIndex, HistoryIndex, UnregisteredInfoHashIndex, pair_eq, PeerUpdate, HistoryUpdate,
  TorrentUpdate, UserUpdate, UnregisteredInfoHashUpdate, AnnounceUpdate, upsert_announces,
  peer_mergeable, history_mergeable, torrent_mergeable, user_mergeable, unregistered_mergeable,
}
use unit3d_announce.Announce.Query.{Announce}
use unit3d_announce.Announce.Swarm.{Result, ok, err, panic, Visit, Change, update_torrent}
use unit3d_announce.Announce.Request.{validate, find_user_id, find_user}
use unit3d_announce.Announce.Admit.{Member, admit, hits_slot_limit}
use unit3d_announce.Announce.Answer.{Part, peer_parts, draws_fit, answer, response}
use unit3d_announce.Announce.Credit.{
  upload_factor, download_factor, is_immune, final_upload_factor, final_download_factor, credited,
}
use unit3d_announce.Announce.Connect.{check_connectivity}
use unit3d_announce.Announce.State.{Queues, App, World, Served}
use unit3d_announce.Announce.After.{finish}

module _ {F : Type 0} ⦃f : Float F⦄ (config : Config F) (w : World F) (r : Request.Request) where
  open r use {queries}

  unfoldable pub visit : Member F → Bool → Visit F
  unfolding hits_slot_limit
  visit member is_connectable = record {
    config = config;
    user_id = member.user_id;
    queries = queries;
    client_ip = r.client_ip;
    is_connectable = is_connectable;
    has_hit_download_slot_limit = hits_slot_limit queries member.user member.group;
    now = w.now;
    max_utc = w.max_utc;
  }

  -- From the peer lists to the factors. The draws of `choose_multiple` panic where they cannot
  -- reserve memory, and `random_range` where the range is empty.
  unfoldable pub serve : Member F → Visit F → Torrent → Result Change → Result (Served F)
  unfolding peer_parts draws_fit answer response upload_factor download_factor
  serve member v torrent (ok change) =
      let parts =
        peer_parts v member.user torrent w.choose_seeds w.choose_leeches change.warnings in
      let interval = w.random_range config.announce_min config.announce_max in
      if draws_fit w.capacity queries.numwant parts && leb config.announce_min config.announce_max
      then ok (record {
        member = member;
        change = change;
        has_requested_seed_list = parts.0.has_requested;
        has_requested_leech_list = parts.1.has_requested;
        upload_factor = upload_factor config member.user member.group torrent;
        download_factor = download_factor config member.user member.group torrent;
        response = response (answer config interval torrent change.warnings parts);
      })
      else panic
  serve member v torrent (err e) = err e
  serve member v torrent panic = panic

  -- The part under the lock, for a torrent that is there: what it hands on, and the torrent.
  unfoldable pub visit_torrent :
      Stores F
      → Bool
      → List AnnounceWarning
      → Torrent
      → Result (Member F)
      → Result (Served F) × Torrent
  unfolding visit update_torrent serve
  visit_torrent stores is_connectable warnings torrent (ok member) =
      let v = visit member is_connectable in
      let (result, updated) = update_torrent v torrent warnings in
      (serve member v updated result, updated)
  visit_torrent stores is_connectable warnings torrent (err e) = (err e, torrent)
  visit_torrent stores is_connectable warnings torrent panic = (panic, torrent)

  -- The upsert for an info hash that is not registered.
  unfoldable pub note_unregistered : Result (User F) → App F → App F
  note_unregistered (ok user) app = record app {
    queues = record app.queues {
      unregistered_info_hashes =
          upsert (queries.info_hash, user.id) (record { created_at = w.now; updated_at = w.now })
            app.queues.unregistered_info_hashes;
    };
  }
  note_unregistered (err e) app = app
  note_unregistered panic app = app

  abbrev pub with_torrent : ℕ → Torrent → App F → App F
  with_torrent torrent_id torrent app = record app {
    stores = record app.stores { torrents = insert torrent_id torrent app.stores.torrents };
  }

  -- The torrent that the id leads to.
  unfoldable pub announce_found :
      ℕ → Bool → List ℕ → Result ℕ → Result (User F) → App F → Torrent → Result (List ℕ) × App F
  unfolding visit_torrent admit finish note_unregistered
  announce_found torrent_id is_connectable user_agent user_id user app torrent =
      let warnings =
        if not is_connectable && config.require_peer_connectivity
        then add [] connectivity_issue_detected
        else [] in
      if torrent.is_deleted
      then (err AnnounceError.torrent_is_deleted, note_unregistered user app)
      else let (result, updated) =
          visit_torrent app.stores is_connectable warnings torrent
            (admit app.stores queries torrent user_id user) in
        finish config w r torrent_id is_connectable user_agent result
          (with_torrent torrent_id updated app)

  -- The torrent with this id is looked up and visited.
  unfoldable pub announce_to :
      ℕ → Bool → List ℕ → Result ℕ → Result (User F) → App F → Result (List ℕ) × App F
  unfolding announce_found
  announce_to torrent_id is_connectable user_agent user_id user app =
      elim (lookup torrent_id app.stores.torrents) [
        | none ↦ (err AnnounceError.torrent_not_found, app)
        | some torrent ↦
            announce_found torrent_id is_connectable user_agent user_id user app torrent
      ]

  -- The connectivity check, then the torrent.
  unfoldable pub announce_connected :
      ℕ → List ℕ → Result ℕ → Result (User F) → App F → Result (List ℕ) × App F
  unfolding announce_to check_connectivity
  announce_connected torrent_id user_agent user_id user app =
      elim (check_connectivity config w.max_utc w.connect_now w.can_connect r.client_ip queries.port
        app.stores.connectable_ports) [
          | ok (is_connectable, ports) ↦
              announce_to torrent_id is_connectable user_agent user_id user
                (record app { stores = record app.stores { connectable_ports = ports } })
          | err e ↦ (err e, app)
          | panic ↦ (panic, app)
        ]

  -- The handler.
  unfoldable pub announce : App F → Result (List ℕ) × App F
  unfolding announce_connected validate find_user_id find_user note_unregistered
  announce app = elim (validate app.stores r) [
    | err e ↦ (err e, app)
    | panic ↦ (panic, app)
    | ok (user_agent, passkey) ↦
        let user_id = find_user_id app.stores passkey in
        let user = find_user app.stores user_id in
        elim (lookup queries.info_hash app.stores.infohash2id) [
          | none ↦ (err AnnounceError.info_hash_not_found, note_unregistered user app)
          | some torrent_id ↦ announce_connected torrent_id user_agent user_id user app
        ]
  ]
