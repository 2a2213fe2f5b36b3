-- ===== src/Announce/After.antt =====
-- What `announce` of src/announce.rs does after the torrent's lock is released: the counts of the
-- user and the queues.
pub mod Users
use unit3d_announce.Prelude.{
  ℕ, Bool, true, false, not, ◌||◌, Option, none, some, List, [], ◌∷◌, leb, ◌==◌, if◌then◌else◌,
}
use unit3d_announce.Prelude.Int.{pos, ◌-ℤ◌, is_nonzero}
use unit3d_announce.Prelude.Eq.{nat_eq, bytes_eq}
use unit3d_announce.Prelude.Word.{u16_max, u32_max, i64_max, saturating_add_signed}
use unit3d_announce.Prelude.Map.{Map, lookup, modify}
use unit3d_announce.Model.{Event, event_eq}
use unit3d_announce.Config.{Config}
use unit3d_announce.Prelude.Outcome.{Outcome}
use unit3d_announce.Rate.{Float, Rate, tick}
use unit3d_announce.Stats.{increment_announce_response}
use unit3d_announce.Store.{Stores}
use unit3d_announce.Store.User.{User}
use unit3d_announce.Queue.{upsert}
use unit3d_announce.Queue.Updates.{
  pair_eq, PeerUpdate, HistoryUpdate, TorrentUpdate, AnnounceUpdate, upsert_announces,
  peer_mergeable, history_mergeable, torrent_mergeable, user_mergeable, unregistered_mergeable,
}
use unit3d_announce.Announce.Swarm.{Result, ok, err, panic, Change}
use unit3d_announce.Announce.Request.{Request}
use unit3d_announce.Announce.Credit.{
  is_immune, final_upload_factor, final_download_factor, credited,
}
use unit3d_announce.Announce.State.{Queues, App, World, Served}

-- `x.try_into().unwrap_or(i64::MAX)`, and the same for `u16`.
unfoldable pub clamped : ℕ → ℕ → ℕ
clamped top x = if leb x top then x else top

module _ {F : Type 0} ⦃f : Float F⦄ (config : Config F) (w : World F) (r : Request) where
  open r use {queries}

  -- A collection of rates, which is ticked if its peer list has been requested.
  unfoldable pub ticked : Bool → List (Rate F) → Outcome (List (Rate F))
  unfolding tick
  ticked has_requested rates = if has_requested then tick w.rates_now rates else Outcome.ok rates

  -- The ticks of the closure of `and_modify`: whether they return, and the user.
  unfoldable pub tick_leech_list : Outcome (List (Rate F)) → User F → Bool × User F
  tick_leech_list (Outcome.ok rates) user = (true, record user { receive_leech_list_rates = rates })
  tick_leech_list Outcome.bail user = (false, user)
  tick_leech_list Outcome.panic user = (false, user)

  unfoldable pub tick_seed_list : Bool → Outcome (List (Rate F)) → User F → Bool × User F
  unfolding ticked tick_leech_list
  tick_seed_list has_requested_leech_list (Outcome.ok rates) user =
      tick_leech_list (ticked has_requested_leech_list user.receive_leech_list_rates)
        (record user { receive_seed_list_rates = rates })
  tick_seed_list has_requested_leech_list Outcome.bail user = (false, user)
  tick_seed_list has_requested_leech_list Outcome.panic user = (false, user)

  -- The closure of `and_modify` on the user: whether it returns, and the user.
  unfoldable pub modified_user : Served F → User F → Bool × User F
  unfolding ticked tick_seed_list
  modified_user s user =
      tick_seed_list s.has_requested_leech_list
        (ticked s.has_requested_seed_list user.receive_seed_list_rates)
        (record user {
          num_seeding = saturating_add_signed u32_max user.num_seeding s.change.seeder_delta;
          num_leeching = saturating_add_signed u32_max user.num_leeching s.change.leecher_delta;
        })

  -- Whether the closure returns, where there is a user to call it on.
  unfoldable pub returns : Served F → Option (User F) → Bool
  unfolding modified_user
  returns s none = true
  returns s (some user) = (modified_user s user).0

  unfoldable pub update_users : Served F → Map ℕ (User F) → Bool × Map ℕ (User F)
  unfolding modified_user returns
  update_users s users =
      if is_nonzero s.change.seeder_delta
        || is_nonzero s.change.leecher_delta
        || s.has_requested_seed_list
        || s.has_requested_leech_list
      then (
        returns s (lookup s.member.user_id users),
        modify s.member.user_id (λ user. (modified_user s user).1) users,
      )
      else (true, users)

  unfoldable pub peer_update : Bool → List ℕ → Served F → PeerUpdate
  peer_update is_connectable user_agent s = record {
    ip = r.client_ip;
    port = queries.port;
    agent = user_agent;
    uploaded = queries.uploaded;
    downloaded = queries.downloaded;
    is_active = not (event_eq queries.event Event.stopped);
    is_seeder = queries.left == 0;
    is_visible = s.change.is_visible;
    left = queries.left;
    created_at = w.now;
    updated_at = w.now;
    connectable = is_connectable;
  }

  unfoldable pub history_update : List ℕ → Served F → ℕ → ℕ → HistoryUpdate
  unfolding is_immune
  history_update user_agent s credited_uploaded credited_downloaded = record {
    user_agent = user_agent;
    is_active = not (event_eq queries.event Event.stopped) || s.change.is_active_after_stop;
    is_seeder = queries.left == 0;
    is_immune = is_immune config s.member.user s.member.group;
    uploaded = queries.uploaded;
    downloaded = queries.downloaded;
    uploaded_delta = s.change.uploaded_delta;
    downloaded_delta = s.change.downloaded_delta;
    credited_uploaded_delta = credited_uploaded;
    credited_downloaded_delta = credited_downloaded;
    completed_at = if event_eq queries.event Event.completed then some w.now else none;
    created_at = w.now;
    updated_at = w.now;
  }

  unfoldable pub torrent_update : Change → TorrentUpdate
  unfolding clamped
  torrent_update c = record {
    seeder_delta = c.seeder_delta;
    leecher_delta = c.leecher_delta;
    times_completed_delta = c.times_completed_delta;
    balance_delta =
        pos (clamped i64_max c.uploaded_delta) -ℤ pos (clamped i64_max c.downloaded_delta);
  }

  unfoldable pub announce_update : ℕ → Served F → AnnounceUpdate
  unfolding clamped
  announce_update torrent_id s = record {
    user_id = s.member.user_id;
    torrent_id = torrent_id;
    uploaded = queries.uploaded;
    downloaded = queries.downloaded;
    left = queries.left;
    corrupt = queries.corrupt;
    peer_id = queries.peer_id;
    port = queries.port;
    numwant = clamped u16_max queries.numwant;
    created_at = w.now;
    event = queries.event;
    key = queries.key;
  }

  -- What is put in the queues after the lock is released.
  unfoldable pub enqueue : ℕ → Bool → List ℕ → Served F → Stores F → Queues → Queues
  unfolding final_upload_factor final_download_factor credited peer_update history_update
      torrent_update announce_update
  enqueue torrent_id is_connectable user_agent s stores q =
      let user_id = s.member.user_id in
      let c = s.change in
      let credited_uploaded =
        credited (final_upload_factor stores user_id torrent_id s.upload_factor) c.uploaded_delta in
      let credited_downloaded =
        credited (final_download_factor stores user_id torrent_id s.download_factor)
          c.downloaded_delta in
      record q {
        peers =
            upsert (user_id, (torrent_id, queries.peer_id))
              (peer_update is_connectable user_agent s) q.peers;
        histories =
            upsert (user_id, torrent_id)
              (history_update user_agent s credited_uploaded credited_downloaded) q.histories;
        users =
            if not (credited_uploaded == 0) || not (credited_downloaded == 0)
            then upsert user_id
                (record {
                  uploaded_delta = credited_uploaded;
                  downloaded_delta = credited_downloaded;
                })
                q.users
            else q.users;
        torrents =
            if is_nonzero c.seeder_delta
              || is_nonzero c.leecher_delta
              || not (c.times_completed_delta == 0)
              || not (c.uploaded_delta == 0)
              || not (c.downloaded_delta == 0)
            then upsert torrent_id (torrent_update c) q.torrents
            else q.torrents;
        announces =
            if config.is_announce_logging_enabled
            then upsert_announces q.announces (announce_update torrent_id s ∷ [])
            else q.announces;
      }

  -- After the users: the queues, the statistics and the answer, unless a tick has panicked.
  unfoldable pub conclude : ℕ → Bool → List ℕ → Served F → App F → Bool → Result (List ℕ) × App F
  unfolding enqueue increment_announce_response
  conclude torrent_id is_connectable user_agent s app true = (
    ok s.response,
    record app {
      queues = enqueue torrent_id is_connectable user_agent s app.stores app.queues;
      stats = increment_announce_response w.windows w.stats_now app.stats;
    },
  )
  conclude torrent_id is_connectable user_agent s app false = (panic, app)

  -- After the lock is released.
  unfoldable pub finish : ℕ → Bool → List ℕ → Result (Served F) → App F → Result (List ℕ) × App F
  unfolding update_users conclude
  finish torrent_id is_connectable user_agent (ok s) app =
      let (returned, users) = update_users s app.stores.users in
      conclude torrent_id is_connectable user_agent s
        (record app { stores = record app.stores { users = users } }) returned
  finish torrent_id is_connectable user_agent (err e) app = (err e, app)
  finish torrent_id is_connectable user_agent panic app = (panic, app)
