-- ===== src/Tests/Seats.antt =====
-- The counts of the users of a tracker at a concrete request.
use unit3d_announce.Prelude.{ℕ, [], ◌∷◌, arith}
use unit3d_announce.Prelude.Eq.{nat_eq}
use unit3d_announce.Prelude.Map.{Map, total, lookup}
use unit3d_announce.Model.{Event}
use unit3d_announce.Store.Peer.{is_included_in_seed_list, is_included_in_leech_list}
use unit3d_announce.Store.User.{User}
use unit3d_announce.Announce.State.{App}
use unit3d_announce.Announce.Tallies.{Tallied, Spacious, announce-Tallied}
use unit3d_announce.Announce.{announce}
use unit3d_announce.Scheduler.{Reaped, reap_torrents}
use unit3d_announce.Scheduler.Seats.{reap_torrents-Tallied}
use unit3d_announce.Tests.Fixtures.{queues, numbers, config, user, stores, app, world, request}
use unit3d_announce.Tests.Handler.{config-InRange}

-- User 2 seeds one torrent and user 3 leeches it.
abbrev counted_users : Map ℕ (User ℕ)
counted_users =
    (1, record (user 1) { num_seeding = 0; num_leeching = 0 })
    ∷ (2, record (user 2) { num_leeching = 0 })
    ∷ (3, record (user 3) { num_seeding = 0 })
    ∷ []

abbrev counted_app : App ℕ
counted_app = record app { stores = record stores { users = counted_users } }

stores-Spacious : Spacious config stores.torrents
unfolding total is_included_in_seed_list is_included_in_leech_list
stores-Spacious = record { seeding = λ id. ground arith; leeching = λ id. ground arith }

users-Tallied : Tallied config stores.torrents counted_users
unfolding total lookup is_included_in_seed_list is_included_in_leech_list
users-Tallied = record { seeding = λ id user h. ground arith; leeching = λ id user h. ground arith }

seats_example :
    Tallied config
      (announce config world (request Event.started) counted_app).1.stores.torrents
      (announce config world (request Event.started) counted_app).1.stores.users
seats_example =
    announce-Tallied config world (request Event.started) counted_app config-InRange stores-Spacious
      users-Tallied

abbrev before_reap : Reaped ℕ
before_reap = record { users = counted_users; torrent_updates = queues.torrents }

-- The peer of user 2 is stale.
reaped_seats_example :
    Tallied config
      (reap_torrents config 150 0 stores.torrents before_reap).0
      (reap_torrents config 150 0 stores.torrents before_reap).1.users
reaped_seats_example = reap_torrents-Tallied config 150 0 stores.torrents before_reap users-Tallied
