-- ===== src/Tests/Handler.antt =====
-- The whole handler at concrete requests.
use unit3d_announce.Prelude.{ℕ, ◌≡◌, ◌≢◌, refl, some, arith}
use unit3d_announce.Prelude.Eq.{nat_eq, list_beq, int_beq}
use unit3d_announce.Prelude.Map.{lookup, contains_key}
use unit3d_announce.Model.{Event, event_eq}
use unit3d_announce.Model.Hash.{next_bytes}
use unit3d_announce.Store.Peer.{index_eq}
use unit3d_announce.Error.{AnnounceError}
use unit3d_announce.Store.Torrent.{Torrent}
use unit3d_announce.Announce.Swarm.{err, panic, update_peers, peer_index}
use unit3d_announce.Announce.Effects.{Untouched, announce-err}
use unit3d_announce.Announce.Safety.{Counted, HasRoom, announce-Counted}
use unit3d_announce.Announce.Total.{InRange, announce-ne-panic}
use unit3d_announce.Announce.{announce}
use unit3d_announce.Tests.Fixtures.{numbers, config, torrent, request, stores, app, world}
use unit3d_announce.Tests.Swarms.{torrent-HasCounts}

only_torrent : (id : ℕ) (t : Torrent) → lookup id stores.torrents ≡ some t → t ≡ torrent
unfolding lookup
only_torrent id t h = ground arith

all-Counted : Counted config stores.torrents
all-Counted id t h = rw (only_torrent id t h) torrent-HasCounts

all-HasRoom : HasRoom stores.torrents
all-HasRoom id t h = rw (only_torrent id t h) (omega arith)

announce_counts_example :
    Counted config (announce config world (request Event.started) app).1.stores.torrents
announce_counts_example =
    announce-Counted config world (request Event.started) app all-HasRoom all-Counted

pub config-InRange : InRange config world (request Event.started)
config-InRange = record {
  interval = omega arith;
  connectivity = omega arith;
  epoch = 300;
  clock = refl;
  reserves = omega arith;
}

announce_total_example : (announce config world (request Event.started) app).0 ≢ panic
announce_total_example = announce-ne-panic config world (request Event.started) config-InRange app

stop_fails :
    (announce config world (request Event.stopped) app).0
    ≡ err AnnounceError.stopped_peer_does_not_exist
unfolding announce contains_key next_bytes lookup list_beq int_beq update_peers event_eq index_eq
    peer_index
stop_fails = refl

announce_err_example : Untouched (announce config world (request Event.stopped) app).1 app
announce_err_example = announce-err config world (request Event.stopped) app stop_fails
