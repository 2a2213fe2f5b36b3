-- ===== src/Tests/Swarms.antt =====
-- Peers, torrents and answers at concrete inputs.
use unit3d_announce.Prelude.{
  ◌==◌, ℕ, zero, suc, not, Bool, length-take, ◌+◌, ◌*◌, ◌≡◌, ◌≤◌, refl, some, none, true, false, [],
  ◌∷◌, ◌++◌, length, min, arith, if◌then◌else◌, leb,
}
use unit3d_announce.Prelude.Eq.{nat_eq, list_beq}
use unit3d_announce.Prelude.Word.{u64_max}
use unit3d_announce.Prelude.Map.{lookup, total, Distinct, contains_key}
use mathlib.Core.List.{Perm}
use mathlib.Core.List.Perm
use unit3d_announce.Prelude.{drop, take-append-drop}
use unit3d_announce.Model.{Event, event_eq}
use unit3d_announce.Error.{AnnounceError}
use unit3d_announce.Rate.{is_under_limit}
use unit3d_announce.Store.Peer.{
  Index, Peer, PeerStore, Index-eq, index_eq, is_included_in_peer_list, is_included_in_seed_list,
  is_included_in_leech_list,
}
use unit3d_announce.Store.Torrent.{Torrent}
use unit3d_announce.Announce.Swarm.{
  err, ok, peer_index, first_visit, revisit, update_peers, update_torrent,
}
use unit3d_announce.Announce.Swarm.Counts.{HasCounts, update_torrent-HasCounts}
use unit3d_announce.Announce.Swarm.Limits.{active_peers, update_torrent_new, update_torrent_known}
use unit3d_announce.Announce.Answer.{filter, is_valid, peer_parts}
use unit3d_announce.Announce.Answer.Lists.{All, Chooses, peer_parts-All, peer_parts-divides}
use unit3d_announce.Announce.Credit.{
  credited, is_freeleech, final_download_factor, final_upload_factor, download_factor,
  upload_factor, credited-download, credited-upload,
}
use unit3d_announce.Scheduler.{reap_torrent}
use unit3d_announce.Scheduler.Counts.{reap_torrent-HasCounts}
use unit3d_announce.Scheduler.Peers.{lookup-reap_torrent}
use unit3d_announce.Queue.Updates.{pair_eq, pair_beq}
use unit3d_announce.Tests.Fixtures.{
  numbers, config, torrent, group, user, index, peer, visit_of, stores, first,
}

pub torrent-HasCounts : HasCounts config torrent
unfolding is_included_in_peer_list is_included_in_seed_list is_included_in_leech_list total
torrent-HasCounts = record { seeders = refl; leechers = refl }

abbrev start_visit : Torrent
start_visit = (update_torrent (visit_of Event.started) torrent []).1

counts_example : HasCounts config start_visit
counts_example =
    update_torrent-HasCounts (visit_of Event.started) torrent [] (omega arith) torrent-HasCounts

stop_refused :
    (update_torrent (visit_of Event.stopped) torrent []).0
    ≡ err AnnounceError.stopped_peer_does_not_exist
unfolding update_torrent update_peers event_eq peer_index lookup index_eq
stop_refused = refl

is_new : lookup (peer_index (visit_of Event.started)) torrent.peers ≡ none
unfolding peer_index lookup index_eq
is_new = refl

goes_on : event_eq Event.started Event.stopped ≡ false
unfolding event_eq
goes_on = refl

new_example : (update_torrent (visit_of Event.started) torrent []).0 ≡ (
    if leb 2 (active_peers 1 torrent.peers)
    then err (AnnounceError.peers_per_torrent_per_user_limit 2)
    else ok (first_visit (visit_of Event.started) []))
new_example = update_torrent_new (visit_of Event.started) torrent [] is_new goes_on (omega arith)

-- The peer of user 1 is there, but inactive.
abbrev away : Torrent
away = record torrent {
  peers = (index 1, record (peer false 50) { is_active = false }) ∷ torrent.peers;
}

is_known :
    lookup (peer_index (visit_of Event.started)) away.peers
    ≡ some (record (peer false 50) { is_active = false })
unfolding peer_index lookup index_eq list_beq
is_known = refl

known_example :
    ((update_torrent (visit_of Event.started) away []).0
      ≡ ok (revisit (visit_of Event.started) (record (peer false 50) { is_active = false }) []))
    × (active_peers 1 (update_torrent (visit_of Event.started) away []).1.peers + 0
        ≡ active_peers 1 away.peers + 1)
known_example =
    update_torrent_known (visit_of Event.started) away []
      (record (peer false 50) { is_active = false }) is_known goes_on

reap_example : HasCounts config (reap_torrent config 150 10 torrent stores.users)
reap_example =
    reap_torrent-HasCounts config 150 10 torrent stores.users torrent-HasCounts (omega arith)
      (omega arith)

torrent-Distinct : Distinct torrent.peers
unfolding lookup index_eq
torrent-Distinct = (refl, (refl, tt))

fate_example :
    lookup (index 2) (reap_torrent config 150 10 torrent stores.users).peers
    ≡ some (record (peer true 100) { is_active = false })
unfolding lookup index_eq list_beq
fate_example = lookup-reap_torrent config 150 10 torrent stores.users (index 2) torrent-Distinct

-- The first elements stand in for a random choice.
first-All :
    (test : Index × Peer → Bool) (es : PeerStore) (n : ℕ) → All test es → All test (first es n)
first-All test es zero h = tt
first-All test [] (suc n) h = tt
first-All test (e ∷ es) (suc n) h = (h.0, first-All test es n h.1)

first-picks : (es : PeerStore) (n : ℕ) → (others : PeerStore) × Perm (first es n ++ others) es
first-picks es n = (drop n es, rw (take-append-drop n es) (Perm.refl es))

first-Chooses : Chooses first
first-Chooses = record {
  length_lem = λ es n. length-take n es;
  picks = first-picks;
  passes = first-All;
}

parts_example :
    let parts = peer_parts (visit_of Event.started) (user 1) torrent first first [] in
    All (λ e. not (e.0.user_id == 1)) (parts.0.peers ++ parts.1.peers)
    × All (λ e. is_included_in_peer_list config e.1) (parts.0.peers ++ parts.1.peers)
    × All (λ e. e.1.is_seeder) parts.0.peers
    × All (λ e. not e.1.is_seeder) parts.1.peers
    × (length (parts.0.peers ++ parts.1.peers) ≤ 50)
parts_example =
    peer_parts-All (visit_of Event.started) (user 1) torrent first first first-Chooses first-Chooses
      []

no_limit : is_under_limit {F = ℕ} [] ≡ true
unfolding is_under_limit
no_limit = refl

many_example :
    let parts = peer_parts (visit_of Event.started) (user 1) torrent first first [] in
    (length (parts.0.peers ++ parts.1.peers)
      ≡ min 50 (length (filter (is_valid (visit_of Event.started)) torrent.peers)))
    × ((others : PeerStore) × Perm
          ((parts.0.peers ++ parts.1.peers) ++ others)
          (filter (is_valid (visit_of Event.started)) torrent.peers))
many_example =
    peer_parts-divides (visit_of Event.started) (user 1) torrent first first first-Chooses
      first-Chooses [] goes_on refl (omega arith) (omega arith) (omega arith) no_limit no_limit

has_token : is_freeleech stores 1 5 ≡ true
unfolding is_freeleech contains_key pair_beq
has_token = refl

download_example :
    credited
      (final_download_factor stores 1 5 (download_factor config (user 1) group torrent))
      12345
    ≤ 12345
download_example = credited-download config (user 1) group torrent stores 1 5 12345 (omega arith)

fits :
    final_upload_factor stores 1 5 (upload_factor config (user 1) group torrent) * 12345 ≤ u64_max
unfolding final_upload_factor upload_factor contains_key
fits = omega arith

upload_example :
    12345
    ≤ credited (final_upload_factor stores 1 5 (upload_factor config (user 1) group torrent)) 12345
upload_example =
    credited-upload config (user 1) group torrent stores 1 5 12345 (omega arith) (omega arith) fits
