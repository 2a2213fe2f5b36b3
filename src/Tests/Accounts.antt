-- ===== src/Tests/Accounts.antt =====
-- The endpoints of src/api and who is answered, at concrete requests.
use unit3d_announce.Prelude.{
  ℕ, ◌≡◌, ◌≢◌, refl, some, none, true, false, List, [], ◌∷◌, ◌++◌, replicate, arith,
}
use unit3d_announce.Prelude.Eq.{nat_eq, bytes_eq, list_beq, int_beq}
use unit3d_announce.Prelude.Bytes.{bytes, decimal, decimal_on}
use unit3d_announce.Prelude.Map.{lookup, insert, contains_key, Distinct}
use unit3d_announce.Prelude.Outcome.{Outcome}
use unit3d_announce.Error.Result.{ok}
use unit3d_announce.Model.{Event, event_eq}
use unit3d_announce.Model.Hash.{next_bytes, info_hash_from_str, parse_from}
use unit3d_announce.Model.Status.{TorrentStatus}
use unit3d_announce.Utils.{hex_decode}
use unit3d_announce.Store.Torrent.{Torrent}
use unit3d_announce.Store.Peer.{index_eq, is_included_in_leech_list, is_included_in_seed_list}
use unit3d_announce.Store.User.{User}
use unit3d_announce.Announce.Swarm.{
  update_peers, peer_index, exceeds_limit, inserted_peer, first_visit,
}
use unit3d_announce.Announce.Answer.{filter}
use unit3d_announce.Warning.{into_message}
use unit3d_announce.Rate.{is_under_limit}
use unit3d_announce.Prelude.Word.{saturating_add_signed}
use unit3d_announce.Announce.State.{App}
use unit3d_announce.Announce.Answered.{Allowed, announce-Allowed}
use unit3d_announce.Announce.{announce}
use unit3d_announce.Api.{success, bad_request}
use unit3d_announce.Api.Torrents.{ApiInsertTorrent, upsert_torrent, destroy_torrent}
use unit3d_announce.Api.Torrents.Linked.{Linked, Upserted, upsert_torrent_lem}
use unit3d_announce.Api.Torrents.Removed.{destroy_torrent-announce}
use unit3d_announce.Api.Users.{ApiInsertUser, upsert_user, destroy_user}
use unit3d_announce.Api.Users.Registered.{Registered, Owned, upsert_user-Registered}
use unit3d_announce.Api.Users.Revoked.{upsert_user_bad_new_passkey, destroy_user-announce}
use unit3d_announce.Api.Routes.{put_torrents, respond}
use unit3d_announce.Api.Routes.Linked.{ServedBy, ServedBy-Linked}
use unit3d_announce.Tests.Fixtures.{
  numbers, config, torrent, user, passkey, info_hash, request, stores, app, world,
}

-- The two peers are answered.
abbrev reply : List ℕ
reply =
    bytes
      "d8:completei1e10:downloadedi0e10:incompletei2e8:intervali2100e12:min intervali2100e5:peers12:"
    ++ (10 ∷ 0 ∷ 0 ∷ 1 ∷ 26 ∷ 225 ∷ 10 ∷ 0 ∷ 0 ∷ 1 ∷ 26 ∷ 225 ∷ b'e' ∷ [])

start_replies : (announce config world (request Event.started) app).0 ≡ ok reply
unfolding announce contains_key next_bytes lookup list_beq int_beq update_peers event_eq index_eq
    peer_index decimal decimal_on exceeds_limit insert inserted_peer saturating_add_signed
    first_visit is_included_in_leech_list is_included_in_seed_list is_under_limit filter
    into_message unit3d_announce.Prelude.Int.is_nonzero
start_replies = refl

answered_example : Allowed (request Event.started) stores
answered_example = announce-Allowed config world (request Event.started) app start_replies

abbrev inserted : ApiInsertTorrent
inserted = record {
  id = 5;
  status = TorrentStatus.pending;
  info_hash = bytes "0808080808080808080808080808080808080808";
  is_deleted = false;
  seeders = 1;
  leechers = 1;
  times_completed = 4;
  download_factor = 0;
  upload_factor = 200;
}

inserted_hash : info_hash_from_str inserted.info_hash ≡ Outcome.ok (replicate 20 8)
unfolding info_hash_from_str parse_from hex_decode
inserted_hash = refl

torrents-Distinct : Distinct stores.torrents
unfolding lookup
torrents-Distinct = (refl, tt)

upsert_torrent_example :
    ((upsert_torrent inserted app).0 ≡ success)
    × ((t : Torrent) × (lookup 5 (upsert_torrent inserted app).1.stores.torrents ≡ some t)
        × Upserted inserted (lookup 5 stores.torrents) t)
    × (lookup (replicate 20 8) (upsert_torrent inserted app).1.stores.infohash2id ≡ some 5)
    × ((id : ℕ)
        → 5 ≢ id
        → lookup id (upsert_torrent inserted app).1.stores.torrents ≡ lookup id stores.torrents)
upsert_torrent_example =
    upsert_torrent_lem inserted (replicate 20 8) app inserted_hash torrents-Distinct

stores-Linked : Linked stores
unfolding lookup
stores-Linked = record {
  once = (refl, tt);
  keyed = λ id t h. ground arith;
  leads = λ h id e. (torrent, ground arith);
}

-- An announce, then a change of the torrent.
routes_example :
    Linked
      (respond config
        (put_torrents inserted)
        (announce config world (request Event.started) app).1).1.stores
routes_example =
    ServedBy-Linked
      (ServedBy.called config (put_torrents inserted)
        (ServedBy.announced config world (request Event.started) (ServedBy.started app)))
      stores-Linked

known : lookup info_hash stores.infohash2id ≡ some 5
unfolding lookup list_beq
known = refl

removed_torrent_example :
    (announce config world (request Event.started) (destroy_torrent 5 app).1).0 ≢ ok reply
removed_torrent_example =
    destroy_torrent-announce config world (request Event.started) 5 app reply known

removed_user_example :
    (announce config world (request Event.started) (destroy_user 1 passkey app).1).0 ≢ ok reply
unfolding lookup
removed_user_example =
    destroy_user-announce config world (request Event.started) 1 app reply refl (refl, tt)

-- A tracker of one user.
abbrev alone : App ℕ
alone = record app { stores = record stores { users = (1, user 1) ∷ [] } }

only_user : (id : ℕ) (u : User ℕ) → lookup id alone.stores.users ≡ some u → (id ≡ 1) × (u ≡ user 1)
unfolding lookup
only_user id u h = (ground arith, ground arith)

alone-Registered : Registered alone.stores
unfolding lookup list_beq
alone-Registered = record {
  users_once = (refl, tt);
  passkeys_once = (refl, tt);
  found = λ id u h. rw ((only_user id u h).0, (only_user id u h).1) (refl, refl);
}

abbrev changed : ApiInsertUser
changed = record {
  id = 1;
  group_id = (user 1).group_id;
  passkey = passkey;
  new_passkey = some (replicate 32 98);
  can_download = true;
  num_seeding = 0;
  num_leeching = 0;
  is_donor = true;
  is_lifetime = false;
}

alone-Owned : (text : List ℕ) → Owned alone.stores text 1
unfolding lookup
alone-Owned text j u h other = absurd (ground arith)

upsert_user_example : Registered (upsert_user config changed alone).1.stores
upsert_user_example =
    upsert_user-Registered config changed alone (alone-Owned passkey) (λ text h. alone-Owned text)
      alone-Registered

abbrev mistaken : ApiInsertUser
mistaken = record changed { new_passkey = some (bytes "short") }

bad_new_passkey_example :
    ((upsert_user config mistaken alone).0 ≡ bad_request)
    × (lookup 1 (upsert_user config mistaken alone).1.stores.users ≡ none)
    × ((upsert_user config mistaken alone).1.stores.passkey2id ≡ stores.passkey2id)
unfolding lookup
bad_new_passkey_example =
    upsert_user_bad_new_passkey config mistaken (bytes "short") alone refl refl (omega arith)
      (refl, tt)
