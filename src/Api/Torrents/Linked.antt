-- ===== src/Api/Torrents/Linked.antt =====
-- The endpoints of src/api/torrent.rs keep every info hash linked to a torrent, and every torrent
-- its peers.
use unit3d_announce.Prelude.{
  ℕ, ◌≡◌, ◌≢◌, ◌⊎◌, refl, Option, none, some, List, [], arith, Option-cases, Bool-cases, inl, inr,
  if◌then◌else◌, ◌==◌,
}
use unit3d_announce.Prelude.Eq.{nat_eq, bytes_eq, list_beq, list_beq_iff}
use unit3d_announce.Prelude.Map.{Map, lookup, insert, Distinct, swap_remove}
use unit3d_announce.Prelude.Map.Laws.{
  lookup-insert, lookup-swap_remove, modify_present, insert-Distinct, swap_remove-Distinct,
}
use unit3d_announce.Prelude.Outcome.{Outcome, Outcome-cases}
use unit3d_announce.Model.Hash.{info_hash_from_str}
use unit3d_announce.Store.{Stores}
use unit3d_announce.Store.Torrent.{Torrent}
use unit3d_announce.Announce.State.{App}
use unit3d_announce.Api.{success}
use unit3d_announce.Api.Torrents.{
  ApiInsertTorrent, peers_of, torrent_with, put_torrent, upsert_torrent, deleted, destroy_torrent,
}

-- Every info hash leads to a torrent, every torrent stands under its id, and no id is there twice.
pub record Links (torrents : Map ℕ Torrent) (infohash2id : Map (List ℕ) ℕ) : Type 0 where
  pub once : Distinct torrents
  pub keyed : (id : ℕ) (t : Torrent) → lookup id torrents ≡ some t → t.id ≡ id
  pub leads :
      (h : List ℕ) (id : ℕ)
      → lookup h infohash2id ≡ some id
      → (t : Torrent) × (lookup id torrents ≡ some t)

-- A torrent that is written under its id.
pub insert-Links :
    (id : ℕ) (t : Torrent) (torrents : Map ℕ Torrent) (infohash2id : Map (List ℕ) ℕ)
    → t.id ≡ id
    → Links torrents infohash2id
    → Links (insert id t torrents) infohash2id
insert-Links id t torrents infohash2id own l = record {
  once = insert-Distinct id t torrents l.once;
  keyed = λ j u e. ground (arith, lookup-insert id j t torrents, l.keyed j u, e);
  leads = λ h j e.
      let e' = lookup-insert id j t torrents in
      let (u, there) = l.leads h j e in
      elim (Bool-cases (id == j)) [ inl same ↦ (t, ground arith) | inr other ↦ (u, ground arith) ];
}

-- A torrent has the data of a request and the peers of the torrent that stood there, if any.
pub record Upserted (r : ApiInsertTorrent) (before : Option Torrent) (t : Torrent) : Type 0 where
  pub id : t.id ≡ r.id
  pub status : t.status ≡ r.status
  pub is_deleted : t.is_deleted ≡ r.is_deleted
  pub peers : t.peers ≡ elim before [ none ↦ [] | some old ↦ old.peers ]
  pub seeders : t.seeders ≡ r.seeders
  pub leechers : t.leechers ≡ r.leechers
  pub times_completed : t.times_completed ≡ r.times_completed
  pub download_factor : t.download_factor ≡ r.download_factor
  pub upload_factor : t.upload_factor ≡ r.upload_factor

torrent_with-Upserted :
    (r : ApiInsertTorrent) (before : Option Torrent)
    → Upserted r before (torrent_with r (peers_of before))
unfolding torrent_with peers_of
torrent_with-Upserted r before = record {
  id = refl;
  status = refl;
  is_deleted = refl;
  peers = refl;
  seeders = refl;
  leechers = refl;
  times_completed = refl;
  download_factor = refl;
  upload_factor = refl;
}

module _ {F : Type 0} where
  abbrev pub Linked : Stores F → Type 0
  Linked stores = Links stores.torrents stores.infohash2id

  pub lookup-put_torrent :
      (r : ApiInsertTorrent) (h : List ℕ) (stores : Stores F) (id : ℕ)
      → Distinct stores.torrents
      → lookup id (put_torrent r h stores).torrents ≡ (
          if r.id == id
          then some (torrent_with r (peers_of (lookup r.id stores.torrents)))
          else lookup id stores.torrents)
  unfolding put_torrent
  lookup-put_torrent r h stores id d = ground (
    arith,
    lookup-insert r.id id (torrent_with r (peers_of (lookup r.id stores.torrents)))
        (swap_remove r.id stores.torrents),
    lookup-swap_remove r.id id stores.torrents d,
  )

  put_torrent-link :
      (r : ApiInsertTorrent) (h : List ℕ) (stores : Stores F)
      → lookup h (put_torrent r h stores).infohash2id ≡ some r.id
  unfolding put_torrent
  put_torrent-link r h stores =
      ground (arith, lookup-insert h h r.id stores.infohash2id, list_beq_iff h h)

  -- A torrent that is there stays there.
  put_torrent-keeps :
      (r : ApiInsertTorrent) (h : List ℕ) (stores : Stores F) (id : ℕ)
      → Distinct stores.torrents
      → ((r.id ≡ id) ⊎ ((t : Torrent) × (lookup id stores.torrents ≡ some t)))
      → (t : Torrent) × (lookup id (put_torrent r h stores).torrents ≡ some t)
  put_torrent-keeps r h stores id d there =
      let e = lookup-put_torrent r h stores id d in
      elim (Bool-cases (r.id == id)) [
        | inl own ↦ (torrent_with r (peers_of (lookup r.id stores.torrents)), ground arith)
        | inr other ↦ elim there [
          | inl own ↦ absurd (ground arith)
          | inr (t, found) ↦ (t, ground arith)
        ]
      ]

  put_torrent-Linked :
      (r : ApiInsertTorrent) (h : List ℕ) (stores : Stores F)
      → Linked stores
      → Linked (put_torrent r h stores)
  unfolding put_torrent torrent_with
  put_torrent-Linked r h stores l = record {
    once = insert-Distinct r.id _ _ (swap_remove-Distinct r.id stores.torrents l.once);
    keyed = λ id t e. ground (arith, lookup-put_torrent r h stores id l.once, l.keyed id t, e);
    leads = λ h' id e.
        let found = lookup-insert h h' r.id stores.infohash2id in
        put_torrent-keeps r h stores id l.once (elim (Bool-cases (list_beq h h')) [
          | inl own ↦ inl (ground arith)
          | inr other ↦ inr (l.leads h' id (ground arith))
        ]);
  }

  -- Whatever the request, `upsert` of a torrent keeps the stores linked.
  pub upsert_torrent-Linked :
      (r : ApiInsertTorrent) (app : App F)
      → Linked app.stores
      → Linked (upsert_torrent r app).1.stores
  unfolding upsert_torrent
  upsert_torrent-Linked r app l = elim (Outcome-cases (info_hash_from_str r.info_hash)) [
    | inl (h, e) ↦ rw (e, upsert_torrent) (put_torrent-Linked r h app.stores l)
    | inr (inl e) ↦ rw (e, upsert_torrent) l
    | inr (inr e) ↦ rw (e, upsert_torrent) l
  ]

  pub destroy_torrent-Linked :
      (id : ℕ) (app : App F) → Linked app.stores → Linked (destroy_torrent id app).1.stores
  unfolding destroy_torrent
  destroy_torrent-Linked id app l = elim (Option-cases (lookup id app.stores.torrents)) [
    | inl none_there ↦ rw (none_there, destroy_torrent) l
    | inr (t, there) ↦
        rw (there, destroy_torrent, modify_present id deleted app.stores.torrents t there)
          (insert-Links id (deleted t) app.stores.torrents app.stores.infohash2id
            (l.keyed id t there) l)
  ]

  -- An `upsert` of a torrent whose info hash is one succeeds: the torrent is there with the data of
  -- the request, field by field, and the peers that it had, or none if it is new; its info hash leads
  -- to it, and no other torrent changes.
  pub upsert_torrent_lem :
      (r : ApiInsertTorrent) (h : List ℕ) (app : App F)
      → info_hash_from_str r.info_hash ≡ Outcome.ok h
      → Distinct app.stores.torrents
      → ((upsert_torrent r app).0 ≡ success)
        × ((t : Torrent) × (lookup r.id (upsert_torrent r app).1.stores.torrents ≡ some t)
            × Upserted r (lookup r.id app.stores.torrents) t)
        × (lookup h (upsert_torrent r app).1.stores.infohash2id ≡ some r.id)
        × ((id : ℕ)
            → r.id ≢ id
            → lookup id (upsert_torrent r app).1.stores.torrents ≡ lookup id app.stores.torrents)
  unfolding upsert_torrent
  upsert_torrent_lem r h app e d =
      let own = lookup-put_torrent r h app.stores r.id d in
      let before = lookup r.id app.stores.torrents in
      rw (e, upsert_torrent)
        (
          refl,
          (torrent_with r (peers_of before), ground arith, torrent_with-Upserted r before),
          put_torrent-link r h app.stores,
          λ id other. ground (arith, lookup-put_torrent r h app.stores id d),
        )
