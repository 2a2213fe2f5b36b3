-- ===== src/Load/Linked.antt =====
-- The stores that src/store.rs loads are linked.
use mathlib.Core.Path.{subst}
use unit3d_announce.Prelude.{
  ℕ, ◌≡◌, ◌⊎◌, inl, inr, refl, some, List, [], ◌∷◌, arith, Bool-cases, Option-cases, ◌==◌,
}
use unit3d_announce.Prelude.Eq.{Eq, nat_eq, bytes_eq}
use unit3d_announce.Prelude.Map.{Map, lookup, insert, Distinct}
use unit3d_announce.Prelude.Map.Laws.{lookup-insert, insert-Distinct}
use unit3d_announce.Prelude.Outcome.{ok, Holds, Holds-ok, then-Holds, after-Holds}
use unit3d_announce.Config.{Config}
use unit3d_announce.Store.{Stores}
use unit3d_announce.Store.Torrent.{Torrent}
use unit3d_announce.Api.Torrents.Linked.{Links, Linked, insert-Links}
use unit3d_announce.Load.{
  insert_rows, DbImportTorrent, import_torrent, torrent_rows, DbPeer, import_peer, add_peer,
  add_peers, load_torrents, Rows, load_ports, new_stores,
}

-- Every row has a property.
abbrev pub AllRows : {K V : Type 0} → (K → V → Type 0) → List (K × V) → Type 0
AllRows P [] = Unit
AllRows P ((k, v) ∷ rows) = P k v × AllRows P rows

module _ {K V : Type 0} ⦃e : Eq K⦄ where
  insert_rows-Distinct :
      (rows : List (K × V)) (store : Map K V) → Distinct store → Distinct (insert_rows rows store)
  unfolding insert_rows
  insert_rows-Distinct [] store d = d
  insert_rows-Distinct ((k, v) ∷ rows) store d =
      insert_rows-Distinct rows (insert k v store) (insert-Distinct k v store d)

  insert_rows-AllFound :
      (P : K → V → Type 0) (rows : List (K × V)) (store : Map K V)
      → AllRows P rows
      → ((k : K) (v : V) → lookup k store ≡ some v → P k v)
      → (k : K) (v : V) → lookup k (insert_rows rows store) ≡ some v
      → P k v
  unfolding insert_rows
  insert_rows-AllFound P [] store all found = found
  insert_rows-AllFound P ((k, v) ∷ rows) store (here, all) found =
      insert_rows-AllFound P rows (insert k v store) all (λ j w h.
        let e' = lookup-insert k j v store in
        elim (Bool-cases (e.beq k j)) [
          | inl own ↦
              let same : k ≡ j = ground (arith, e.beq_iff k j) in
              let equal : v ≡ w = ground arith in subst (λ i. P i w) same (subst (P k) equal here)
          | inr other ↦ found j w (ground arith)
        ])

-- A torrent of the first query.
abbrev pub IsListed : ℕ → List DbImportTorrent → Type 0
IsListed id [] = ⊥
IsListed id (row ∷ rows) = (row.id ≡ id) ⊎ IsListed id rows

nothing : {K V : Type 0} ⦃e : Eq K⦄ (k : K) (v : V) → lookup k [] ≡ some v → ⊥
unfolding lookup
nothing k v h = ground arith

torrent_rows-keyed :
    (rows : List DbImportTorrent) → AllRows (λ id (t : Torrent). t.id ≡ id) (torrent_rows rows)
unfolding torrent_rows import_torrent
torrent_rows-keyed [] = tt
torrent_rows-keyed (row ∷ rows) = (refl, torrent_rows-keyed rows)

-- What is in a store stays there, and what is listed comes in.
insert_rows-there :
    (rows : List DbImportTorrent) (store : Map ℕ Torrent) (id : ℕ)
    → (IsListed id rows ⊎ ((t : Torrent) × (lookup id store ≡ some t)))
    → (t : Torrent) × (lookup id (insert_rows (torrent_rows rows) store) ≡ some t)
unfolding insert_rows torrent_rows import_torrent
insert_rows-there [] store id (inl listed) = absurd listed
insert_rows-there [] store id (inr there) = there
insert_rows-there (row ∷ rows) store id h =
    let t = import_torrent row in
    let e = lookup-insert row.id id t store in
    insert_rows-there rows (insert row.id t store) id (elim (Bool-cases (row.id == id)) [
      | inl own ↦ inr (t, ground arith)
      | inr other ↦ elim h [
        | inl (inl same) ↦ absurd (ground arith)
        | inl (inr later) ↦ inl later
        | inr (u, there) ↦ inr (u, ground arith)
      ]
    ])

module _ (infohash2id : Map (List ℕ) ℕ) where
  add_peer-Holds :
      (row : DbPeer) (store : Map ℕ Torrent)
      → Links store infohash2id
      → Holds (λ next. Links next infohash2id) (add_peer row store)
  unfolding add_peer
  add_peer-Holds row store l = elim (Option-cases (lookup row.torrent_id store)) [
    | inl missing ↦ rw (missing, add_peer) (Holds.returned store l)
    | inr (t, there) ↦
        rw (there, add_peer)
          (after-Holds (import_peer row) (λ peer.
            Holds.returned _
              (insert-Links row.torrent_id _ store infohash2id (l.keyed row.torrent_id t there) l)))
  ]

  add_peers-Holds :
      (rows : List DbPeer) (store : Map ℕ Torrent)
      → Links store infohash2id
      → Holds (λ next. Links next infohash2id) (add_peers rows store)
  unfolding add_peers
  add_peers-Holds [] store l = Holds.returned store l
  add_peers-Holds (row ∷ rows) store l =
      then-Holds (add_peer row store) (add_peer-Holds row store l) (add_peers-Holds rows)

load_torrents-Holds :
    (rows : Rows)
    → AllRows (λ h id. IsListed id rows.torrents) rows.info_hashes
    → Holds
        (λ torrents. Links torrents (insert_rows rows.info_hashes []))
        (load_torrents rows.torrents rows.peers)
unfolding load_torrents
load_torrents-Holds rows listed =
    add_peers-Holds (insert_rows rows.info_hashes []) rows.peers
      (insert_rows (torrent_rows rows.torrents) [])
      (record {
        once = insert_rows-Distinct (torrent_rows rows.torrents) [] tt;
        keyed =
            insert_rows-AllFound (λ id t. t.id ≡ id) (torrent_rows rows.torrents) []
              (torrent_rows-keyed rows.torrents) (λ id t h. absurd (nothing id t h));
        leads = λ h id e. insert_rows-there rows.torrents [] id (
            inl (
              insert_rows-AllFound (λ k i. IsListed i rows.torrents) rows.info_hashes [] listed
                (λ k i e'. absurd (nothing k i e')) h id e));
      })

new_stores-Holds :
    {F : Type 0} (config : Config F) (rows : Rows)
    → AllRows (λ h id. IsListed id rows.torrents) rows.info_hashes
    → Holds (λ (s : Stores F). Linked s) (new_stores config rows)
unfolding new_stores
new_stores-Holds config rows listed =
    then-Holds (load_torrents rows.torrents rows.peers) (load_torrents-Holds rows listed)
      (λ torrents l. after-Holds (load_ports rows.ports []) (λ ports. Holds.returned _ l))

-- Where the rows of info hashes are of torrents that the first query returns, as both queries pick
-- the same torrents, the stores that are loaded are linked.
pub new_stores-Linked :
    {F : Type 0} (config : Config F) (rows : Rows) (stores : Stores F)
    → AllRows (λ h id. IsListed id rows.torrents) rows.info_hashes
    → new_stores config rows ≡ ok stores
    → Linked stores
new_stores-Linked config rows stores listed h =
    Holds-ok (new_stores config rows) stores (new_stores-Holds config rows listed) h
