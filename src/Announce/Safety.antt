-- ===== src/Announce/Safety.antt =====
-- An announce of src/announce.rs keeps the counts of every torrent, and never panics.
use unit3d_announce.Announce.After.Users.{finish-stores}
use unit3d_announce.Prelude.{
  ℕ, ◌<◌, ◌≡◌, refl, ap, ◌∙◌, sym, Bool, some, List, length, arith, Bool-cases, Option-cases, inl,
  inr, ◌==◌,
}
use mathlib.Core.Path.{subst}
use unit3d_announce.Prelude.Eq.{nat_eq, bytes_eq}
use unit3d_announce.Prelude.Word.{u32_max}
use unit3d_announce.Prelude.Map.{Map, lookup, insert}
use unit3d_announce.Prelude.Map.Laws.{lookup-insert}
use unit3d_announce.Config.{Config}
use unit3d_announce.Rate.{Float}
use unit3d_announce.Warning.{AnnounceWarning}
use unit3d_announce.Store.{Stores}
use unit3d_announce.Store.Torrent.{Torrent}
use unit3d_announce.Store.User.{User}
use unit3d_announce.Announce.Swarm.{Result, ok, err, panic, Result-cases}
use unit3d_announce.Announce.Swarm.Counts.{HasCounts, update_torrent-HasCounts}
use unit3d_announce.Announce.Request.{Request, validate, find_user_id, find_user}
use unit3d_announce.Announce.Admit.{Member, admit}
use unit3d_announce.Announce.State.{App, World, Served}
use unit3d_announce.Announce.After.{finish}
use unit3d_announce.Announce.Connect.{check_connectivity}
use unit3d_announce.Announce.{
  visit, visit_torrent, note_unregistered, announce_found, announce_to, announce_connected,
  announce,
}

-- Every torrent of a store has the right counts.
abbrev pub Counted : {F : Type 0} → Config F → Map ℕ Torrent → Type 0
Counted config torrents = (id : ℕ) (t : Torrent) → lookup id torrents ≡ some t → HasCounts config t

-- Every torrent has room for a peer more.
abbrev pub HasRoom : Map ℕ Torrent → Type 0
HasRoom torrents = (id : ℕ) (t : Torrent) → lookup id torrents ≡ some t → length t.peers < u32_max

module _ {F : Type 0} ⦃f : Float F⦄ (config : Config F) (w : World F) (r : Request) where
  insert-Counted :
      (id : ℕ) (t : Torrent) (torrents : Map ℕ Torrent)
      → HasCounts config t
      → Counted config torrents
      → Counted config (insert id t torrents)
  insert-Counted id t torrents h counted j u found =
      let e = sym (lookup-insert id j t torrents) ∙ found in
      elim (Bool-cases (id == j)) [
        | inr other ↦ counted j u (ground arith)
        | inl own ↦ let same : t ≡ u = ground arith in subst (HasCounts config) same h
      ]

  visit_torrent-HasCounts :
      (stores : Stores F) (b : Bool) (ws : List AnnounceWarning) (t : Torrent)
      (m : Result (Member F))
      → length t.peers < u32_max
      → HasCounts config t
      → HasCounts config (visit_torrent config w r stores b ws t m).1
  unfolding visit_torrent visit
  visit_torrent-HasCounts stores b ws t (ok member) room h =
      update_torrent-HasCounts (visit config w r member b) t ws room h
  visit_torrent-HasCounts stores b ws t (err e) room h = h
  visit_torrent-HasCounts stores b ws t panic room h = h

  finish-torrents :
      (id : ℕ) (b : Bool) (agent : List ℕ) (s : Result (Served F)) (app : App F)
      → (finish config w r id b agent s app).1.stores.torrents ≡ app.stores.torrents
  unfolding finish
  finish-torrents id b agent (ok s) app =
      ap (λ (st : Stores F). st.torrents) (finish-stores config w r id b agent s app)
  finish-torrents id b agent (err e) app = refl
  finish-torrents id b agent panic app = refl

  note_unregistered-torrents :
      (user : Result (User F)) (app : App F)
      → (note_unregistered config w r user app).stores.torrents ≡ app.stores.torrents
  unfolding note_unregistered
  note_unregistered-torrents (ok user) app = refl
  note_unregistered-torrents (err e) app = refl
  note_unregistered-torrents panic app = refl

  module _ (agent : List ℕ) (user_id : Result ℕ) (user : Result (User F)) where
    announce_found-Counted :
        (id : ℕ) (b : Bool) (app : App F) (t : Torrent)
        → length t.peers < u32_max
        → HasCounts config t
        → Counted config app.stores.torrents
        → Counted config (announce_found config w r id b agent user_id user app t).1.stores.torrents
    unfolding announce_found
    announce_found-Counted id b app t room h counted = elim (Bool-cases t.is_deleted) [
      | inl gone ↦
          simp gone (subst (Counted config) (sym (note_unregistered-torrents user app)) counted)
      | inr here ↦ simp here (
          subst (Counted config) (sym (finish-torrents id b agent _ _)) (
            insert-Counted id _ app.stores.torrents
              (visit_torrent-HasCounts app.stores b _ t (admit app.stores r.queries t user_id user)
                room h)
              counted))
    ]

    announce_to-Counted :
        (id : ℕ) (b : Bool) (app : App F)
        → HasRoom app.stores.torrents
        → Counted config app.stores.torrents
        → Counted config (announce_to config w r id b agent user_id user app).1.stores.torrents
    unfolding announce_to
    announce_to-Counted id b app room counted =
        elim (Option-cases (lookup id app.stores.torrents)) [
          | inl missing ↦ rw (missing, announce_to) counted
          | inr (t, found) ↦
              rw (found, announce_to)
                (announce_found-Counted id b app t (room id t found) (counted id t found) counted)
        ]

    announce_connected-Counted :
        (id : ℕ) (app : App F)
        → HasRoom app.stores.torrents
        → Counted config app.stores.torrents
        → Counted config (announce_connected config w r id agent user_id user app).1.stores.torrents
    unfolding announce_connected
    announce_connected-Counted id app room counted =
        elim (Result-cases (
          check_connectivity config w.max_utc w.connect_now w.can_connect r.client_ip r.queries.port
            app.stores.connectable_ports)) [
              | inl ((b, ports), p) ↦
                  rw (p, announce_connected)
                    (announce_to-Counted id b
                      (record app { stores = record app.stores { connectable_ports = ports } }) room
                      counted)
              | inr (inl (e, p)) ↦ rw (p, announce_connected) counted
              | inr (inr p) ↦ rw (p, announce_connected) counted
            ]

  -- Where every torrent in the store has the right counts and room for a peer more, every torrent
  -- has the right counts after an announce, whatever its outcome.
  pub announce-Counted :
      (app : App F)
      → HasRoom app.stores.torrents
      → Counted config app.stores.torrents
      → Counted config (announce config w r app).1.stores.torrents
  unfolding announce
  announce-Counted app room counted = elim (Result-cases (validate app.stores r)) [
    | inr (inl (e, p)) ↦ rw (p, announce) counted
    | inr (inr p) ↦ rw (p, announce) counted
    | inl ((agent, passkey), p) ↦
        let user_id = find_user_id app.stores passkey in
        let user = find_user app.stores user_id in
        elim (Option-cases (lookup r.queries.info_hash app.stores.infohash2id)) [
          | inl q ↦
              rw (p, q, announce)
                (subst (Counted config) (sym (note_unregistered-torrents user app)) counted)
          | inr (id, q) ↦
              rw (p, q, announce)
                (announce_connected-Counted agent user_id user id app room counted)
        ]
  ]
