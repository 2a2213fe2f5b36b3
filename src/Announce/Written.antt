-- ===== src/Announce/Written.antt =====
-- What an answered announce of src/announce.rs writes into the stores.
use unit3d_announce.Announce.After.Users.{finish-stores}
use unit3d_announce.Prelude.{
  ℕ, ◌≡◌, refl, ap, ◌∙◌, Bool, some, List, arith, Bool-cases, Option-cases, inl, inr,
}
use unit3d_announce.Prelude.Eq.{nat_eq, bytes_eq}
use unit3d_announce.Prelude.Map.{Map, lookup, insert}
use unit3d_announce.Config.{Config}
use unit3d_announce.Rate.{Float}
use unit3d_announce.Warning.{AnnounceWarning}
use unit3d_announce.Store.{Stores}
use unit3d_announce.Store.Torrent.{Torrent}
use unit3d_announce.Store.User.{User}
use unit3d_announce.Announce.Swarm.{
  Result, ok, err, panic, Result-cases, Visit, Change, update_torrent,
}
use unit3d_announce.Announce.Request.{Request, validate, find_user_id, find_user}
use unit3d_announce.Announce.Admit.{Member, admit}
use unit3d_announce.Announce.State.{App, World, Served}
use unit3d_announce.Announce.After.{finish, update_users}
use unit3d_announce.Announce.Connect.{check_connectivity}
use unit3d_announce.Announce.{
  visit, serve, visit_torrent, announce_found, announce_to, announce_connected, announce,
}

module _ {F : Type 0} ⦃f : Float F⦄ (config : Config F) (w : World F) (r : Request) where
  -- The torrent, with what its update gives, and the users.
  pub record Written (torrents_before : Map ℕ Torrent) (users_before : Map ℕ (User F))
      (after : Stores F) : Type 0 where
    pub id : ℕ
    pub torrent : Torrent
    pub member : Member F
    pub connectable : Bool
    pub warnings : List AnnounceWarning
    pub served : Served F
    pub there : lookup id torrents_before ≡ some torrent
    pub updates :
        (update_torrent (visit config w r member connectable) torrent warnings).0 ≡ ok served.change
    pub own : served.member ≡ member
    pub torrents :
        after.torrents
        ≡ insert id
            (update_torrent (visit config w r member connectable) torrent warnings).1
            torrents_before
    pub users : after.users ≡ (update_users config w r served users_before).1

  serve-change :
      (member : Member F) (v : Visit F) (t : Torrent) (c : Result Change) (served : Served F)
      → serve config w r member v t c ≡ ok served
      → (c ≡ ok served.change) × (served.member ≡ member)
  unfolding serve
  serve-change member v t (ok c) served h = (ground arith, ground arith)
  serve-change member v t (err e) served h = absurd (ground arith)
  serve-change member v t panic served h = absurd (ground arith)

  finish-Written :
      {out : List ℕ} (id : ℕ) (b : Bool) (agent : List ℕ) (s : Result (Served F)) (app : App F)
      → (finish config w r id b agent s app).0 ≡ ok out
      → (served : Served F) × (s ≡ ok served)
        × ((finish config w r id b agent s app).1.stores.torrents ≡ app.stores.torrents)
        × ((finish config w r id b agent s app).1.stores.users
            ≡ (update_users config w r served app.stores.users).1)
  unfolding finish
  finish-Written id b agent (ok s) app h =
      let stores = finish-stores config w r id b agent s app in
      (s, refl, ap (λ (st : Stores F). st.torrents) stores, ap (λ (st : Stores F). st.users) stores)
  finish-Written id b agent (err e) app h = absurd (ground arith)
  finish-Written id b agent panic app h = absurd (ground arith)

  visited :
      {served : Served F} (stores : Stores F) (b : Bool) (ws : List AnnounceWarning) (t : Torrent)
      (m : Result (Member F))
      → (visit_torrent config w r stores b ws t m).0 ≡ ok served
      → (member : Member F) × ((update_torrent (visit config w r member b) t ws).0
          ≡ ok served.change)
        × (served.member ≡ member)
        × ((visit_torrent config w r stores b ws t m).1
            ≡ (update_torrent (visit config w r member b) t ws).1)
  unfolding visit_torrent
  visited {served} stores b ws t (ok member) h =
      let v = visit config w r member b in
      let (c, m) =
        serve-change member v (update_torrent v t ws).1 (update_torrent v t ws).0 served h in
      (member, c, m, refl)
  visited stores b ws t (err e) h = absurd (ground arith)
  visited stores b ws t panic h = absurd (ground arith)

  module _ (agent : List ℕ) (user_id : Result ℕ) (user : Result (User F)) where
    announce_found-Written :
        {out : List ℕ} (id : ℕ) (b : Bool) (app : App F) (t : Torrent)
        → lookup id app.stores.torrents ≡ some t
        → (announce_found config w r id b agent user_id user app t).0 ≡ ok out
        → Written app.stores.torrents app.stores.users
            (announce_found config w r id b agent user_id user app t).1.stores
    unfolding announce_found
    announce_found-Written id b app t found = elim (Bool-cases t.is_deleted) [
      | inl gone ↦ simp gone (λ h. absurd (ground arith))
      | inr here ↦ simp here (λ h.
          let (served, e, torrents, users) = finish-Written id b agent _ _ h in
          let (member, c, own, t') =
            visited app.stores b _ t (admit app.stores r.queries t user_id user) e in
          record {
            id = id;
            torrent = t;
            member = member;
            connectable = b;
            warnings = _;
            served = served;
            there = found;
            updates = c;
            own = own;
            torrents = torrents ∙ ap (λ t. insert id t app.stores.torrents) t';
            users = users;
          })
    ]

    announce_to-Written :
        {out : List ℕ} (id : ℕ) (b : Bool) (app : App F)
        → (announce_to config w r id b agent user_id user app).0 ≡ ok out
        → Written app.stores.torrents app.stores.users
            (announce_to config w r id b agent user_id user app).1.stores
    unfolding announce_to
    announce_to-Written id b app = elim (Option-cases (lookup id app.stores.torrents)) [
      | inl missing ↦ rw (missing, announce_to) (λ h. absurd (ground arith))
      | inr (t, found) ↦ rw (found, announce_to) (announce_found-Written id b app t found)
    ]

    announce_connected-Written :
        {out : List ℕ} (id : ℕ) (app : App F)
        → (announce_connected config w r id agent user_id user app).0 ≡ ok out
        → Written app.stores.torrents app.stores.users
            (announce_connected config w r id agent user_id user app).1.stores
    unfolding announce_connected
    announce_connected-Written id app =
        elim (Result-cases (
          check_connectivity config w.max_utc w.connect_now w.can_connect r.client_ip r.queries.port
            app.stores.connectable_ports)) [
              | inl ((b, ports), p) ↦
                  rw (p, announce_connected)
                    (announce_to-Written id b
                      (record app { stores = record app.stores { connectable_ports = ports } }))
              | inr (inl (e, p)) ↦ rw (p, announce_connected) (λ h. absurd (ground arith))
              | inr (inr p) ↦ rw (p, announce_connected) (λ h. absurd (ground arith))
            ]

  pub announce-Written :
      {out : List ℕ} (app : App F)
      → (announce config w r app).0 ≡ ok out
      → Written app.stores.torrents app.stores.users (announce config w r app).1.stores
  unfolding announce
  announce-Written app = elim (Result-cases (validate app.stores r)) [
    | inr (inl (e, p)) ↦ rw (p, announce) (λ h. absurd (ground arith))
    | inr (inr p) ↦ rw (p, announce) (λ h. absurd (ground arith))
    | inl ((agent, passkey), p) ↦
        let user_id = find_user_id app.stores passkey in
        elim (Option-cases (lookup r.queries.info_hash app.stores.infohash2id)) [
          | inl q ↦ rw (p, q, announce) (λ h. absurd (ground arith))
          | inr (id, q) ↦
              rw (p, q, announce)
                (announce_connected-Written agent user_id (find_user app.stores user_id) id app)
        ]
  ]
