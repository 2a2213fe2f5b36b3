-- ===== src/Api/Routes/Linked.antt =====
-- Announces and the endpoints of src/api, one after the other in any order, keep the stores linked.
use unit3d_announce.Announce.After.Users.{finish-stores}
use unit3d_announce.Prelude.{
  ℕ, ◌≡◌, refl, ◌∙◌, Bool, Option, List, Bool-cases, Option-cases, inl, inr,
}
use unit3d_announce.Prelude.Eq.{nat_eq, bytes_eq}
use unit3d_announce.Prelude.Map.{lookup}
use unit3d_announce.Prelude.Outcome.{Outcome-cases}
use unit3d_announce.Config.{Config}
use unit3d_announce.Rate.{Float}
use unit3d_announce.Warning.{AnnounceWarning}
use unit3d_announce.Model.Hash.{passkey_from_str}
use unit3d_announce.Store.{Stores}
use unit3d_announce.Store.Torrent.{Torrent}
use unit3d_announce.Store.User.{User}
use unit3d_announce.Announce.Swarm.{Result, ok, err, panic, Result-cases, update_torrent}
use unit3d_announce.Announce.Swarm.Counts.{update_torrent-id}
use unit3d_announce.Announce.Request.{Request, validate, find_user_id, find_user}
use unit3d_announce.Announce.Admit.{Member, admit}
use unit3d_announce.Announce.State.{App, World, Served}
use unit3d_announce.Announce.After.{finish}
use unit3d_announce.Announce.Connect.{check_connectivity}
use unit3d_announce.Announce.{
  visit, visit_torrent, note_unregistered, announce_found, announce_to, announce_connected,
  announce,
}
use unit3d_announce.Api.Users.{
  ApiInsertUser, rekey, put_user, upsert_user, destroy_user, without_user,
}
use unit3d_announce.Api.Sets.{
  upsert_group, destroy_group, upsert_agent, destroy_agent, upsert_featured_torrent,
  destroy_featured_torrent, upsert_freeleech_token, destroy_freeleech_token,
  upsert_personal_freeleech, destroy_personal_freeleech,
}
use unit3d_announce.Api.Torrents.Linked.{
  Linked, insert-Links, upsert_torrent-Linked, destroy_torrent-Linked,
}
use unit3d_announce.Api.Routes.{
  Call, respond, put_torrents, delete_torrents, put_users, delete_users, put_groups, delete_groups,
  put_blacklisted_agents, delete_blacklisted_agents, put_freeleech_tokens, delete_freeleech_tokens,
  put_personal_freeleech, delete_personal_freeleech, put_featured_torrents,
  delete_featured_torrents,
}

module _ {F : Type 0} where
  rekey-Linked :
      (config : Config F) (r : ApiInsertUser) (passkey : List ℕ) (u : Option (User F))
      (stores : Stores F)
      → Linked stores
      → Linked (rekey config r passkey u stores).1
  unfolding rekey put_user
  rekey-Linked config r passkey u stores l = elim (Option-cases r.new_passkey) [
    | inl e ↦ rw (e, rekey) l
    | inr (text, e) ↦ elim (Outcome-cases (passkey_from_str text)) [
      | inl (new, p) ↦ rw (e, p, rekey) l
      | inr (inl p) ↦ rw (e, p, rekey) l
      | inr (inr p) ↦ rw (e, p, rekey) l
    ]
  ]

  upsert_user-Linked :
      (config : Config F) (r : ApiInsertUser) (app : App F)
      → Linked app.stores
      → Linked (upsert_user config r app).1.stores
  unfolding upsert_user
  upsert_user-Linked config r app l = elim (Outcome-cases (passkey_from_str r.passkey)) [
    | inl (p, e) ↦
        rw (e, upsert_user)
          (rekey-Linked config r p (lookup r.id app.stores.users) (without_user r.id app.stores) l)
    | inr (inl e) ↦ rw (e, upsert_user) l
    | inr (inr e) ↦ rw (e, upsert_user) l
  ]

  destroy_user-Linked :
      (id : ℕ) (text : List ℕ) (app : App F)
      → Linked app.stores
      → Linked (destroy_user id text app).1.stores
  unfolding destroy_user
  destroy_user-Linked id text app l = elim (Outcome-cases (passkey_from_str text)) [
    | inl (p, e) ↦ rw (e, destroy_user) l
    | inr (inl e) ↦ rw (e, destroy_user) l
    | inr (inr e) ↦ rw (e, destroy_user) l
  ]

  respond-Linked :
      (config : Config F) (c : Call) (app : App F)
      → Linked app.stores
      → Linked (respond config c app).1.stores
  unfolding respond upsert_group destroy_group upsert_agent destroy_agent upsert_freeleech_token
      destroy_freeleech_token upsert_personal_freeleech destroy_personal_freeleech
      upsert_featured_torrent destroy_featured_torrent
  respond-Linked config (put_torrents r) app l = upsert_torrent-Linked r app l
  respond-Linked config (delete_torrents id) app l = destroy_torrent-Linked id app l
  respond-Linked config (put_users r) app l = upsert_user-Linked config r app l
  respond-Linked config (delete_users id text) app l = destroy_user-Linked id text app l
  respond-Linked config (put_groups g) app l = l
  respond-Linked config (delete_groups id) app l = l
  respond-Linked config (put_blacklisted_agents agent) app l = l
  respond-Linked config (delete_blacklisted_agents agent) app l = l
  respond-Linked config (put_freeleech_tokens token) app l = l
  respond-Linked config (delete_freeleech_tokens token) app l = l
  respond-Linked config (put_personal_freeleech id) app l = l
  respond-Linked config (delete_personal_freeleech id) app l = l
  respond-Linked config (put_featured_torrents id) app l = l
  respond-Linked config (delete_featured_torrents id) app l = l

module _ {F : Type 0} ⦃f : Float F⦄ where
  module _ (config : Config F) (w : World F) (r : Request) where
    visit_torrent-id :
        (stores : Stores F) (b : Bool) (ws : List AnnounceWarning) (t : Torrent)
        (m : Result (Member F))
        → (visit_torrent config w r stores b ws t m).1.id ≡ t.id
    unfolding visit_torrent visit update_torrent
    visit_torrent-id stores b ws t (ok member) = update_torrent-id (visit config w r member b) t ws
    visit_torrent-id stores b ws t (err e) = refl
    visit_torrent-id stores b ws t panic = refl

    finish-Linked :
        (id : ℕ) (b : Bool) (agent : List ℕ) (s : Result (Served F)) (app : App F)
        → Linked app.stores
        → Linked (finish config w r id b agent s app).1.stores
    unfolding finish
    finish-Linked id b agent (ok s) app l = rw (finish-stores config w r id b agent s app) l
    finish-Linked id b agent (err e) app l = l
    finish-Linked id b agent panic app l = l

    note_unregistered-Linked :
        (user : Result (User F)) (app : App F)
        → Linked app.stores
        → Linked (note_unregistered config w r user app).stores
    unfolding note_unregistered
    note_unregistered-Linked (ok user) app l = l
    note_unregistered-Linked (err e) app l = l
    note_unregistered-Linked panic app l = l

    module _ (agent : List ℕ) (user_id : Result ℕ) (user : Result (User F)) where
      announce_found-Linked :
          (id : ℕ) (b : Bool) (app : App F) (t : Torrent)
          → t.id ≡ id
          → Linked app.stores
          → Linked (announce_found config w r id b agent user_id user app t).1.stores
      unfolding announce_found
      announce_found-Linked id b app t own l = elim (Bool-cases t.is_deleted) [
        | inl gone ↦ simp gone (note_unregistered-Linked user app l)
        | inr here ↦ simp here (
            finish-Linked id b agent _ _ (
              insert-Links id _ app.stores.torrents app.stores.infohash2id
                (visit_torrent-id app.stores b _ t (admit app.stores r.queries t user_id user)
                  ∙ own)
                l))
      ]

      announce_to-Linked :
          (id : ℕ) (b : Bool) (app : App F)
          → Linked app.stores
          → Linked (announce_to config w r id b agent user_id user app).1.stores
      unfolding announce_to
      announce_to-Linked id b app l = elim (Option-cases (lookup id app.stores.torrents)) [
        | inl missing ↦ rw (missing, announce_to) l
        | inr (t, found) ↦
            rw (found, announce_to) (announce_found-Linked id b app t (l.keyed id t found) l)
      ]

      announce_connected-Linked :
          (id : ℕ) (app : App F)
          → Linked app.stores
          → Linked (announce_connected config w r id agent user_id user app).1.stores
      unfolding announce_connected
      announce_connected-Linked id app l =
          elim (Result-cases (
            check_connectivity config w.max_utc w.connect_now w.can_connect r.client_ip
              r.queries.port app.stores.connectable_ports)) [
                | inl ((b, ports), p) ↦
                    rw (p, announce_connected)
                      (announce_to-Linked id b
                        (record app { stores = record app.stores { connectable_ports = ports } }) l)
                | inr (inl (e, p)) ↦ rw (p, announce_connected) l
                | inr (inr p) ↦ rw (p, announce_connected) l
              ]

    announce-Linked : (app : App F) → Linked app.stores → Linked (announce config w r app).1.stores
    unfolding announce
    announce-Linked app l = elim (Result-cases (validate app.stores r)) [
      | inr (inl (e, p)) ↦ rw (p, announce) l
      | inr (inr p) ↦ rw (p, announce) l
      | inl ((agent, passkey), p) ↦
          let user_id = find_user_id app.stores passkey in
          let user = find_user app.stores user_id in
          elim (Option-cases (lookup r.queries.info_hash app.stores.infohash2id)) [
            | inl q ↦ rw (p, q, announce) (note_unregistered-Linked user app l)
            | inr (id, q) ↦
                rw (p, q, announce) (announce_connected-Linked agent user_id user id app l)
          ]
    ]

  -- Requests that the tracker has answered, the configuration of each as it was then.
  pub data ServedBy : App F → App F → Type 0 where
    started : (app : App F) → ServedBy app app
    announced :
        {a b : App F} (config : Config F) (w : World F) (r : Request)
        → ServedBy a b
        → ServedBy a (announce config w r b).1
    called :
        {a b : App F} (config : Config F) (c : Call)
        → ServedBy a b
        → ServedBy a (respond config c b).1

  -- After any sequence of announces and of calls of the endpoints, whatever their arguments and their
  -- outcome, every info hash leads to a torrent, every torrent stands under its id, and no id is
  -- there twice, where this was so before.
  pub ServedBy-Linked : {a b : App F} → ServedBy a b → Linked a.stores → Linked b.stores
  ServedBy-Linked (ServedBy.started app) l = l
  ServedBy-Linked (ServedBy.announced config w r run) l =
      announce-Linked config w r _ (ServedBy-Linked run l)
  ServedBy-Linked (ServedBy.called config c run) l =
      respond-Linked config c _ (ServedBy-Linked run l)
