-- ===== src/Announce/Effects.antt =====
-- What an announce of src/announce.rs changes, by its outcome.
use unit3d_announce.Prelude.{
  ℕ, ◌≡◌, refl, ap, ◌∙◌, Bool, some, List, arith, Bool-cases, Option-cases, inl, inr,
}
use unit3d_announce.Prelude.Eq.{nat_eq, bytes_eq}
use unit3d_announce.Prelude.Map.{lookup, insert}
use unit3d_announce.Prelude.Map.Laws.{insert-lookup}
use unit3d_announce.Config.{Config}
use unit3d_announce.Rate.{Float}
use unit3d_announce.Warning.{AnnounceWarning}
use unit3d_announce.Error.{AnnounceError}
use unit3d_announce.Store.{Stores}
use unit3d_announce.Store.Torrent.{Torrent}
use unit3d_announce.Store.User.{User}
use unit3d_announce.Announce.Swarm.{
  Result, ok, err, panic, Result-cases, Visit, Change, update_torrent,
}
use unit3d_announce.Announce.Swarm.Counts.{update_torrent-err}
use unit3d_announce.Announce.Request.{Request, validate, find_user_id, find_user}
use unit3d_announce.Announce.Admit.{Member, admit}
use unit3d_announce.Announce.State.{App, World, Served}
use unit3d_announce.Announce.After.{finish}
use unit3d_announce.Announce.Connect.{check_connectivity}
use unit3d_announce.Announce.{
  visit, serve, visit_torrent, note_unregistered, with_torrent, announce_found, announce_to,
  announce_connected, announce,
}

-- What an announce that fails leaves as it was: all but the held connectivity of ports and the queue
-- of unregistered info hashes.
abbrev pub Untouched : {F : Type 0} → App F → App F → Type 0
Untouched a b =
    (a.stores.torrents ≡ b.stores.torrents)
    × (a.stores.users ≡ b.stores.users)
    × (a.queues.peers ≡ b.queues.peers)
    × (a.queues.histories ≡ b.queues.histories)
    × (a.queues.users ≡ b.queues.users)
    × (a.queues.torrents ≡ b.queues.torrents)
    × (a.queues.announces ≡ b.queues.announces)
    × (a.stats ≡ b.stats)

abbrev pub same : {F : Type 0} (a : App F) → Untouched a a
same a = (refl, refl, refl, refl, refl, refl, refl, refl)

module _ {F : Type 0} ⦃f : Float F⦄ (config : Config F) (w : World F) (r : Request) where
  serve-err :
      {e : AnnounceError} (member : Member F) (v : Visit F) (t : Torrent) (c : Result Change)
      → serve config w r member v t c ≡ err e
      → c ≡ err e
  unfolding serve
  serve-err member v t (ok change) h = ground arith
  serve-err member v t (err e) h = ground arith
  serve-err member v t panic h = ground arith

  visit_torrent-err :
      {e : AnnounceError} (stores : Stores F) (b : Bool) (ws : List AnnounceWarning) (t : Torrent)
      (m : Result (Member F))
      → (visit_torrent config w r stores b ws t m).0 ≡ err e
      → (visit_torrent config w r stores b ws t m).1 ≡ t
  unfolding visit_torrent
  visit_torrent-err stores b ws t (ok member) h =
      update_torrent-err (visit config w r member b) t ws (
        serve-err member (visit config w r member b)
          (update_torrent (visit config w r member b) t ws).1
          (update_torrent (visit config w r member b) t ws).0 h)
  visit_torrent-err stores b ws t (err e) h = refl
  visit_torrent-err stores b ws t panic h = refl

  note_unregistered-Untouched :
      (user : Result (User F)) (app : App F) → Untouched (note_unregistered config w r user app) app
  unfolding note_unregistered
  note_unregistered-Untouched (ok user) app = same app
  note_unregistered-Untouched (err e) app = same app
  note_unregistered-Untouched panic app = same app

  finish-err :
      {e : AnnounceError} (id : ℕ) (b : Bool) (agent : List ℕ) (s : Result (Served F)) (app : App F)
      → (finish config w r id b agent s app).0 ≡ err e
      → (s ≡ err e) × ((finish config w r id b agent s app).1 ≡ app)
  unfolding finish
  finish-err id b agent (ok s) app h = ground arith
  finish-err id b agent (err e) app h = (ground arith, refl)
  finish-err id b agent panic app h = ground arith

  restored :
      (a app : App F) (id : ℕ) (t t' : Torrent)
      → a ≡ with_torrent config w r id t' app
      → t' ≡ t
      → lookup id app.stores.torrents ≡ some t
      → Untouched a app
  restored a app id t t' p q h = (
    ap (λ (a : App F). a.stores.torrents) p
        ∙ (ap (λ t. insert id t app.stores.torrents) q ∙ insert-lookup id t app.stores.torrents h),
    ap (λ (a : App F). a.stores.users) p,
    ap (λ (a : App F). a.queues.peers) p,
    ap (λ (a : App F). a.queues.histories) p,
    ap (λ (a : App F). a.queues.users) p,
    ap (λ (a : App F). a.queues.torrents) p,
    ap (λ (a : App F). a.queues.announces) p,
    ap (λ (a : App F). a.stats) p,
  )

  announce_found-err :
      {e : AnnounceError} (id : ℕ) (b : Bool) (agent : List ℕ) (user_id : Result ℕ)
      (user : Result (User F)) (app : App F) (t : Torrent)
      → lookup id app.stores.torrents ≡ some t
      → (announce_found config w r id b agent user_id user app t).0 ≡ err e
      → Untouched (announce_found config w r id b agent user_id user app t).1 app
  unfolding announce_found
  announce_found-err id b agent user_id user app t found = elim (Bool-cases t.is_deleted) [
    | inl gone ↦ simp gone (λ h. note_unregistered-Untouched user app)
    | inr here ↦ simp here (λ h.
        let (e, p) = finish-err id b agent _ _ h in
        restored _ app id t _ p
          (visit_torrent-err app.stores b _ t (admit app.stores r.queries t user_id user) e) found)
  ]

  announce_to-err :
      {e : AnnounceError} (id : ℕ) (b : Bool) (agent : List ℕ) (user_id : Result ℕ)
      (user : Result (User F)) (app : App F)
      → (announce_to config w r id b agent user_id user app).0 ≡ err e
      → Untouched (announce_to config w r id b agent user_id user app).1 app
  unfolding announce_to
  announce_to-err id b agent user_id user app =
      elim (Option-cases (lookup id app.stores.torrents)) [
        | inl missing ↦ rw (missing, announce_to) (λ h. same app)
        | inr (t, found) ↦
            rw (found, announce_to) (announce_found-err id b agent user_id user app t found)
      ]

  announce_connected-err :
      {e : AnnounceError} (id : ℕ) (agent : List ℕ) (user_id : Result ℕ) (user : Result (User F))
      (app : App F)
      → (announce_connected config w r id agent user_id user app).0 ≡ err e
      → Untouched (announce_connected config w r id agent user_id user app).1 app
  unfolding announce_connected
  announce_connected-err id agent user_id user app =
      elim (Result-cases (
        check_connectivity config w.max_utc w.connect_now w.can_connect r.client_ip r.queries.port
          app.stores.connectable_ports)) [
            | inl ((b, ports), p) ↦
                rw (p, announce_connected)
                  (announce_to-err id b agent user_id user
                    (record app { stores = record app.stores { connectable_ports = ports } }))
            | inr (inl (e, p)) ↦ rw (p, announce_connected) (λ h. same app)
            | inr (inr p) ↦ rw (p, announce_connected) (λ h. same app)
          ]

  -- An announce that fails changes no torrent, no user, none of the queues of peers, histories,
  -- users, torrents and announces, and no statistics.
  pub announce-err :
      (app : App F) {e : AnnounceError}
      → (announce config w r app).0 ≡ err e
      → Untouched (announce config w r app).1 app
  unfolding announce
  announce-err app = elim (Result-cases (validate app.stores r)) [
    | inr (inl (e, p)) ↦ rw (p, announce) (λ h. same app)
    | inr (inr p) ↦ rw (p, announce) (λ h. same app)
    | inl ((agent, passkey), p) ↦
        let user_id = find_user_id app.stores passkey in
        let user = find_user app.stores user_id in
        elim (Option-cases (lookup r.queries.info_hash app.stores.infohash2id)) [
          | inl q ↦ rw (p, q, announce) (λ h. note_unregistered-Untouched user app)
          | inr (id, q) ↦ rw (p, q, announce) (announce_connected-err id agent user_id user app)
        ]
  ]
