-- ===== src/Announce/Answered.antt =====
-- Who is answered by `announce` of src/announce.rs.
use unit3d_announce.Announce.Checks.{
  Admitted, Valid, admit-Admitted, find_user_id-ok, find_user-ok, validate-Valid,
}
use unit3d_announce.Prelude.{
  ℕ, ◌≡◌, refl, Bool, false, some, List, arith, Bool-cases, Option-cases, inl, inr,
}
use unit3d_announce.Prelude.Eq.{nat_eq, bytes_eq, int_eq}
use unit3d_announce.Prelude.Map.{lookup}
use unit3d_announce.Config.{Config}
use unit3d_announce.Rate.{Float}
use unit3d_announce.Warning.{AnnounceWarning}
use unit3d_announce.Store.{Stores}
use unit3d_announce.Store.Torrent.{Torrent}
use unit3d_announce.Store.User.{User}
use unit3d_announce.Announce.Swarm.{Result, ok, err, panic, Result-cases}
use unit3d_announce.Announce.Request.{Request, validate, find_user_id, find_user}
use unit3d_announce.Announce.Admit.{Member, admit}
use unit3d_announce.Announce.State.{App, World, Served}
use unit3d_announce.Announce.After.{finish}
use unit3d_announce.Announce.Connect.{check_connectivity}
use unit3d_announce.Announce.{
  visit_torrent, announce_found, announce_to, announce_connected, announce,
}

-- What lets a request have an answer: the checks of the request, the user by the passkey, and the
-- torrent by the info hash.
pub record Allowed (r : Request) {F : Type 0} (stores : Stores F) : Type 0 where
  pub agent : List ℕ
  pub valid : Valid stores r agent r.passkey
  pub torrent_id : ℕ
  pub torrent : Torrent
  pub member : Member F
  pub user_known : lookup r.passkey stores.passkey2id ≡ some member.user_id
  pub user_there : lookup member.user_id stores.users ≡ some member.user
  pub torrent_known : lookup r.queries.info_hash stores.infohash2id ≡ some torrent_id
  pub torrent_there : lookup torrent_id stores.torrents ≡ some torrent
  pub not_deleted : torrent.is_deleted ≡ false
  pub admitted : Admitted r.queries torrent stores member

module _ {F : Type 0} ⦃f : Float F⦄ (config : Config F) (w : World F) (r : Request) where
  finish-ok :
      {out : List ℕ} (id : ℕ) (b : Bool) (agent : List ℕ) (s : Result (Served F)) (app : App F)
      → (finish config w r id b agent s app).0 ≡ ok out
      → (served : Served F) × (s ≡ ok served)
  unfolding finish
  finish-ok id b agent (ok s) app h = (s, refl)
  finish-ok id b agent (err e) app h = absurd (ground arith)
  finish-ok id b agent panic app h = absurd (ground arith)

  visit_torrent-ok :
      {served : Served F} (stores : Stores F) (b : Bool) (ws : List AnnounceWarning) (t : Torrent)
      (m : Result (Member F))
      → (visit_torrent config w r stores b ws t m).0 ≡ ok served
      → (member : Member F) × (m ≡ ok member)
  unfolding visit_torrent
  visit_torrent-ok stores b ws t (ok member) h = (member, refl)
  visit_torrent-ok stores b ws t (err e) h = absurd (ground arith)
  visit_torrent-ok stores b ws t panic h = absurd (ground arith)

  announce_found-ok :
      {out : List ℕ} (id : ℕ) (b : Bool) (agent : List ℕ) (user_id : Result ℕ)
      (user : Result (User F)) (app : App F) (t : Torrent)
      → (announce_found config w r id b agent user_id user app t).0 ≡ ok out
      → (t.is_deleted ≡ false)
        × ((member : Member F) × (admit app.stores r.queries t user_id user ≡ ok member))
  unfolding announce_found
  announce_found-ok id b agent user_id user app t = elim (Bool-cases t.is_deleted) [
    | inl gone ↦ simp gone (λ h. ground arith)
    | inr here ↦ simp here (λ h.
        let served = finish-ok id b agent _ _ h in
        (
          refl,
          visit_torrent-ok app.stores b _ t (admit app.stores r.queries t user_id user) served.1,
        ))
  ]

  -- The torrent and the member behind an answer.
  abbrev pub Found : Stores F → ℕ → Result ℕ → Result (User F) → Type 0
  Found stores id user_id user =
      (t : Torrent) × (member : Member F) × (lookup id stores.torrents ≡ some t)
      × (t.is_deleted ≡ false)
      × (admit stores r.queries t user_id user ≡ ok member)

  announce_to-ok :
      {out : List ℕ} (id : ℕ) (b : Bool) (agent : List ℕ) (user_id : Result ℕ)
      (user : Result (User F)) (app : App F)
      → (announce_to config w r id b agent user_id user app).0 ≡ ok out
      → Found app.stores id user_id user
  unfolding announce_to
  announce_to-ok id b agent user_id user app = elim (Option-cases (lookup id app.stores.torrents)) [
    | inl missing ↦ rw (missing, announce_to) (λ h. absurd (ground arith))
    | inr (t, found) ↦
        rw (found, announce_to)
          (λ h.
            let (here, m) = announce_found-ok id b agent user_id user app t h in
            (t, m.0, refl, here, m.1))
  ]

  announce_connected-ok :
      {out : List ℕ} (id : ℕ) (agent : List ℕ) (user_id : Result ℕ) (user : Result (User F))
      (app : App F)
      → (announce_connected config w r id agent user_id user app).0 ≡ ok out
      → Found app.stores id user_id user
  unfolding announce_connected
  announce_connected-ok id agent user_id user app =
      elim (Result-cases (
        check_connectivity config w.max_utc w.connect_now w.can_connect r.client_ip r.queries.port
          app.stores.connectable_ports)) [
            | inl ((b, ports), p) ↦
                rw (p, announce_connected)
                  (λ h.
                    announce_to-ok id b agent user_id user
                      (record app { stores = record app.stores { connectable_ports = ports } }) h)
            | inr (inl (e, p)) ↦ rw (p, announce_connected) (λ h. absurd (ground arith))
            | inr (inr p) ↦ rw (p, announce_connected) (λ h. absurd (ground arith))
          ]

  Found-Allowed :
      (agent passkey : List ℕ) (id : ℕ) (stores : Stores F)
      → Valid stores r agent passkey
      → lookup r.queries.info_hash stores.infohash2id ≡ some id
      → Found stores id
          (find_user_id stores passkey)
          (find_user stores (find_user_id stores passkey))
      → Allowed r stores
  Found-Allowed agent passkey id stores valid known (t, member, there, here, admitted) =
      let (a, user_id, user) =
        admit-Admitted stores r.queries t (find_user_id stores passkey)
          (find_user stores (find_user_id stores passkey)) member admitted in
      record {
        agent = agent;
        valid = rw valid.own at valid;
        torrent_id = id;
        torrent = t;
        member = member;
        user_known = rw valid.own at (find_user_id-ok stores passkey member.user_id user_id);
        user_there = find_user-ok stores member.user_id member.user (rw user_id at user);
        torrent_known = known;
        torrent_there = there;
        not_deleted = here;
        admitted = a;
      }

  -- Only an allowed announce is answered with peers: no header of a browser, a user agent of at most
  -- 64 bytes that names no browser, a client that is not blacklisted, a port that is not either
  -- unless the event is stopped, the passkey of a user that is there and whose group is there and
  -- enabled, a registered info hash, an approved torrent that is not deleted, and the privilege to
  -- download unless nothing is left.
  pub announce-Allowed :
      (app : App F) {out : List ℕ} → (announce config w r app).0 ≡ ok out → Allowed r app.stores
  unfolding announce
  announce-Allowed app = elim (Result-cases (validate app.stores r)) [
    | inr (inl (e, p)) ↦ rw (p, announce) (λ h. absurd (ground arith))
    | inr (inr p) ↦ rw (p, announce) (λ h. absurd (ground arith))
    | inl ((agent, passkey), p) ↦
        let user_id = find_user_id app.stores passkey in
        elim (Option-cases (lookup r.queries.info_hash app.stores.infohash2id)) [
          | inl q ↦ rw (p, q, announce) (λ h. absurd (ground arith))
          | inr (id, q) ↦
              rw (p, q, announce)
                (λ h.
                  Found-Allowed agent passkey id app.stores
                    (validate-Valid app.stores r agent passkey p) q
                    (announce_connected-ok id agent user_id (find_user app.stores user_id) app h))
        ]
  ]
