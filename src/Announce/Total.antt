-- ===== src/Announce/Total.antt =====
-- An announce of src/announce.rs never panics: the conversions and ranges that could are within
-- their bounds.
use unit3d_announce.Prelude.{
  ℕ, ◌+◌, ◌/◌, ◌≤◌, ◌≡◌, ◌≢◌, Bool, Option, none, some, List, length, arith, Bool-cases,
  Option-cases, inl, inr, ◌==◌,
}
use unit3d_announce.Prelude.Int.{ℤ, pos, negsuc, pos_part, neg_part}
use unit3d_announce.Prelude.Eq.{nat_eq, bytes_eq, int_eq}
use unit3d_announce.Prelude.Word.{i64_max}
use unit3d_announce.Prelude.Map.{lookup}
use unit3d_announce.Config.{Config}
use unit3d_announce.Rate.{Float}
use unit3d_announce.Warning.{AnnounceWarning}
use unit3d_announce.Model.Hash.RoundTrip.{passkey_from_str_lem}
use unit3d_announce.Store.{Stores, ConnectablePort}
use unit3d_announce.Store.Torrent.{Torrent}
use unit3d_announce.Store.User.{User}
use unit3d_announce.Announce.Query.{Announce}
use unit3d_announce.Announce.Swarm.{
  Result, ok, err, panic, Result-cases, Visit, update_peers, update_torrent,
}
use unit3d_announce.Announce.Request.{
  Request, validate, check_headers, check_client, parse_passkey, user_agent_text, find_user_id,
  find_user,
}
use unit3d_announce.Announce.Admit.{Member, check_status, check_privileges, check_group, admit}
use unit3d_announce.Queue.Updates.{pair_eq}
use unit3d_announce.Announce.Connect.{ip_eq}
use unit3d_announce.Announce.State.{App, World, Served}
use unit3d_announce.Announce.After.{finish}
use unit3d_announce.Announce.After.Users.{finish-answers}
use unit3d_announce.Announce.Answer.{draws_fit}
use unit3d_announce.Announce.Connect.{cached_until, cached, check_connectivity}
use unit3d_announce.Announce.{
  visit, serve, visit_torrent, announce_found, announce_to, announce_connected, announce,
}

-- What keeps the conversions in range: the interval of announces is one, the milliseconds of the
-- connectivity check's interval fit in 64 bits, the clock is past the epoch, and memory can be
-- reserved for as many peers as are asked for.
pub record InRange {F : Type 0} (config : Config F) (w : World F) (r : Request) : Type 0 where
  pub interval : config.announce_min ≤ config.announce_max
  pub connectivity :
      pos_part config.connectivity_check_interval + neg_part config.connectivity_check_interval
      ≤ i64_max / 1000
  pub epoch : F
  pub clock : w.rates_now ≡ some epoch
  pub reserves : r.queries.numwant ≤ w.capacity

parse_passkey-ne-panic : (s : List ℕ) → parse_passkey s ≢ panic
unfolding parse_passkey
parse_passkey-ne-panic s = elim (Bool-cases (length s == 32)) [
  | inl e ↦ rw (passkey_from_str_lem s, e, parse_passkey) (ground arith)
  | inr e ↦ rw (passkey_from_str_lem s, e, parse_passkey) (ground arith)
]

check_headers-ne-panic :
    {F : Type 0} (stores : Stores F) (r : Request) → check_headers stores r ≢ panic
unfolding check_headers user_agent_text
check_headers-ne-panic stores r = ground arith

check_client-ne-panic :
    {F : Type 0} (stores : Stores F) (r : Request) (agent : List ℕ)
    → check_client stores r agent ≢ panic
unfolding check_client
check_client-ne-panic stores r agent = ground arith

validate-ne-panic : {F : Type 0} (stores : Stores F) (r : Request) → validate stores r ≢ panic
unfolding validate
validate-ne-panic stores r = elim (Result-cases (check_headers stores r)) [
  | inr (inl (e, p)) ↦ rw (p, validate) (ground arith)
  | inr (inr p) ↦ absurd (check_headers-ne-panic stores r p)
  | inl (agent, p) ↦
      rw (p, validate)
        (ground (arith, check_client-ne-panic stores r agent, parse_passkey-ne-panic r.passkey))
]

update_peers-ne-panic :
    {F : Type 0} (v : Visit F) (t : Torrent) (ws : List AnnounceWarning)
    → (update_torrent v t ws).0 ≢ panic
unfolding update_torrent update_peers
update_peers-ne-panic v t ws = ground arith

admit-ne-panic :
    {F : Type 0} (stores : Stores F) (q : Announce) (t : Torrent) (user_id : Result ℕ)
    (user : Result (User F))
    → user_id ≢ panic
    → user ≢ panic
    → admit stores q t user_id user ≢ panic
unfolding admit check_status check_privileges check_group
admit-ne-panic stores q t user_id user a b = ground arith

cached_until-ne-panic :
    (max_utc time : ℕ) (i : ℤ)
    → pos_part i + neg_part i ≤ i64_max / 1000
    → cached_until max_utc time i ≢ panic
unfolding cached_until
cached_until-ne-panic max_utc time (pos n) h = ground arith
cached_until-ne-panic max_utc time (negsuc n) h = ground arith

module _ {F : Type 0} ⦃f : Float F⦄ (config : Config F) (w : World F) (r : Request)
    (fits : InRange config w r) where
  cached-ne-panic : (p : Option ConnectablePort) → cached config w.max_utc w.connect_now p ≢ panic
  unfolding cached
  cached-ne-panic none = ground arith
  cached-ne-panic (some p) = ground (
    arith,
    cached_until-ne-panic w.max_utc p.updated_at config.connectivity_check_interval
        fits.connectivity,
  )

  check_connectivity-ne-panic :
      (stores : Stores F)
      → check_connectivity config w.max_utc w.connect_now w.can_connect r.client_ip r.queries.port
          stores.connectable_ports
        ≢ panic
  unfolding check_connectivity
  check_connectivity-ne-panic stores =
      let p = lookup (r.client_ip, r.queries.port) stores.connectable_ports in
      ground (arith, cached-ne-panic p)

  visit_torrent-ne-panic :
      (stores : Stores F) (b : Bool) (ws : List AnnounceWarning) (t : Torrent)
      (m : Result (Member F))
      → m ≢ panic
      → (visit_torrent config w r stores b ws t m).0 ≢ panic
  unfolding visit_torrent serve draws_fit
  visit_torrent-ne-panic stores b ws t (ok member) h =
      let n = update_peers-ne-panic (visit config w r member b) t ws in
      let i = fits.interval in let room = fits.reserves in ground arith
  visit_torrent-ne-panic stores b ws t (err e) h = ground arith
  visit_torrent-ne-panic stores b ws t panic h = ground arith

  finish-ne-panic :
      (id : ℕ) (b : Bool) (agent : List ℕ) (s : Result (Served F)) (app : App F)
      → s ≢ panic
      → (finish config w r id b agent s app).0 ≢ panic
  unfolding finish
  finish-ne-panic id b agent (ok s) app h =
      ground (arith, finish-answers config w r fits.epoch fits.clock id b agent s app)
  finish-ne-panic id b agent (err e) app h = ground arith
  finish-ne-panic id b agent panic app h = ground arith

  module _ (agent : List ℕ) (user_id : Result ℕ) (user : Result (User F)) (known : user_id ≢ panic)
      (there : user ≢ panic) where
    announce_to-ne-panic :
        (id : ℕ) (b : Bool) (app : App F)
        → (announce_to config w r id b agent user_id user app).0 ≢ panic
    unfolding announce_to announce_found
    announce_to-ne-panic id b app = elim (Option-cases (lookup id app.stores.torrents)) [
      | inl missing ↦ rw (missing, announce_to) (ground arith)
      | inr (t, found) ↦
          rw (found, announce_to)
            (elim (Bool-cases t.is_deleted) [
              | inl gone ↦ simp gone (ground arith)
              | inr here ↦ simp here (
                  finish-ne-panic id b agent _ _ (
                    visit_torrent-ne-panic app.stores b _ t
                      (admit app.stores r.queries t user_id user)
                      (admit-ne-panic app.stores r.queries t user_id user known there)))
            ])
    ]

    announce_connected-ne-panic :
        (id : ℕ) (app : App F) → (announce_connected config w r id agent user_id user app).0 ≢ panic
    unfolding announce_connected
    announce_connected-ne-panic id app =
        elim (Result-cases (
          check_connectivity config w.max_utc w.connect_now w.can_connect r.client_ip r.queries.port
            app.stores.connectable_ports)) [
              | inl ((b, ports), p) ↦
                  rw (p, announce_connected)
                    (announce_to-ne-panic id b
                      (record app { stores = record app.stores { connectable_ports = ports } }))
              | inr (inl (e, p)) ↦ rw (p, announce_connected) (ground arith)
              | inr (inr p) ↦ absurd (check_connectivity-ne-panic app.stores p)
            ]

  find_user-ne-panic : (stores : Stores F) (user_id : Result ℕ) → find_user stores user_id ≢ panic
  unfolding find_user
  find_user-ne-panic stores (ok user_id) = ground arith
  find_user-ne-panic stores (err e) = ground arith
  find_user-ne-panic stores panic = ground arith

  find_user_id-ne-panic :
      (stores : Stores F) (passkey : List ℕ) → find_user_id stores passkey ≢ panic
  unfolding find_user_id
  find_user_id-ne-panic stores passkey = ground arith

  -- Where the least interval is at most the greatest, the milliseconds of the interval of the
  -- connectivity check fit in 64 bits, the clock is past the epoch and memory can be reserved for as
  -- many peers as are asked for, every announce gives an answer or an error: it never panics.
  pub announce-ne-panic : (app : App F) → (announce config w r app).0 ≢ panic
  unfolding announce
  announce-ne-panic app = elim (Result-cases (validate app.stores r)) [
    | inr (inl (e, p)) ↦ rw (p, announce) (ground arith)
    | inr (inr p) ↦ absurd (validate-ne-panic app.stores r p)
    | inl ((agent, passkey), p) ↦
        let user_id = find_user_id app.stores passkey in
        elim (Option-cases (lookup r.queries.info_hash app.stores.infohash2id)) [
          | inl q ↦ rw (p, q, announce) (ground arith)
          | inr (id, q) ↦
              rw (p, q, announce)
                (announce_connected-ne-panic agent user_id (find_user app.stores user_id)
                  (find_user_id-ne-panic app.stores passkey) (find_user-ne-panic app.stores user_id)
                  id app)
        ]
  ]
