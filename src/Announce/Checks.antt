-- ===== src/Announce/Checks.antt =====
-- What the checks of `announce` in src/announce.rs let through.
use unit3d_announce.Prelude.{
  ◌≤◌, ℕ, ◌≡◌, ◌⊎◌, true, false, not, ◌&&◌, some, List, length, arith, Bool-cases, inl, inr, ◌==◌,
}
use unit3d_announce.Prelude.Eq.{nat_eq, bytes_eq, int_eq}
use unit3d_announce.Prelude.Map.{lookup, contains_key}
use unit3d_announce.Model.{Event, event_eq}
use unit3d_announce.Model.Hash.RoundTrip.{passkey_from_str_lem}
use unit3d_announce.Model.Status.{TorrentStatus}
use unit3d_announce.Store.{Stores}
use unit3d_announce.Store.Torrent.{Torrent}
use unit3d_announce.Store.User.{User}
use unit3d_announce.Announce.Query.{Announce}
use unit3d_announce.Announce.Swarm.{Result, ok, err, panic}
use unit3d_announce.Announce.Request.{
  Request, validate, check_headers, check_client, parse_passkey, user_agent_text, is_blacklisted,
  is_browser, find_user_id, find_user,
}
use unit3d_announce.Announce.Admit.{
  Member, admit, check_status, check_privileges, check_group, is_disabled,
}

-- The torrent, the user and the group of a request may have an answer.
pub record Admitted (queries : Announce) (t : Torrent) {F : Type 0} (stores : Stores F)
    (m : Member F) : Type 0 where
  pub status : t.status ≡ TorrentStatus.approved
  pub privileges : (m.user.can_download ≡ true) ⊎ (queries.left ≡ 0)
  pub group : lookup m.user.group_id stores.groups ≡ some m.group
  pub enabled : is_disabled m.group ≡ false

parse_passkey-is_text : (s passkey : List ℕ) → parse_passkey s ≡ ok passkey → passkey ≡ s
unfolding parse_passkey
parse_passkey-is_text s passkey = elim (Bool-cases (length s == 32)) [
  | inl e ↦ rw (passkey_from_str_lem s, e, parse_passkey) (λ h. ground arith)
  | inr e ↦ rw (passkey_from_str_lem s, e, parse_passkey) (λ h. ground arith)
]

module _ {F : Type 0} (stores : Stores F) where
  pub admit-Admitted :
      (q : Announce) (t : Torrent) (user_id : Result ℕ) (user : Result (User F)) (m : Member F)
      → admit stores q t user_id user ≡ ok m
      → Admitted q t stores m × (user_id ≡ ok m.user_id) × (user ≡ ok m.user)
  unfolding admit check_status check_privileges check_group
  admit-Admitted q t (ok id) (ok u) m h = (
    record {
      status = ground arith;
      privileges = ground arith;
      group = ground arith;
      enabled = ground arith;
    },
    ground arith,
    ground arith,
  )
  admit-Admitted q t (err e) user m h = ground arith
  admit-Admitted q t panic user m h = ground arith
  admit-Admitted q t (ok id) (err e) m h = ground arith
  admit-Admitted q t (ok id) panic m h = ground arith

  pub find_user_id-ok :
      (passkey : List ℕ) (id : ℕ)
      → find_user_id stores passkey ≡ ok id
      → lookup passkey stores.passkey2id ≡ some id
  unfolding find_user_id
  find_user_id-ok passkey id h = ground arith

  pub find_user-ok :
      (id : ℕ) (user : User F)
      → find_user stores (ok id) ≡ ok user
      → lookup id stores.users ≡ some user
  unfolding find_user
  find_user-ok id user h = ground arith

  -- What the checks before the torrent let through.
  pub record Valid (r : Request) (agent passkey : List ℕ) : Type 0 where
    pub own : passkey ≡ r.passkey
    pub headers :
        (r.has_accept_language ≡ false)
        × (r.has_referer ≡ false)
        × (r.has_accept_charset ≡ false)
        × (r.has_want_digest ≡ false)
    pub named : r.user_agent ≡ some (some agent)
    pub short : length agent ≤ 64
    pub client : is_blacklisted r.queries.peer_id stores.agent_blacklist ≡ false
    pub no_browser : is_browser agent ≡ false
    pub port :
        (contains_key r.queries.port stores.port_blacklist
          && not (event_eq r.queries.event Event.stopped))
        ≡ false

  pub validate-Valid :
      (r : Request) (agent passkey : List ℕ)
      → validate stores r ≡ ok (agent, passkey)
      → Valid r agent passkey
  unfolding validate check_headers check_client user_agent_text
  validate-Valid r agent passkey h = record {
    own = ground (arith, parse_passkey-is_text r.passkey passkey);
    headers = ground arith;
    named = ground arith;
    short = ground arith;
    client = ground arith;
    no_browser = ground arith;
    port = ground arith;
  }
