-- ===== src/Announce/Request.antt =====
-- The checks that `announce` of src/announce.rs makes before it looks for the torrent.
use unit3d_announce.Prelude.{
  ℕ, ◌+◌, Bool, true, false, not, ◌&&◌, ◌||◌, Option, none, some, List, [], ◌∷◌, length, ltb, leb,
  ◌==◌, if◌then◌else◌,
}
use unit3d_announce.Prelude.Eq.{nat_eq, bytes_eq}
use unit3d_announce.Prelude.Bytes.{bytes}
use unit3d_announce.Prelude.Map.{Map, lookup, contains_key}
use unit3d_announce.Prelude.Outcome.{Outcome}
use unit3d_announce.Model.{IpAddr, Event, event_eq}
use unit3d_announce.Model.Hash.{passkey_from_str}
use unit3d_announce.Error.{AnnounceError}
use unit3d_announce.Store.{Stores}
use unit3d_announce.Store.User.{User}
use unit3d_announce.Announce.Query.{Announce}
use unit3d_announce.Announce.Swarm.{Result, ok, err, panic, ◌>>=◌, ok_or}

-- What the handler is given: which headers there are, the user agent, if it is there, and its text,
-- if the header is one, the passkey of the path, the query and the address of the client.
pub record Request : Type 0 where
  pub has_accept_language : Bool
  pub has_referer : Bool
  pub has_accept_charset : Bool
  pub has_want_digest : Bool
  pub user_agent : Option (Option (List ℕ))
  pub passkey : List ℕ
  pub queries : Announce
  pub client_ip : IpAddr

-- `starts_with` of slices.
unfoldable pub starts_with : List ℕ → List ℕ → Bool
starts_with s [] = true
starts_with [] (p ∷ ps) = false
starts_with (c ∷ s) (p ∷ ps) = (c == p) && starts_with s ps

-- `str::contains`
unfoldable pub contains : List ℕ → List ℕ → Bool
unfolding starts_with
contains [] text = starts_with [] text
contains (c ∷ s) text = starts_with (c ∷ s) text || contains s text

-- `str::to_ascii_lowercase`
unfoldable pub to_ascii_lowercase : List ℕ → List ℕ
to_ascii_lowercase [] = []
to_ascii_lowercase (c ∷ s) = (if leb b'A' c && leb c b'Z' then c + 32 else c) ∷ to_ascii_lowercase s

-- The loop over the blacklist of agents.
unfoldable pub is_blacklisted : List ℕ → Map (List ℕ) (Unit {0}) → Bool
unfolding starts_with
is_blacklisted peer_id [] = false
is_blacklisted peer_id ((peer_id_prefix, _) ∷ clients) =
    if starts_with peer_id peer_id_prefix then true else is_blacklisted peer_id clients

-- The words by which the handler knows a browser or a crawler.
abbrev pub browser_words : List (List ℕ)
browser_words =
    bytes "mozilla"
    ∷ bytes "browser"
    ∷ bytes "chrome"
    ∷ bytes "safari"
    ∷ bytes "applewebkit"
    ∷ bytes "opera"
    ∷ bytes "links"
    ∷ bytes "lynx"
    ∷ bytes "bot"
    ∷ bytes "unknown"
    ∷ []

unfoldable pub contains_any : List ℕ → List (List ℕ) → Bool
unfolding contains
contains_any s [] = false
contains_any s (word ∷ words) = contains s word || contains_any s words

unfoldable pub is_browser : List ℕ → Bool
unfolding to_ascii_lowercase contains_any
is_browser user_agent = contains_any (to_ascii_lowercase user_agent) browser_words

-- The text of the user agent, which is required.
unfoldable pub user_agent_text : Option (Option (List ℕ)) → Result (List ℕ)
user_agent_text none = err AnnounceError.invalid_user_agent
user_agent_text (some none) = err AnnounceError.invalid_user_agent
user_agent_text (some (some text)) = ok text

-- `Passkey::from_str(…).or(Err(InvalidPasskey))`
unfoldable pub parse_passkey : List ℕ → Result (List ℕ)
unfolding passkey_from_str
parse_passkey s = elim (passkey_from_str s) [
  | Outcome.ok passkey ↦ ok passkey
  | Outcome.bail ↦ err AnnounceError.invalid_passkey
  | Outcome.panic ↦ panic
]

module _ {F : Type 0} (stores : Stores F) where
  -- The checks of the user agent, the client and the port.
  unfoldable pub check_client : Request → List ℕ → Result (Unit {0})
  unfolding is_blacklisted is_browser
  check_client r user_agent =
      if ltb 64 (length user_agent)
      then err AnnounceError.user_agent_too_long
      else if is_blacklisted r.queries.peer_id stores.agent_blacklist
      then err AnnounceError.blacklisted_client
      else if is_browser user_agent
      then err AnnounceError.not_a_client
      else if contains_key r.queries.port stores.port_blacklist
          && not (event_eq r.queries.event Event.stopped)
      then err (AnnounceError.blacklisted_port r.queries.port)
      else ok tt

  unfoldable pub check_headers : Request → Result (List ℕ)
  unfolding user_agent_text
  check_headers r =
      if r.has_accept_language || r.has_referer || r.has_accept_charset || r.has_want_digest
      then err AnnounceError.abnormal_access
      else user_agent_text r.user_agent

  -- All the checks up to the passkey: the user agent and the passkey.
  unfoldable pub validate : Request → Result (List ℕ × List ℕ)
  unfolding check_headers check_client parse_passkey
  validate r = do
    user_agent ← check_headers r
    _ ← check_client r user_agent
    passkey ← parse_passkey r.passkey
    ok (user_agent, passkey)

  -- The user's id, by the passkey.
  unfoldable pub find_user_id : List ℕ → Result ℕ
  find_user_id passkey = ok_or AnnounceError.passkey_not_found (lookup passkey stores.passkey2id)

  -- The user, where the passkey is known.
  unfoldable pub find_user : Result ℕ → Result (User F)
  find_user (ok user_id) = ok_or AnnounceError.user_not_found (lookup user_id stores.users)
  find_user _ = err AnnounceError.user_not_found
