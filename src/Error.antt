-- ===== src/Error.antt =====
-- src/error.rs: the errors of an announce, and the response that each gives.
pub mod Response
pub mod Result
use unit3d_announce.Prelude.{ℕ, Bool, true, false, List, [], ◌∷◌, ◌++◌, length, if◌then◌else◌}
use unit3d_announce.Prelude.Bytes.{bytes, decimal}

pub data AnnounceError : Type 0 where
  internal_tracker_error : AnnounceError
  invalid_query_string_key : AnnounceError
  invalid_query_string_value : AnnounceError
  invalid_peer_id : AnnounceError
  invalid_info_hash : AnnounceError
  invalid_port : AnnounceError
  invalid_uploaded : AnnounceError
  invalid_downloaded : AnnounceError
  invalid_left : AnnounceError
  invalid_compact : AnnounceError
  unsupported_event : AnnounceError
  invalid_numwant : AnnounceError
  missing_info_hash : AnnounceError
  missing_peer_id : AnnounceError
  missing_port : AnnounceError
  missing_uploaded : AnnounceError
  missing_downloaded : AnnounceError
  missing_left : AnnounceError
  abnormal_access : AnnounceError
  invalid_user_agent : AnnounceError
  user_agent_too_long : AnnounceError
  blacklisted_client : AnnounceError
  not_a_client : AnnounceError
  invalid_passkey : AnnounceError
  passkey_not_found : AnnounceError
  user_not_found : AnnounceError
  download_privileges_revoked : AnnounceError
  blacklisted_port : ℕ → AnnounceError
  info_hash_not_found : AnnounceError
  torrent_not_found : AnnounceError
  torrent_is_deleted : AnnounceError
  torrent_is_pending_moderation : AnnounceError
  torrent_is_rejected : AnnounceError
  torrent_is_postponed : AnnounceError
  torrent_unknown_moderation_status : AnnounceError
  group_not_found : AnnounceError
  group_not_enabled : List ℕ → AnnounceError
  peers_per_torrent_per_user_limit : ℕ → AnnounceError
  stopped_peer_does_not_exist : AnnounceError

-- The texts of `#[error(…)]`.
unfoldable pub to_string : AnnounceError → List ℕ
to_string internal_tracker_error = bytes "Internal tracker error."
to_string invalid_query_string_key = bytes "Invalid query string parameter."
to_string invalid_query_string_value = bytes "Invalid query string value."
to_string invalid_peer_id = bytes "Invalid 'peer_id'."
to_string invalid_info_hash = bytes "Invalid 'info_hash'."
to_string invalid_port = bytes "Invalid 'port' (must be greater than or equal to 0)."
to_string invalid_uploaded = bytes "Invalid 'uploaded' (must be greater than or equal to 0)."
to_string invalid_downloaded = bytes "Invalid 'downloaded' (must be greater than or equal to 0)."
to_string invalid_left = bytes "Invalid 'left' (must be greater than or equal to 0)."
to_string invalid_compact = bytes "Your client does not support compact announces."
to_string unsupported_event = bytes "Unsupported 'event' type."
to_string invalid_numwant = bytes "Invalid 'numwant' (must be greater than or equal to 0)."
to_string missing_info_hash = bytes "Query parameter 'info_hash' is missing."
to_string missing_peer_id = bytes "Query parameter 'peer_id' is missing."
to_string missing_port = bytes "Query parameter 'port' is missing."
to_string missing_uploaded = bytes "Query parameter 'uploaded' is missing."
to_string missing_downloaded = bytes "Query parameter 'downloaded' is missing."
to_string missing_left = bytes "Query parameter 'left' is missing."
to_string abnormal_access = bytes "Abnormal access blocked."
to_string invalid_user_agent = bytes "Invalid user agent."
to_string user_agent_too_long = bytes "The user agent of this client is too long."
to_string blacklisted_client = bytes "Client is not acceptable. Please check our blacklist."
to_string not_a_client = bytes "Browser, crawler or cheater is not allowed."
to_string invalid_passkey = bytes "Invalid passkey."
to_string passkey_not_found = bytes "Passkey does not exist. Please re-download the .torrent file."
to_string user_not_found = bytes "User does not exist. Please re-download the .torrent file."
to_string download_privileges_revoked = bytes "Your downloading privileges have been disabled."
to_string (blacklisted_port n) =
    bytes "Illegal port: " ++ decimal n ++ bytes ". Port should be between 6881-64999."
to_string info_hash_not_found = bytes "InfoHash not found."
to_string torrent_not_found = bytes "Torrent not found."
to_string torrent_is_deleted = bytes "Torrent has been deleted."
to_string torrent_is_pending_moderation = bytes "Torrent is pending moderation."
to_string torrent_is_rejected = bytes "Torrent has been rejected."
to_string torrent_is_postponed = bytes "Torrent has been postponed."
to_string torrent_unknown_moderation_status = bytes "Torrent not approved."
to_string group_not_found = bytes "Group not found."
to_string (group_not_enabled n) = bytes "Your account is not enabled. (Current: " ++ n ++ bytes ")."
to_string (peers_per_torrent_per_user_limit n) =
    bytes "You already have " ++ decimal n ++ bytes " peers on this torrent. Ignoring."
to_string stopped_peer_does_not_exist = bytes "Stopped peer doesn't exist."

unfoldable pub is_critical_warning : AnnounceError → Bool
is_critical_warning stopped_peer_does_not_exist = true
is_critical_warning torrent_is_pending_moderation = true
is_critical_warning torrent_is_postponed = true
is_critical_warning torrent_is_rejected = true
is_critical_warning _ = false

-- The errors for which the interval is 30 seconds, as both `match`es list them.
unfoldable pub is_in_moderation : AnnounceError → Bool
is_in_moderation torrent_is_pending_moderation = true
is_in_moderation torrent_is_postponed = true
is_in_moderation torrent_is_rejected = true
is_in_moderation _ = false

-- The body that `into_response` builds; the status is always 200.
unfoldable pub into_response : AnnounceError → List ℕ
unfolding is_critical_warning is_in_moderation
into_response e =
    if is_critical_warning e
    then bytes "d8:completei0e10:downloadedi0e10:incompletei0e"
      ++ (if is_in_moderation e
          then bytes "8:intervali30e12:min intervali30e"
          else bytes "8:intervali5400e12:min intervali5400e")
      ++ bytes "5:peers0:15:warning message"
      ++ decimal (length (to_string e))
      ++ bytes ":"
      ++ to_string e
      ++ bytes "e"
    else bytes "d14:failure reason"
      ++ decimal (length (to_string e))
      ++ bytes ":"
      ++ to_string e
      ++ (if is_in_moderation e
          then bytes "8:intervali30e12:min intervali30ee"
          else bytes "8:intervali5400e12:min intervali5400ee")
