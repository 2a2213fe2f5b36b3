-- ===== src/Tests/Settings.antt =====
-- Settings read from an environment, at concrete variables.
use unit3d_announce.Prelude.{ℕ, ◌≡◌, ◌≢◌, refl, some, none, Option, List, [], ◌∷◌, replicate, arith}
use unit3d_announce.Prelude.Eq.{nat_eq, bytes_eq, list_beq}
use unit3d_announce.Prelude.Ord.{nat_ord}
use unit3d_announce.Prelude.Bytes.{bytes}
use unit3d_announce.Prelude.Map.{Map, lookup}
use unit3d_announce.Prelude.Outcome.{Outcome}
use unit3d_announce.Prelude.Word.{u64_max}
use unit3d_announce.Error.Result.{ok, panic}
use unit3d_announce.Model.{IpAddr, Event}
use unit3d_announce.Rate.Parse.{FloatText}
use unit3d_announce.Config.{Config}
use unit3d_announce.Config.Env.{Env, from_env}
use unit3d_announce.Config.Valid.{Valid, from_env-Valid}
use unit3d_announce.Prelude.Parse.{parse_unsigned}
use unit3d_announce.Queue.Updates.{user_mergeable}
use unit3d_announce.Announce.{announce}
use unit3d_announce.Announce.Request.{Request}
use unit3d_announce.Announce.Query.{from_query}
use unit3d_announce.Announce.Query.Split.{render}
use unit3d_announce.Announce.Query.Print.{is_plain-IsPlain, fields_of, received, from_query-render}
use unit3d_announce.Tests.Requests.{escaped_hash, hash_decoded, id_decoded, sent}
use unit3d_announce.Server.Configured.{configured-announce}
use unit3d_announce.Tests.Fixtures.{numbers, config, queries, peer_id, request, app, world}

-- The variables of an environment.
abbrev settings : Map (List ℕ) (List ℕ)
settings =
    (bytes "FLUSH_INTERVAL_MILLISECONDS", bytes "3000")
    ∷ (bytes "MAX_BATCHES_PER_FLUSH", bytes "2")
    ∷ (bytes "NUMWANT_DEFAULT", bytes "25")
    ∷ (bytes "NUMWANT_MAX", bytes "50")
    ∷ (bytes "ANNOUNCE_MIN", bytes "2100")
    ∷ (bytes "ANNOUNCE_MIN_ENFORCED", bytes "1700")
    ∷ (bytes "ANNOUNCE_MAX", bytes "2400")
    ∷ (bytes "UPLOAD_FACTOR", bytes "100")
    ∷ (bytes "DOWNLOAD_FACTOR", bytes "100")
    ∷ (bytes "PEER_EXPIRY_INTERVAL", bytes "1800")
    ∷ (bytes "ACTIVE_PEER_TTL", bytes "7200")
    ∷ (bytes "INACTIVE_PEER_TTL", bytes "1814400")
    ∷ (bytes "LISTENING_UNIX_SOCKET", bytes "/run/announce")
    ∷ (bytes "MAX_PEERS_PER_TORRENT_PER_USER", bytes "3")
    ∷ (bytes "IS_CONNECTIVITY_CHECK_ENABLED", bytes "true")
    ∷ (bytes "CONNECTIVITY_CHECK_INTERVAL", bytes "604800")
    ∷ (bytes "REQUIRE_PEER_CONNECTIVITY", bytes "false")
    ∷ (bytes "IS_ANNOUNCE_LOGGING_ENABLED", bytes "true")
    ∷ (bytes "REVERSE_PROXY_CLIENT_IP_HEADER_NAME", bytes "X-Real-IP")
    ∷ (bytes "USER_RECEIVE_SEED_LIST_RATE_LIMITS", bytes "60=5;")
    ∷ (bytes "USER_RECEIVE_LEECH_LIST_RATE_LIMITS", bytes "")
    ∷ (bytes "DONOR_UPLOAD_FACTOR_OVERRIDE", bytes "200")
    ∷ (bytes "APIKEY", replicate 32 97)
    ∷ []

abbrev env : Env
env name = lookup name settings

abbrev no_ip : List ℕ → Option IpAddr
no_ip s = none

abbrev floats : FloatText ℕ
floats = record { parse = parse_unsigned u64_max; duration = some }

abbrev configured : Config ℕ
configured = record config {
  max_records_per_batch = none;
  apikey = replicate 32 97;
  listening_ip_address = none;
  listening_port = none;
  listening_unix_socket = some (bytes "/run/announce");
  max_peers_per_torrent_per_user = 3;
  reverse_proxy_client_ip_header_name = some (bytes "X-Real-IP");
  user_receive_seed_list_rate_limits =
      record { count = 0; max_count = 5; window = 60; updated_at = 300 } ∷ [];
  donor_upload_factor_override = some 200;
}

env_read : from_env no_ip floats (some 300) env ≡ Outcome.ok configured
unfolding from_env lookup list_beq
env_read = refl

config_example : Valid configured
config_example = from_env-Valid no_ip floats (some 300) env configured env_read

abbrev query : List ℕ
query = render (fields_of (queries Event.started) escaped_hash (peer_id 1))

abbrev asking : Request
asking = record (request Event.started) { queries = received configured (queries Event.started) }

query_read : from_query configured query ≡ ok asking.queries
query_read =
    from_query-render configured (queries Event.started) escaped_hash (peer_id 1) sent hash_decoded
      id_decoded (is_plain-IsPlain escaped_hash refl) (is_plain-IsPlain (peer_id 1) refl)

configured_example : (announce configured world asking app).0 ≢ panic
configured_example =
    configured-announce no_ip floats (some 300) env configured env_read world asking app query 300
      refl query_read (omega arith) (omega arith)
