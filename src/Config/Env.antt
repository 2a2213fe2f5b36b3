-- ===== src/Config/Env.antt =====
-- `Config::from_env` of src/config.rs.
use unit3d_announce.Prelude.{
  ℕ, Bool, true, false, not, ◌&&◌, ◌||◌, Option, none, some, List, length, leb, ltb,
}
use unit3d_announce.Prelude.Bytes.{bytes}
use unit3d_announce.Prelude.Int.{ℤ}
use unit3d_announce.Prelude.Outcome.{Outcome, ok, bail, ◌>>=◌}
use unit3d_announce.Prelude.Parse.{parse_unsigned, parse_signed, parse_bool, parse_nonzero}
use unit3d_announce.Prelude.Word.{u8_max, u16_max, u32_max, u64_max, i64_max}
use unit3d_announce.Model.{IpAddr}
use unit3d_announce.Rate.{Float, Rate}
use unit3d_announce.Rate.Parse.{FloatText, or_bail, new_from_string}
use unit3d_announce.Config.{Config}

-- `env::var`, for names that are bytes.
abbrev pub Env : Type 0
Env = List ℕ → Option (List ℕ)

-- `env::var(…).context(…)?.parse().context(…)?`
unfoldable pub required {ℓ} : {A : Type ℓ} → Env → List ℕ → (List ℕ → Option A) → Outcome A
unfolding or_bail
required env name parse = do s ← or_bail (env name); or_bail (parse s)

-- `env::var(…).ok().map(|s| s.parse()).transpose().context(…)?`
unfoldable pub optional {ℓ} : {A : Type ℓ} → Env → List ℕ → (List ℕ → Option A) → Outcome (Option A)
optional env name parse = elim (env name) [
  | none ↦ ok none
  | some s ↦ elim (parse s) [ none ↦ bail | some x ↦ ok (some x) ]
]

unfoldable pub ensure : Bool → Outcome (Unit {0})
ensure true = ok tt
ensure false = bail

abbrev pub is_some {ℓ} : {A : Type ℓ} → Option A → Bool
is_some none = false
is_some (some x) = true

-- `==`
abbrev pub bool_eq : Bool → Bool → Bool
bool_eq true b = b
bool_eq false b = not b

-- The variables of each part of the function.
pub record Flushing : Type 0 where
  pub flush_interval_milliseconds : ℕ
  pub max_batches_per_flush : ℕ
  pub max_records_per_batch : Option ℕ
  pub numwant_default : ℕ
  pub numwant_max : ℕ

pub record Intervals : Type 0 where
  pub announce_min : ℕ
  pub announce_min_enforced : ℕ
  pub announce_max : ℕ

pub record Expiration : Type 0 where
  pub upload_factor : ℕ
  pub download_factor : ℕ
  pub peer_expiry_interval : ℕ
  pub active_peer_ttl : ℕ
  pub inactive_peer_ttl : ℕ

pub record Listening : Type 0 where
  pub listening_ip_address : Option IpAddr
  pub listening_port : Option ℕ
  pub listening_unix_socket : Option (List ℕ)

pub record Checking : Type 0 where
  pub max_peers_per_torrent_per_user : ℕ
  pub is_connectivity_check_enabled : Bool
  pub connectivity_check_interval : ℤ
  pub require_peer_connectivity : Bool
  pub is_announce_logging_enabled : Bool
  pub reverse_proxy_client_ip_header_name : Option (List ℕ)

pub record Overrides : Type 0 where
  pub immunity : Option Bool
  pub upload_factor : Option ℕ
  pub download_factor : Option ℕ

module _ (env : Env) where
  unfoldable pub read_flushing : Outcome Flushing
  unfolding required optional parse_unsigned parse_nonzero
  read_flushing = do
    flush_interval ← required env (bytes "FLUSH_INTERVAL_MILLISECONDS") (parse_nonzero u64_max)
    max_batches ← required env (bytes "MAX_BATCHES_PER_FLUSH") (parse_unsigned u64_max)
    max_records ← optional env (bytes "MAX_RECORDS_PER_BATCH") (parse_unsigned u64_max)
    numwant_default ← required env (bytes "NUMWANT_DEFAULT") (parse_unsigned u64_max)
    numwant_max ← required env (bytes "NUMWANT_MAX") (parse_unsigned u64_max)
    ok (record {
      flush_interval_milliseconds = flush_interval;
      max_batches_per_flush = max_batches;
      max_records_per_batch = max_records;
      numwant_default = numwant_default;
      numwant_max = numwant_max;
    })

  unfoldable pub read_intervals : Outcome Intervals
  unfolding required parse_unsigned ensure
  read_intervals = do
    announce_min ← required env (bytes "ANNOUNCE_MIN") (parse_unsigned u32_max)
    announce_min_enforced ← required env (bytes "ANNOUNCE_MIN_ENFORCED") (parse_unsigned u32_max)
    _ ← ensure (leb announce_min_enforced announce_min)
    announce_max ← required env (bytes "ANNOUNCE_MAX") (parse_unsigned u32_max)
    _ ← ensure (leb announce_min announce_max)
    ok (record {
      announce_min = announce_min;
      announce_min_enforced = announce_min_enforced;
      announce_max = announce_max;
    })

  unfoldable pub read_expiration : ℕ → Outcome Expiration
  unfolding required parse_unsigned parse_nonzero ensure
  read_expiration announce_max = do
    upload_factor ← required env (bytes "UPLOAD_FACTOR") (parse_unsigned u8_max)
    download_factor ← required env (bytes "DOWNLOAD_FACTOR") (parse_unsigned u8_max)
    peer_expiry ← required env (bytes "PEER_EXPIRY_INTERVAL") (parse_nonzero u64_max)
    active_peer_ttl ← required env (bytes "ACTIVE_PEER_TTL") (parse_unsigned u64_max)
    _ ← ensure (ltb announce_max active_peer_ttl)
    inactive_peer_ttl ← required env (bytes "INACTIVE_PEER_TTL") (parse_unsigned u64_max)
    ok (record {
      upload_factor = upload_factor;
      download_factor = download_factor;
      peer_expiry_interval = peer_expiry;
      active_peer_ttl = active_peer_ttl;
      inactive_peer_ttl = inactive_peer_ttl;
    })

  -- An address is parsed by the standard library; every text is a path.
  unfoldable pub read_listening : (List ℕ → Option IpAddr) → Outcome Listening
  unfolding optional parse_unsigned ensure
  read_listening parse_ip = do
    ip ← optional env (bytes "LISTENING_IP_ADDRESS") parse_ip
    port ← optional env (bytes "LISTENING_PORT") (parse_unsigned u16_max)
    socket ← optional env (bytes "LISTENING_UNIX_SOCKET") some
    _ ← ensure (bool_eq (is_some ip) (is_some port))
    _ ← ensure (
        (is_some ip && is_some port && not (is_some socket))
        || (not (is_some ip) && not (is_some port) && is_some socket))
    ok (record { listening_ip_address = ip; listening_port = port; listening_unix_socket = socket })

  unfoldable pub read_checking : Option (List ℕ) → Outcome Checking
  unfolding required parse_unsigned parse_signed parse_bool ensure
  read_checking listening_unix_socket = do
    max_peers ← required env (bytes "MAX_PEERS_PER_TORRENT_PER_USER") (parse_unsigned u16_max)
    is_enabled ← required env (bytes "IS_CONNECTIVITY_CHECK_ENABLED") parse_bool
    interval ← required env (bytes "CONNECTIVITY_CHECK_INTERVAL") (parse_signed i64_max)
    require ← required env (bytes "REQUIRE_PEER_CONNECTIVITY") parse_bool
    is_logging ← required env (bytes "IS_ANNOUNCE_LOGGING_ENABLED") parse_bool
    _ ← ensure (
        not (is_some listening_unix_socket)
        || is_some (env (bytes "REVERSE_PROXY_CLIENT_IP_HEADER_NAME")))
    ok (record {
      max_peers_per_torrent_per_user = max_peers;
      is_connectivity_check_enabled = is_enabled;
      connectivity_check_interval = interval;
      require_peer_connectivity = require;
      is_announce_logging_enabled = is_logging;
      reverse_proxy_client_ip_header_name = env (bytes "REVERSE_PROXY_CLIENT_IP_HEADER_NAME");
    })

  unfoldable pub read_rate_limits :
      {F : Type 0} ⦃f : Float F⦄ → FloatText F → Option F → List ℕ → Outcome (List (Rate F))
  unfolding or_bail new_from_string
  read_rate_limits text now name = do s ← or_bail (env name); new_from_string text now s

  unfoldable pub read_overrides : List ℕ → List ℕ → List ℕ → Outcome Overrides
  unfolding optional parse_bool parse_unsigned
  read_overrides immunity_name upload_name download_name = do
    immunity ← optional env immunity_name parse_bool
    upload_factor ← optional env upload_name (parse_unsigned u8_max)
    download_factor ← optional env download_name (parse_unsigned u8_max)
    ok (record {
      immunity = immunity;
      upload_factor = upload_factor;
      download_factor = download_factor;
    })

  -- An API key of 32 bytes at least.
  unfoldable pub read_apikey : Outcome (List ℕ)
  unfolding or_bail ensure
  read_apikey = do
    apikey ← or_bail (env (bytes "APIKEY"))
    _ ← ensure (not (ltb (length apikey) 32))
    ok apikey

-- The whole function. The reading of addresses and of floating point numbers is the standard
-- library's, and `now` the clock that new rates read.
module _ {F : Type 0} ⦃f : Float F⦄ (parse_ip : List ℕ → Option IpAddr) (text : FloatText F)
    (now : Option F) where
  unfoldable pub from_env : Env → Outcome (Config F)
  unfolding read_flushing read_intervals read_expiration read_listening read_checking
      read_rate_limits read_overrides read_apikey
  from_env env = do
    flushing ← read_flushing env
    intervals ← read_intervals env
    expiration ← read_expiration env intervals.announce_max
    listening ← read_listening env parse_ip
    checking ← read_checking env listening.listening_unix_socket
    seed_limits ← read_rate_limits env text now (bytes "USER_RECEIVE_SEED_LIST_RATE_LIMITS")
    leech_limits ← read_rate_limits env text now (bytes "USER_RECEIVE_LEECH_LIST_RATE_LIMITS")
    donor ←
        read_overrides env (bytes "DONOR_IMMUNITY_OVERRIDE") (bytes "DONOR_UPLOAD_FACTOR_OVERRIDE")
          (bytes "DONOR_DOWNLOAD_FACTOR_OVERRIDE")
    lifetime ←
        read_overrides env (bytes "LIFETIME_DONOR_IMMUNITY_OVERRIDE")
          (bytes "LIFETIME_DONOR_UPLOAD_FACTOR_OVERRIDE")
          (bytes "LIFETIME_DONOR_DOWNLOAD_FACTOR_OVERRIDE")
    apikey ← read_apikey env
    ok (record {
      flush_interval_milliseconds = flushing.flush_interval_milliseconds;
      max_batches_per_flush = flushing.max_batches_per_flush;
      max_records_per_batch = flushing.max_records_per_batch;
      numwant_default = flushing.numwant_default;
      numwant_max = flushing.numwant_max;
      announce_min = intervals.announce_min;
      announce_min_enforced = intervals.announce_min_enforced;
      announce_max = intervals.announce_max;
      upload_factor = expiration.upload_factor;
      download_factor = expiration.download_factor;
      peer_expiry_interval = expiration.peer_expiry_interval;
      active_peer_ttl = expiration.active_peer_ttl;
      inactive_peer_ttl = expiration.inactive_peer_ttl;
      apikey = apikey;
      listening_ip_address = listening.listening_ip_address;
      listening_port = listening.listening_port;
      listening_unix_socket = listening.listening_unix_socket;
      max_peers_per_torrent_per_user = checking.max_peers_per_torrent_per_user;
      is_connectivity_check_enabled = checking.is_connectivity_check_enabled;
      connectivity_check_interval = checking.connectivity_check_interval;
      require_peer_connectivity = checking.require_peer_connectivity;
      is_announce_logging_enabled = checking.is_announce_logging_enabled;
      reverse_proxy_client_ip_header_name = checking.reverse_proxy_client_ip_header_name;
      user_receive_seed_list_rate_limits = seed_limits;
      user_receive_leech_list_rate_limits = leech_limits;
      donor_immunity_override = donor.immunity;
      donor_upload_factor_override = donor.upload_factor;
      donor_download_factor_override = donor.download_factor;
      lifetime_donor_immunity_override = lifetime.immunity;
      lifetime_donor_upload_factor_override = lifetime.upload_factor;
      lifetime_donor_download_factor_override = lifetime.download_factor;
    })
