-- ===== src/Config/Valid.antt =====
-- The settings that `Config::from_env` of src/config.rs lets through.
use unit3d_announce.Prelude.{ℕ, ◌≤◌, ◌<◌, ◌≡◌, true, not, ◌||◌, Option, List, length}
use unit3d_announce.Prelude.Bytes.{bytes}
use unit3d_announce.Prelude.Outcome.{ok, Holds, Holds-ok, then-Holds, after-Holds}
use unit3d_announce.Prelude.Word.{u8_max, u16_max}
use unit3d_announce.Model.{IpAddr}
use unit3d_announce.Rate.{Float}
use unit3d_announce.Rate.Parse.{FloatText}
use unit3d_announce.Config.{Config}
use unit3d_announce.Config.Env.{
  Env, is_some, read_flushing, read_intervals, read_expiration, read_listening, read_checking,
  read_rate_limits, read_overrides, read_apikey, from_env,
}
use unit3d_announce.Config.Parts.{
  Exclusive, read_flushing-Holds, read_intervals-Holds, read_expiration-Holds, read_listening-Holds,
  read_checking-Holds, read_apikey-Holds,
}

pub record Valid {F : Type 0} (c : Config F) : Type 0 where
  pub flushes : 0 < c.flush_interval_milliseconds
  pub expires : 0 < c.peer_expiry_interval
  pub enforced : c.announce_min_enforced ≤ c.announce_min
  pub interval : c.announce_min ≤ c.announce_max
  pub active : c.announce_max < c.active_peer_ttl
  pub upload : c.upload_factor ≤ u8_max
  pub download : c.download_factor ≤ u8_max
  pub peers : c.max_peers_per_torrent_per_user ≤ u16_max
  pub key : 32 ≤ length c.apikey
  pub listens : Exclusive c.listening_ip_address c.listening_port c.listening_unix_socket
  pub proxied :
      (not (is_some c.listening_unix_socket) || is_some c.reverse_proxy_client_ip_header_name)
      ≡ true

module _ {F : Type 0} ⦃f : Float F⦄ (parse_ip : List ℕ → Option IpAddr) (text : FloatText F)
    (now : Option F) where
  from_env-Holds : (env : Env) → Holds Valid (from_env parse_ip text now env)
  unfolding from_env
  from_env-Holds env = then-Holds (read_flushing env) (read_flushing-Holds env) (λ flushing flushes.
      then-Holds (read_intervals env) (read_intervals-Holds env)
        (λ intervals (enforced, interval, _).
          then-Holds (read_expiration env intervals.announce_max)
            (read_expiration-Holds env intervals.announce_max)
            (λ expiration (active, expires, upload, download).
              then-Holds (read_listening env parse_ip) (read_listening-Holds env parse_ip)
                (λ listening listens.
                  then-Holds (read_checking env listening.listening_unix_socket)
                    (read_checking-Holds env listening.listening_unix_socket)
                    (λ checking (peers, proxied).
                      after-Holds
                        (read_rate_limits env text now (bytes "USER_RECEIVE_SEED_LIST_RATE_LIMITS"))
                        (λ seed.
                          after-Holds
                            (read_rate_limits env text now
                              (bytes "USER_RECEIVE_LEECH_LIST_RATE_LIMITS"))
                            (λ leech.
                              after-Holds
                                (read_overrides env (bytes "DONOR_IMMUNITY_OVERRIDE")
                                  (bytes "DONOR_UPLOAD_FACTOR_OVERRIDE")
                                  (bytes "DONOR_DOWNLOAD_FACTOR_OVERRIDE"))
                                (λ donor.
                                  after-Holds
                                    (read_overrides env (bytes "LIFETIME_DONOR_IMMUNITY_OVERRIDE")
                                      (bytes "LIFETIME_DONOR_UPLOAD_FACTOR_OVERRIDE")
                                      (bytes "LIFETIME_DONOR_DOWNLOAD_FACTOR_OVERRIDE"))
                                    (λ lifetime.
                                      then-Holds (read_apikey env) (read_apikey-Holds env)
                                        (λ apikey key. Holds.returned _ (record {
                                          flushes = flushes;
                                          expires = expires;
                                          enforced = enforced;
                                          interval = interval;
                                          active = active;
                                          upload = upload;
                                          download = download;
                                          peers = peers;
                                          key = key;
                                          listens = listens;
                                          proxied = proxied;
                                        })))))))))))

  -- The settings that are read from an environment have positive intervals of the scheduler, an
  -- enforced interval of announces that is at most the least one, which is at most the greatest,
  -- which is below the lifetime of an active peer, factors of 8 bits and a limit of peers of 16
  -- bits, an API key of at least 32 bytes, and either an address and a port to listen on or a
  -- socket and the header of a proxy.
  pub from_env-Valid : (env : Env) (c : Config F) → from_env parse_ip text now env ≡ ok c → Valid c
  from_env-Valid env c h = Holds-ok (from_env parse_ip text now env) c (from_env-Holds env) h
