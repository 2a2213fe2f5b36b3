-- ===== src/Config/Parts.antt =====
-- What the parts of `Config::from_env` in src/config.rs let through.
use unit3d_announce.Prelude.{
  ℕ, ◌+◌, ◌-◌, ◌*◌, ◌≤◌, ◌<◌, ◌≡◌, ◌⊎◌, inl, inr, refl, Bool, true, false, not, ◌&&◌, ◌||◌, Option,
  some, List, [], ◌∷◌, length, leb, ltb, arith, Option-cases,
}
use unit3d_announce.Prelude.Bytes.{bytes}
use unit3d_announce.Prelude.Outcome.{Holds, then-Holds, after-Holds}
use unit3d_announce.Prelude.Parse.{
  parse_digits, parse_unsigned, parse_nonzero, parse_signed, parse_bool,
}
use unit3d_announce.Prelude.Word.{u8_max, u16_max, u32_max, u64_max, i64_max}
use unit3d_announce.Model.{IpAddr}
use unit3d_announce.Rate.Parse.{or_bail}
use unit3d_announce.Config.Env.{
  Env, required, optional, ensure, is_some, bool_eq, Flushing, Intervals, Expiration, Listening,
  Checking, read_flushing, read_intervals, read_expiration, read_listening, read_checking,
  read_apikey,
}

parse_digits-bound :
    (top n : ℕ) (s : List ℕ) (q : ℕ) → n ≤ top → parse_digits top n s ≡ some q → q ≤ top
unfolding parse_digits
parse_digits-bound top n [] q h e = ground arith
parse_digits-bound top n (c ∷ cs) q h e =
    ground (arith, parse_digits-bound top (n * 10 + (c - b'0')) cs q)

parse_unsigned-bound : (top : ℕ) (s : List ℕ) (q : ℕ) → parse_unsigned top s ≡ some q → q ≤ top
unfolding parse_unsigned
parse_unsigned-bound top [] q e = ground arith
parse_unsigned-bound top (c ∷ []) q e = ground (arith, parse_digits-bound top 0 (c ∷ []) q)
parse_unsigned-bound top (c ∷ d ∷ cs) q e =
    ground (arith, parse_digits-bound top 0 (d ∷ cs) q, parse_digits-bound top 0 (c ∷ d ∷ cs) q)

parse_nonzero-bound :
    (top : ℕ) (s : List ℕ) (q : ℕ) → parse_nonzero top s ≡ some q → (0 < q) × (q ≤ top)
unfolding parse_nonzero
parse_nonzero-bound top s q e = ground (arith, parse_unsigned-bound top s q)

-- A setting that is read has what its parser promises.
required-Holds :
    {A : Type 0} {P : A → Type 0} (env : Env) (name : List ℕ) (parse : List ℕ → Option A)
    → ((s : List ℕ) (x : A) → parse s ≡ some x → P x)
    → Holds P (required env name parse)
unfolding required
required-Holds env name parse h = elim (Option-cases (env name)) [
  | inl e ↦ rw (e, required) Holds.failed
  | inr (s, e) ↦ elim (Option-cases (parse s)) [
    | inl p ↦ rw (e, p, required, or_bail) Holds.failed
    | inr (x, p) ↦ rw (e, p, required, or_bail) (Holds.returned x (h s x p))
  ]
]

ensure-Holds : (b : Bool) → Holds (λ u. b ≡ true) (ensure b)
unfolding ensure
ensure-Holds true = Holds.returned tt refl
ensure-Holds false = Holds.failed

-- Either an address and a port, or a socket.
abbrev pub Exclusive : Option IpAddr → Option ℕ → Option (List ℕ) → Type 0
Exclusive ip port socket =
    ((is_some ip ≡ true) × (is_some port ≡ true) × (is_some socket ≡ false))
    ⊎ ((is_some ip ≡ false) × (is_some port ≡ false) × (is_some socket ≡ true))

exclusive :
    (ip port socket : Bool)
    → ((ip && port && not socket) || (not ip && not port && socket)) ≡ true
    → ((ip ≡ true) × (port ≡ true) × (socket ≡ false))
      ⊎ ((ip ≡ false) × (port ≡ false) × (socket ≡ true))
exclusive true true false h = inl (refl, refl, refl)
exclusive false false true h = inr (refl, refl, refl)
exclusive true true true h = absurd (ground arith)
exclusive true false _ h = absurd (ground arith)
exclusive false true _ h = absurd (ground arith)
exclusive false false false h = absurd (ground arith)

module _ (env : Env) where
  unsigned-Holds :
      (name : List ℕ) (top : ℕ) → Holds (λ n. n ≤ top) (required env name (parse_unsigned top))
  unsigned-Holds name top = required-Holds env name (parse_unsigned top) (parse_unsigned-bound top)

  pub read_intervals-Holds :
      Holds
        (λ (r : Intervals).
          (r.announce_min_enforced ≤ r.announce_min)
          × (r.announce_min ≤ r.announce_max)
          × (r.announce_max ≤ u32_max))
        (read_intervals env)
  unfolding read_intervals
  read_intervals-Holds =
      after-Holds (required env (bytes "ANNOUNCE_MIN") (parse_unsigned u32_max)) (λ min.
        after-Holds (required env (bytes "ANNOUNCE_MIN_ENFORCED") (parse_unsigned u32_max))
          (λ enforced.
            then-Holds (ensure (leb enforced min)) (ensure-Holds (leb enforced min)) (λ u le.
              then-Holds (required env (bytes "ANNOUNCE_MAX") (parse_unsigned u32_max))
                (unsigned-Holds (bytes "ANNOUNCE_MAX") u32_max)
                (λ max bound.
                  then-Holds (ensure (leb min max)) (ensure-Holds (leb min max))
                    (λ u' le'. Holds.returned _ (ground arith, ground arith, bound))))))

  nonzero-Holds : (name : List ℕ) → Holds (λ n. 0 < n) (required env name (parse_nonzero u64_max))
  nonzero-Holds name =
      required-Holds env name (parse_nonzero u64_max)
        (λ s n e. (parse_nonzero-bound u64_max s n e).0)

  pub read_flushing-Holds :
      Holds (λ (r : Flushing). 0 < r.flush_interval_milliseconds) (read_flushing env)
  unfolding read_flushing
  read_flushing-Holds =
      then-Holds (required env (bytes "FLUSH_INTERVAL_MILLISECONDS") (parse_nonzero u64_max))
        (nonzero-Holds (bytes "FLUSH_INTERVAL_MILLISECONDS"))
        (λ interval positive.
          after-Holds (required env (bytes "MAX_BATCHES_PER_FLUSH") (parse_unsigned u64_max))
            (λ batches.
              after-Holds (optional env (bytes "MAX_RECORDS_PER_BATCH") (parse_unsigned u64_max))
                (λ records.
                  after-Holds (required env (bytes "NUMWANT_DEFAULT") (parse_unsigned u64_max))
                    (λ numwant.
                      after-Holds (required env (bytes "NUMWANT_MAX") (parse_unsigned u64_max))
                        (λ max. Holds.returned _ positive)))))

  pub read_expiration-Holds :
      (announce_max : ℕ)
      → Holds
          (λ (r : Expiration).
            (announce_max < r.active_peer_ttl)
            × (0 < r.peer_expiry_interval)
            × (r.upload_factor ≤ u8_max)
            × (r.download_factor ≤ u8_max))
          (read_expiration env announce_max)
  unfolding read_expiration
  read_expiration-Holds announce_max =
      then-Holds (required env (bytes "UPLOAD_FACTOR") (parse_unsigned u8_max))
        (unsigned-Holds (bytes "UPLOAD_FACTOR") u8_max)
        (λ up up_bound.
          then-Holds (required env (bytes "DOWNLOAD_FACTOR") (parse_unsigned u8_max))
            (unsigned-Holds (bytes "DOWNLOAD_FACTOR") u8_max)
            (λ down down_bound.
              then-Holds (required env (bytes "PEER_EXPIRY_INTERVAL") (parse_nonzero u64_max))
                (nonzero-Holds (bytes "PEER_EXPIRY_INTERVAL"))
                (λ expiry positive.
                  after-Holds (required env (bytes "ACTIVE_PEER_TTL") (parse_unsigned u64_max))
                    (λ ttl.
                      then-Holds (ensure (ltb announce_max ttl))
                        (ensure-Holds (ltb announce_max ttl))
                        (λ u less.
                          after-Holds
                            (required env (bytes "INACTIVE_PEER_TTL") (parse_unsigned u64_max))
                            (λ inactive.
                              Holds.returned _ (ground arith, positive, up_bound, down_bound)))))))

  pub read_listening-Holds :
      (parse_ip : List ℕ → Option IpAddr)
      → Holds
          (λ (r : Listening).
            Exclusive r.listening_ip_address r.listening_port r.listening_unix_socket)
          (read_listening env parse_ip)
  unfolding read_listening
  read_listening-Holds parse_ip =
      after-Holds (optional env (bytes "LISTENING_IP_ADDRESS") parse_ip) (λ ip.
        after-Holds (optional env (bytes "LISTENING_PORT") (parse_unsigned u16_max)) (λ port.
          after-Holds (optional env (bytes "LISTENING_UNIX_SOCKET") some) (λ socket.
            after-Holds (ensure (bool_eq (is_some ip) (is_some port))) (λ u.
              let test =
                (is_some ip && is_some port && not (is_some socket))
                || (not (is_some ip) && not (is_some port) && is_some socket) in
              then-Holds (ensure test) (ensure-Holds test) (λ u' h.
                Holds.returned _ (exclusive (is_some ip) (is_some port) (is_some socket) h))))))

  pub read_checking-Holds :
      (socket : Option (List ℕ))
      → Holds
          (λ (r : Checking).
            (r.max_peers_per_torrent_per_user ≤ u16_max)
            × ((not (is_some socket) || is_some r.reverse_proxy_client_ip_header_name) ≡ true))
          (read_checking env socket)
  unfolding read_checking
  read_checking-Holds socket =
      then-Holds (required env (bytes "MAX_PEERS_PER_TORRENT_PER_USER") (parse_unsigned u16_max))
        (unsigned-Holds (bytes "MAX_PEERS_PER_TORRENT_PER_USER") u16_max)
        (λ peers bound.
          after-Holds (required env (bytes "IS_CONNECTIVITY_CHECK_ENABLED") parse_bool) (λ check.
            after-Holds (required env (bytes "CONNECTIVITY_CHECK_INTERVAL") (parse_signed i64_max))
              (λ interval.
                after-Holds (required env (bytes "REQUIRE_PEER_CONNECTIVITY") parse_bool)
                  (λ connectivity.
                    after-Holds (required env (bytes "IS_ANNOUNCE_LOGGING_ENABLED") parse_bool)
                      (λ logging.
                        let test =
                          not (is_some socket)
                          || is_some (env (bytes "REVERSE_PROXY_CLIENT_IP_HEADER_NAME")) in
                        then-Holds (ensure test) (ensure-Holds test)
                          (λ u h. Holds.returned _ (bound, h)))))))

  pub read_apikey-Holds : Holds (λ key. 32 ≤ length key) (read_apikey env)
  unfolding read_apikey
  read_apikey-Holds = after-Holds (or_bail (env (bytes "APIKEY"))) (λ key.
      let test = not (ltb (length key) 32) in
      then-Holds (ensure test) (ensure-Holds test) (λ u h. Holds.returned _ (ground arith)))
