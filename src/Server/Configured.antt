-- ===== src/Server/Configured.antt =====
-- A tracker whose settings src/config.rs has read starts, and its announces never panic.
use unit3d_announce.Prelude.{ℕ, ◌+◌, ◌/◌, ◌≤◌, ◌≡◌, ◌≢◌, Option, none, some, List, arith}
use unit3d_announce.Prelude.Int.{pos_part, neg_part}
use unit3d_announce.Prelude.Word.{i64_max}
use unit3d_announce.Prelude.Outcome.{Outcome}
use unit3d_announce.Error.Result.{ok, panic}
use unit3d_announce.Announce.Query.{from_query}
use unit3d_announce.Announce.Query.Bounds.{from_query-numwant}
use unit3d_announce.Model.{IpAddr}
use unit3d_announce.Rate.{Float}
use unit3d_announce.Rate.Parse.{FloatText}
use unit3d_announce.Config.{Config}
use unit3d_announce.Config.Env.{Env, from_env}
use unit3d_announce.Config.Parts.{Exclusive}
use unit3d_announce.Config.Valid.{from_env-Valid}
use unit3d_announce.Announce.State.{App, World}
use unit3d_announce.Announce.Request.{Request}
use unit3d_announce.Announce.Total.{announce-ne-panic}
use unit3d_announce.Announce.{announce}
use unit3d_announce.Server.{not_configured, listener_of, choose_listener}

listener_of-configured :
    (socket : Option (List ℕ)) (ip : Option IpAddr) (port : Option ℕ)
    → Exclusive ip port socket
    → listener_of socket ip port ≢ not_configured
unfolding listener_of
listener_of-configured (some path) ip port e = ground arith
listener_of-configured none (some ip) (some port) e = ground arith
listener_of-configured none (some ip) none e = ground arith
listener_of-configured none none port e = ground arith

module _ {F : Type 0} ⦃f : Float F⦄ (parse_ip : List ℕ → Option IpAddr) (text : FloatText F)
    (now : Option F) (env : Env) (config : Config F)
    (read : from_env parse_ip text now env ≡ Outcome.ok config) where
  -- With settings that are read from an environment, `main` has an address or a socket to listen on.
  pub configured-listens : choose_listener config ≢ not_configured
  unfolding choose_listener
  configured-listens =
      listener_of-configured config.listening_unix_socket config.listening_ip_address
        config.listening_port (from_env-Valid parse_ip text now env config read).listens

  -- With settings that are read from an environment, past the epoch, no announce whose query is read
  -- with these settings panics, where the milliseconds of the interval of the connectivity check fit
  -- in 64 bits and memory can be reserved for the largest number of peers that the settings let a
  -- client ask for.
  pub configured-announce :
      (w : World F) (r : Request) (app : App F) (query : List ℕ) (epoch : F)
      → w.rates_now ≡ some epoch
      → from_query config query ≡ ok r.queries
      → pos_part config.connectivity_check_interval + neg_part config.connectivity_check_interval
        ≤ i64_max / 1000
      → config.numwant_max ≤ w.capacity
      → (announce config w r app).0 ≢ panic
  configured-announce w r app query epoch clock asks h room =
      announce-ne-panic config w r
        (record {
          interval = (from_env-Valid parse_ip text now env config read).interval;
          connectivity = h;
          epoch = epoch;
          clock = clock;
          reserves =
              let asked = from_query-numwant config query r.queries asks in
              omega (arith, asked, room);
        })
        app
