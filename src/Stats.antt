-- ===== src/Stats.antt =====
-- src/stats.rs: the rates of requests and of answers, over windows of five lengths.
use unit3d_announce.Prelude.{Option, none, some}
use unit3d_announce.Rate.{Float, decayed}

-- The five rates that one increment updates, and its last time. `Stats` holds two of them, one of
-- requests and one of answers.
pub record Gauge (F : Type 0) : Type 0 where
  pub last_at : F
  pub per_1s : F
  pub per_10s : F
  pub per_60s : F
  pub per_900s : F
  pub per_7200s : F

pub record Stats (F : Type 0) : Type 0 where
  pub created_at : F
  pub requests : Gauge F
  pub announce_responses : Gauge F

-- The lengths of the windows, as `f64`.
pub record Windows (F : Type 0) : Type 0 where
  pub s1 : F
  pub s10 : F
  pub s60 : F
  pub s900 : F
  pub s7200 : F

module _ {F : Type 0} ⦃f : Float F⦄ where
  abbrev pub new_gauge : F → Gauge F
  new_gauge now = record {
    last_at = now;
    per_1s = f.zero;
    per_10s = f.zero;
    per_60s = f.zero;
    per_900s = f.zero;
    per_7200s = f.zero;
  }

  -- `Stats::default`, with the time of the call
  unfoldable pub new_stats : F → Stats F
  new_stats now = record {
    created_at = now;
    requests = new_gauge now;
    announce_responses = new_gauge now;
  }

module _ {F : Type 0} ⦃f : Float F⦄ (w : Windows F) where
  -- The body of an increment. The clock may stand before the epoch: then nothing happens.
  unfoldable pub increment : Option F → Gauge F → Gauge F
  unfolding decayed
  increment none g = g
  increment (some now) g =
      let elapsed = f.sub now g.last_at in
      record {
        last_at = now;
        per_1s = decayed g.per_1s elapsed w.s1;
        per_10s = decayed g.per_10s elapsed w.s10;
        per_60s = decayed g.per_60s elapsed w.s60;
        per_900s = decayed g.per_900s elapsed w.s900;
        per_7200s = decayed g.per_7200s elapsed w.s7200;
      }

  unfoldable pub increment_request : Option F → Stats F → Stats F
  unfolding increment
  increment_request now s = record s { requests = increment now s.requests }

  unfoldable pub increment_announce_response : Option F → Stats F → Stats F
  unfolding increment
  increment_announce_response now s = record s {
    announce_responses = increment now s.announce_responses;
  }

  -- `show`: each rate over its window, by the second.
  unfoldable pub shown : Gauge F → Gauge F
  shown g = record g {
    per_10s = f.div g.per_10s w.s10;
    per_60s = f.div g.per_60s w.s60;
    per_900s = f.div g.per_900s w.s900;
    per_7200s = f.div g.per_7200s w.s7200;
  }

  unfoldable pub show : Stats F → Stats F
  unfolding shown
  show s = record s { requests = shown s.requests; announce_responses = shown s.announce_responses }
