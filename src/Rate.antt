-- ===== src/Rate.antt =====
-- src/rate.rs: rates of events with exponential decay, over an abstract `f64`.
pub mod Parse
use unit3d_announce.Prelude.{Bool, ◌&&◌, not, true, Option, none, some, List, [], ◌∷◌}
use unit3d_announce.Prelude.Outcome.{Outcome, ok, expect, ◌>>=◌}

-- The operations of `f64` that the program uses.
pub record Float (F : Type 0) : Type 0 where
  pub zero : F
  pub one : F
  pub minus_one : F
  pub add : F → F → F
  pub sub : F → F → F
  pub mul : F → F → F
  pub div : F → F → F
  pub exp : F → F
  pub leb : F → F → Bool

pub record Rate (F : Type 0) : Type 0 where
  pub count : F
  pub max_count : F
  pub window : F
  pub updated_at : F

module _ {F : Type 0} ⦃f : Float F⦄ where
  -- `Rate::new`, with the time of the call since the epoch: `none` is a clock before it, on which
  -- `expect` panics.
  unfoldable pub new_rate : Option F → F → F → Outcome (Rate F)
  new_rate clock window max_events_per_window = do
    now ← expect clock
    ok (record {
      count = f.zero;
      max_count = max_events_per_window;
      window = window;
      updated_at = now;
    })

  -- `rate * f64::exp(-1f64 * elapsed / window) + 1f64`, also in src/stats.rs
  unfoldable pub decayed : F → F → F → F
  decayed rate elapsed window =
      f.add (f.mul rate (f.exp (f.div (f.mul f.minus_one elapsed) window))) f.one

  -- `Rate::tick`, with the time of the call
  unfoldable pub tick_rate : Option F → Rate F → Outcome (Rate F)
  unfolding decayed
  tick_rate clock r = do
    now ← expect clock
    ok (record r { count = decayed r.count (f.sub now r.updated_at) r.window; updated_at = now })

  unfoldable pub is_under : Rate F → Bool
  is_under r = f.leb r.count r.max_count

  unfoldable pub per_second : Rate F → F
  per_second r = f.div r.count r.window

  -- `RateCollection`. Each tick reads the clock; the ticks of one call are given one reading,
  -- so a call that panics has changed no rate.
  unfoldable pub tick : Option F → List (Rate F) → Outcome (List (Rate F))
  unfolding tick_rate
  tick clock [] = ok []
  tick clock (r ∷ rates) = do
    ticked ← tick_rate clock r
    rest ← tick clock rates
    ok (ticked ∷ rest)

  unfoldable pub is_under_limit : List (Rate F) → Bool
  unfolding is_under
  is_under_limit [] = true
  is_under_limit (r ∷ rates) = is_under r && is_under_limit rates

  unfoldable pub is_over_limit : List (Rate F) → Bool
  unfolding is_under_limit
  is_over_limit rates = not (is_under_limit rates)
