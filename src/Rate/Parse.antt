-- ===== src/Rate/Parse.antt =====
-- `RateCollection::new_from_string` of src/rate.rs.
use unit3d_announce.Prelude.{ℕ, Option, none, some, List, [], ◌∷◌, ◌==◌, if◌then◌else◌}
use unit3d_announce.Prelude.Outcome.{Outcome, ok, bail, panic, ◌>>=◌}
use unit3d_announce.Prelude.Parse.{split}
use unit3d_announce.Rate.{Float, Rate, new_rate}

-- What the standard library makes of a text: a number of a text that is trimmed, and the seconds of
-- a duration, where `Duration::from_secs_f64` does not panic.
pub record FloatText (F : Type 0) : Type 0 where
  pub parse : List ℕ → Option F
  pub duration : F → Option F

-- `splitn(2, …)`: the part before the first, and the rest, if there is one.
unfoldable pub splitn2 : ℕ → List ℕ → List ℕ × Option (List ℕ)
splitn2 c [] = ([], none)
splitn2 c (x ∷ s) =
    let (part, rest) = splitn2 c s in if x == c then ([], some s) else (x ∷ part, rest)

-- `context(…)?`
unfoldable pub or_bail {ℓ} : {A : Type ℓ} → Option A → Outcome A
or_bail none = bail
or_bail (some x) = ok x

module _ {F : Type 0} ⦃f : Float F⦄ (text : FloatText F) (now : Option F) where
  unfoldable pub read_rate : List ℕ → Outcome (Rate F)
  unfolding splitn2 or_bail new_rate
  read_rate pair = do
    window ← or_bail (text.parse (splitn2 b'=' pair).0)
    rest ← or_bail (splitn2 b'=' pair).1
    max_events_per_window ← or_bail (text.parse rest)
    elim (text.duration window) [
      | none ↦ panic
      | some seconds ↦ new_rate now seconds max_events_per_window
    ]

  -- `filter`, `map` and `collect`, which stops at the first error.
  unfoldable pub read_rates : List (List ℕ) → Outcome (List (Rate F))
  unfolding read_rate
  read_rates [] = ok []
  read_rates ([] ∷ pairs) = read_rates pairs
  read_rates ((c ∷ pair) ∷ pairs) = do
    rate ← read_rate (c ∷ pair)
    rates ← read_rates pairs
    ok (rate ∷ rates)

  unfoldable pub new_from_string : List ℕ → Outcome (List (Rate F))
  unfolding split read_rates
  new_from_string s = let (part, parts) = split b';' s in read_rates (part ∷ parts)
