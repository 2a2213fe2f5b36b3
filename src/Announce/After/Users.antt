-- ===== src/Announce/After/Users.antt =====
-- What the end of `announce` in src/announce.rs does to the users, whether or not a tick panics.
use unit3d_announce.Prelude.{
  ℕ, ◌≡◌, refl, Bool, ◌||◌, true, false, Option, none, some, List, [], ◌∷◌, Bool-cases, inl, inr,
}
use unit3d_announce.Prelude.Outcome.{Outcome, ok, bail, panic}
use unit3d_announce.Prelude.Word.{u32_max, saturating_add_signed}
use unit3d_announce.Prelude.Int.{is_nonzero}
use unit3d_announce.Prelude.Eq.{nat_eq}
use unit3d_announce.Prelude.Map.{Map, lookup}
use unit3d_announce.Config.{Config}
use unit3d_announce.Rate.{Float, Rate, tick_rate, tick}
use unit3d_announce.Store.User.{User}
use unit3d_announce.Announce.Swarm.{Result}
use unit3d_announce.Announce.Request.{Request}
use unit3d_announce.Announce.State.{App, World, Served}
use unit3d_announce.Announce.After.{
  ticked, tick_leech_list, tick_seed_list, modified_user, returns, update_users, conclude, finish,
}

module _ {F : Type 0} ⦃f : Float F⦄ where
  -- After the epoch a collection of rates is ticked.
  tick_returns :
      (now : F) (rates : List (Rate F))
      → (after : List (Rate F)) × (tick (some now) rates ≡ ok after)
  unfolding tick tick_rate
  tick_returns now [] = ([], refl)
  tick_returns now (r ∷ rates) = let (after, e) = tick_returns now rates in rw e (_, refl)

module _ {F : Type 0} ⦃f : Float F⦄ (config : Config F) (w : World F) (r : Request) where
  abbrev SameCounts : User F → User F → Type 0
  SameCounts a b = (a.num_seeding ≡ b.num_seeding) × (a.num_leeching ≡ b.num_leeching)

  tick_leech_list-SameCounts :
      (rates : Outcome (List (Rate F))) (user : User F)
      → SameCounts (tick_leech_list config w r rates user).1 user
  unfolding tick_leech_list
  tick_leech_list-SameCounts (ok rates) user = (refl, refl)
  tick_leech_list-SameCounts bail user = (refl, refl)
  tick_leech_list-SameCounts panic user = (refl, refl)

  tick_seed_list-SameCounts :
      (b : Bool) (rates : Outcome (List (Rate F))) (user : User F)
      → SameCounts (tick_seed_list config w r b rates user).1 user
  unfolding tick_seed_list
  tick_seed_list-SameCounts b (ok rates) user =
      tick_leech_list-SameCounts _ (record user { receive_seed_list_rates = rates })
  tick_seed_list-SameCounts b bail user = (refl, refl)
  tick_seed_list-SameCounts b panic user = (refl, refl)

  -- The counts of the user move by the deltas, even where a tick panics.
  pub modified_user_counts :
      (s : Served F) (user : User F)
      → ((modified_user config w r s user).1.num_seeding
          ≡ saturating_add_signed u32_max user.num_seeding s.change.seeder_delta)
        × ((modified_user config w r s user).1.num_leeching
            ≡ saturating_add_signed u32_max user.num_leeching s.change.leecher_delta)
  unfolding modified_user
  modified_user_counts s user =
      tick_seed_list-SameCounts s.has_requested_leech_list
        (ticked config w r s.has_requested_seed_list user.receive_seed_list_rates)
        (record user {
          num_seeding = saturating_add_signed u32_max user.num_seeding s.change.seeder_delta;
          num_leeching = saturating_add_signed u32_max user.num_leeching s.change.leecher_delta;
        })

  conclude-stores :
      (id : ℕ) (b : Bool) (agent : List ℕ) (s : Served F) (app : App F) (returned : Bool)
      → (conclude config w r id b agent s app returned).1.stores ≡ app.stores
  unfolding conclude
  conclude-stores id b agent s app true = refl
  conclude-stores id b agent s app false = refl

  pub finish-stores :
      (id : ℕ) (b : Bool) (agent : List ℕ) (s : Served F) (app : App F)
      → (finish config w r id b agent (Result.ok s) app).1.stores
        ≡ record app.stores { users = (update_users config w r s app.stores.users).1 }
  unfolding finish
  finish-stores id b agent s app = conclude-stores id b agent s _ _

  module _ (now : F) (clock : w.rates_now ≡ some now) where
    ticked_returns :
        (b : Bool) (rates : List (Rate F))
        → (after : List (Rate F)) × (ticked config w r b rates ≡ ok after)
    unfolding ticked
    ticked_returns true rates = rw clock (tick_returns now rates)
    ticked_returns false rates = (rates, refl)

    modified_user_returns :
        (s : Served F) (user : User F) → (modified_user config w r s user).0 ≡ true
    unfolding modified_user tick_seed_list tick_leech_list
    modified_user_returns s user =
        let (seeds, e) = ticked_returns s.has_requested_seed_list user.receive_seed_list_rates in
        let (leeches, e') =
          ticked_returns s.has_requested_leech_list user.receive_leech_list_rates in
        rw (e, e') refl

    returns_lem : (s : Served F) (user : Option (User F)) → returns config w r s user ≡ true
    unfolding returns
    returns_lem s none = refl
    returns_lem s (some user) = modified_user_returns s user

    pub update_users_returns :
        (s : Served F) (users : Map ℕ (User F)) → (update_users config w r s users).0 ≡ true
    unfolding update_users
    update_users_returns s users =
        elim (Bool-cases (
          is_nonzero s.change.seeder_delta
          || is_nonzero s.change.leecher_delta
          || s.has_requested_seed_list
          || s.has_requested_leech_list)) [
            | inl on ↦ rw (on, update_users) (returns_lem s (lookup s.member.user_id users))
            | inr off ↦ rw (off, update_users) refl
          ]

    -- After the epoch nothing panics after the lock is released.
    pub finish-answers :
        (id : ℕ) (b : Bool) (agent : List ℕ) (s : Served F) (app : App F)
        → (finish config w r id b agent (Result.ok s) app).0 ≡ Result.ok s.response
    unfolding finish conclude
    finish-answers id b agent s app = rw (update_users_returns s app.stores.users) refl
