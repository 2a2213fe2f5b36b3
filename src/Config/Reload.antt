-- ===== src/Config/Reload.antt =====
-- `Config::reload` of src/config.rs.
use unit3d_announce.Prelude.{ℕ, ◌≡◌, refl, Bool, true, false, Option, List, inl, inr}
use unit3d_announce.Prelude.Outcome.{Outcome, Outcome-cases}
use unit3d_announce.Model.{IpAddr}
use unit3d_announce.Rate.{Float}
use unit3d_announce.Rate.Parse.{FloatText}
use unit3d_announce.Config.{Config}
use unit3d_announce.Config.Env.{Env, from_env}
use unit3d_announce.Config.Valid.{Valid, from_env-Valid}

-- The responses, by their texts: OK, two of INTERNAL_SERVER_ERROR, and a panic.
pub data Reloading : Type 0 where
  successfully_reloaded failed_to_parse env_not_found panicked : Reloading

module _ {F : Type 0} ⦃f : Float F⦄ (parse_ip : List ℕ → Option IpAddr) (text : FloatText F)
    (now : Option F) where
  -- What the request finds: whether there is a file, and the environment that it leaves.
  unfoldable pub reload : Bool → Env → Config F → Reloading × Config F
  unfolding from_env
  reload false env config = (Reloading.env_not_found, config)
  reload true env config = elim (from_env parse_ip text now env) [
    | Outcome.ok new_config ↦ (Reloading.successfully_reloaded, new_config)
    | Outcome.bail ↦ (Reloading.failed_to_parse, config)
    | Outcome.panic ↦ (Reloading.panicked, config)
  ]

  -- Whatever the file and the environment, the settings are valid after a reload where they were
  -- before.
  pub reload-Valid :
      (file : Bool) (env : Env) (config : Config F)
      → Valid config
      → Valid (reload file env config).1
  unfolding reload
  reload-Valid false env config v = v
  reload-Valid true env config v = elim (Outcome-cases (from_env parse_ip text now env)) [
    | inl (c, e) ↦ rw (e, reload) (from_env-Valid parse_ip text now env c e)
    | inr (inl e) ↦ rw (e, reload) v
    | inr (inr e) ↦ rw (e, reload) v
  ]

  -- A reload that does not succeed keeps the settings.
  pub reload-keeps :
      (file : Bool) (env : Env) (config : Config F)
      → ((reload file env config).0 ≡ Reloading.successfully_reloaded → ⊥)
      → (reload file env config).1 ≡ config
  unfolding reload
  reload-keeps false env config = λ h. refl
  reload-keeps true env config = elim (Outcome-cases (from_env parse_ip text now env)) [
    | inl (c, e) ↦ rw (e, reload) (λ h. absurd (h refl))
    | inr (inl e) ↦ rw (e, reload) (λ h. refl)
    | inr (inr e) ↦ rw (e, reload) (λ h. refl)
  ]
