-- ===== src/Store/User.antt =====
-- src/store/user.rs and src/store/group.rs
use unit3d_announce.Prelude.{ℕ, Bool, Option, List}
use unit3d_announce.Prelude.Int.{ℤ}
use unit3d_announce.Rate.{Rate}

pub record User (F : Type 0) : Type 0 where
  pub id : ℕ
  pub group_id : ℤ
  pub passkey : List ℕ
  pub can_download : Bool
  pub num_seeding : ℕ
  pub num_leeching : ℕ
  pub is_donor : Bool
  pub is_lifetime : Bool
  pub receive_seed_list_rates : List (Rate F)
  pub receive_leech_list_rates : List (Rate F)

pub record Group : Type 0 where
  pub id : ℤ
  pub slug : List ℕ
  pub download_slots : Option ℕ
  pub is_immune : Bool
  pub download_factor : ℕ
  pub upload_factor : ℕ
