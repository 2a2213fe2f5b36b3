-- ===== src/Api/Users.antt =====
-- src/api/user.rs
pub mod Registered
pub mod Revoked
use unit3d_announce.Prelude.{ℕ, Bool, Option, none, some, List}
use unit3d_announce.Prelude.Eq.{nat_eq, bytes_eq}
use unit3d_announce.Prelude.Int.{ℤ}
use unit3d_announce.Prelude.Map.{Map, lookup, insert, swap_remove}
use unit3d_announce.Prelude.Outcome.{Outcome}
use unit3d_announce.Config.{Config}
use unit3d_announce.Rate.{Rate}
use unit3d_announce.Model.Hash.{passkey_from_str}
use unit3d_announce.Store.{Stores}
use unit3d_announce.Store.User.{User}
use unit3d_announce.Announce.State.{App}
use unit3d_announce.Api.{Reply, success, bad_request, panicked}

pub record ApiInsertUser : Type 0 where
  pub id : ℕ
  pub group_id : ℤ
  pub passkey : List ℕ
  pub new_passkey : Option (List ℕ)
  pub can_download : Bool
  pub num_seeding : ℕ
  pub num_leeching : ℕ
  pub is_donor : Bool
  pub is_lifetime : Bool

module _ {F : Type 0} where
  abbrev pub without_user : ℕ → Stores F → Stores F
  without_user id stores = record stores { users = swap_remove id stores.users }

  abbrev pub without_passkey : List ℕ → Stores F → Stores F
  without_passkey passkey stores = record stores {
    passkey2id = swap_remove passkey stores.passkey2id;
  }

  -- `destroy`, with the id and the passkey of the request.
  unfoldable pub destroy_user : ℕ → List ℕ → App F → Reply × App F
  destroy_user id text app = elim (passkey_from_str text) [
    | Outcome.ok passkey ↦
        (success, record app { stores = without_passkey passkey (without_user id app.stores) })
    | Outcome.bail ↦ (bad_request, app)
    | Outcome.panic ↦ (panicked, app)
  ]

module _ {F : Type 0} (config : Config F) where
  -- The rates of the old user, or the configured ones.
  unfoldable pub seed_list_rates : Option (User F) → List (Rate F)
  seed_list_rates none = config.user_receive_seed_list_rate_limits
  seed_list_rates (some user) = user.receive_seed_list_rates

  unfoldable pub leech_list_rates : Option (User F) → List (Rate F)
  leech_list_rates none = config.user_receive_leech_list_rate_limits
  leech_list_rates (some user) = user.receive_leech_list_rates

  -- The user that a request writes, with its passkey and the user that was there.
  unfoldable pub user_with : ApiInsertUser → List ℕ → Option (User F) → User F
  unfolding seed_list_rates leech_list_rates
  user_with user passkey old_user = record {
    id = user.id;
    group_id = user.group_id;
    passkey = passkey;
    can_download = user.can_download;
    num_seeding = user.num_seeding;
    num_leeching = user.num_leeching;
    is_donor = user.is_donor;
    is_lifetime = user.is_lifetime;
    receive_seed_list_rates = seed_list_rates old_user;
    receive_leech_list_rates = leech_list_rates old_user;
  }

  -- The two inserts at the end of `upsert`, into the stores without the old user.
  unfoldable pub put_user : ApiInsertUser → List ℕ → Option (User F) → Stores F → Stores F
  unfolding user_with
  put_user user passkey old_user stores = record stores {
    users = insert user.id (user_with user passkey old_user) stores.users;
    passkey2id = insert passkey user.id stores.passkey2id;
  }

  -- `upsert` from the new passkey on; the old user is removed already.
  unfoldable pub rekey : ApiInsertUser → List ℕ → Option (User F) → Stores F → Reply × Stores F
  unfolding put_user
  rekey user passkey old_user stores = elim user.new_passkey [
    | none ↦ (success, put_user user passkey old_user stores)
    | some text ↦ elim (passkey_from_str text) [
      | Outcome.ok new_passkey ↦
          (success, put_user user new_passkey old_user (without_passkey passkey stores))
      | Outcome.bail ↦ (bad_request, stores)
      | Outcome.panic ↦ (panicked, stores)
    ]
  ]

  unfoldable pub upsert_user : ApiInsertUser → App F → Reply × App F
  unfolding rekey
  upsert_user user app = elim (passkey_from_str user.passkey) [
    | Outcome.ok passkey ↦
        let (reply, stores) =
          rekey user passkey (lookup user.id app.stores.users) (without_user user.id app.stores) in
        (reply, record app { stores = stores })
    | Outcome.bail ↦ (bad_request, app)
    | Outcome.panic ↦ (panicked, app)
  ]

-- `show`: no user is NOT_FOUND.
unfoldable pub show_user : {F : Type 0} → ℕ → App F → Option (User F)
show_user id app = lookup id app.stores.users
