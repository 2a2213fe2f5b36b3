-- ===== src/Api/Users/Revoked.antt =====
-- Who can announce after the endpoints of src/api/user.rs have run.
use unit3d_announce.Prelude.{ℕ, ◌≡◌, ◌≢◌, refl, none, some, List, length, arith}
use unit3d_announce.Prelude.Eq.{nat_eq, bytes_eq, list_beq_iff}
use unit3d_announce.Prelude.Map.{lookup, Distinct}
use unit3d_announce.Prelude.Map.Laws.{lookup-swap_remove}
use unit3d_announce.Prelude.Outcome.{Outcome}
use unit3d_announce.Config.{Config}
use unit3d_announce.Model.Hash.{passkey_from_str}
use unit3d_announce.Model.Hash.RoundTrip.{passkey_from_str_lem}
use unit3d_announce.Rate.{Float}
use unit3d_announce.Error.Result.{ok}
use unit3d_announce.Announce.State.{App, World}
use unit3d_announce.Announce.Request.{Request}
use unit3d_announce.Announce.Answered.{announce-Allowed}
use unit3d_announce.Announce.{announce}
use unit3d_announce.Api.{bad_request}
use unit3d_announce.Api.Users.{ApiInsertUser, rekey, upsert_user, destroy_user}

module _ {F : Type 0} where
  -- An `upsert` whose passkey is one and whose new passkey has not 32 bytes answers BAD_REQUEST, but
  -- the user, if there was one, is gone, while its passkey still leads to it.
  pub upsert_user_bad_new_passkey :
      (config : Config F) (r : ApiInsertUser) (text : List ℕ) (app : App F)
      → length r.passkey ≡ 32
      → r.new_passkey ≡ some text
      → length text ≢ 32
      → Distinct app.stores.users
      → ((upsert_user config r app).0 ≡ bad_request)
        × (lookup r.id (upsert_user config r app).1.stores.users ≡ none)
        × ((upsert_user config r app).1.stores.passkey2id ≡ app.stores.passkey2id)
  unfolding upsert_user rekey
  upsert_user_bad_new_passkey config r text app h e n d =
      let p : passkey_from_str r.passkey ≡ Outcome.ok r.passkey =
        ground (arith, passkey_from_str_lem r.passkey) in
      let q : passkey_from_str text ≡ Outcome.bail = ground (arith, passkey_from_str_lem text) in
      rw (p, upsert_user, e, q, rekey)
        (refl, ground (arith, lookup-swap_remove r.id r.id app.stores.users d), refl)

  -- After a `destroy` with a passkey of 32 bytes, no announce with this passkey is answered with
  -- peers.
  pub destroy_user-announce :
      ⦃f : Float F⦄ (config : Config F) (w : World F) (r : Request) (id : ℕ) (app : App F)
      (out : List ℕ)
      → length r.passkey ≡ 32
      → Distinct app.stores.passkey2id
      → (announce config w r (destroy_user id r.passkey app).1).0 ≢ ok out
  unfolding destroy_user
  destroy_user-announce config w r id app out n d =
      let p : passkey_from_str r.passkey ≡ Outcome.ok r.passkey =
        ground (arith, passkey_from_str_lem r.passkey) in
      let gone = lookup-swap_remove r.passkey r.passkey app.stores.passkey2id d in
      rw (p, destroy_user)
        (λ h.
          let allowed = announce-Allowed config w r _ h in
          let known = allowed.user_known in
          ground (arith, gone, known, list_beq_iff r.passkey r.passkey))
