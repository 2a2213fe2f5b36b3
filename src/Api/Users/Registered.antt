-- ===== src/Api/Users/Registered.antt =====
-- The endpoints of src/api/user.rs keep every user reachable by the passkey.
use unit3d_announce.Prelude.{
  ℕ, ◌≡◌, ◌≢◌, ap, Option, none, some, List, arith, Option-cases, inl, inr,
}
use unit3d_announce.Prelude.Eq.{nat_eq, bytes_eq, list_beq_iff}
use unit3d_announce.Prelude.Map.{lookup, Distinct}
use unit3d_announce.Prelude.Map.Laws.{
  lookup-insert, lookup-swap_remove, insert-Distinct, swap_remove-Distinct,
}
use unit3d_announce.Prelude.Outcome.{Outcome, Outcome-cases}
use unit3d_announce.Config.{Config}
use unit3d_announce.Model.Hash.{passkey_from_str}
use unit3d_announce.Model.Hash.RoundTrip.{passkey_from_str_lem}
use unit3d_announce.Store.{Stores}
use unit3d_announce.Store.User.{User}
use unit3d_announce.Announce.State.{App}
use unit3d_announce.Api.Users.{
  ApiInsertUser, user_with, put_user, without_user, without_passkey, rekey, upsert_user,
  destroy_user,
}

passkey-is_text :
    (text passkey : List ℕ) → passkey_from_str text ≡ Outcome.ok passkey → passkey ≡ text
passkey-is_text text passkey e = ground (arith, passkey_from_str_lem text, e)

module _ {F : Type 0} where
  -- Every user stands under the id, and the passkey leads to the user.
  pub record Registered (stores : Stores F) : Type 0 where
    pub users_once : Distinct stores.users
    pub passkeys_once : Distinct stores.passkey2id
    pub found :
        (id : ℕ) (u : User F)
        → lookup id stores.users ≡ some u
        → (u.id ≡ id) × (lookup u.passkey stores.passkey2id ≡ some id)

  -- No user but this one has the passkey.
  abbrev pub Owned : Stores F → List ℕ → ℕ → Type 0
  Owned stores passkey id =
      (j : ℕ) (u : User F) → lookup j stores.users ≡ some u → j ≢ id → u.passkey ≢ passkey

  without_user-Registered :
      (id : ℕ) (stores : Stores F) → Registered stores → Registered (without_user id stores)
  without_user-Registered id stores g = record {
    users_once = swap_remove-Distinct id stores.users g.users_once;
    passkeys_once = g.passkeys_once;
    found =
        λ j u e. g.found j u (ground (arith, lookup-swap_remove id j stores.users g.users_once, e));
  }

  -- The user is gone, and then the passkey, which is nobody else's.
  without_passkey-Registered :
      (passkey : List ℕ) (id : ℕ) (stores : Stores F)
      → Owned stores passkey id
      → lookup id stores.users ≡ none
      → Registered stores
      → Registered (without_passkey passkey stores)
  without_passkey-Registered passkey id stores owned gone g = record {
    users_once = g.users_once;
    passkeys_once = swap_remove-Distinct passkey stores.passkey2id g.passkeys_once;
    found = λ j u e.
        let there : lookup j stores.users ≡ some u = e in
        let other : j ≢ id =
          λ same. absurd (ground (arith, there, gone, ap (λ i. lookup i stores.users) same)) in
        ground (
          arith,
          g.found j u there,
          owned j u there other,
          list_beq_iff passkey u.passkey,
          lookup-swap_remove passkey u.passkey stores.passkey2id g.passkeys_once,
        );
  }

  without_user-gone :
      (id : ℕ) (stores : Stores F)
      → Registered stores
      → lookup id (without_user id stores).users ≡ none
  without_user-gone id stores g = ground (arith, lookup-swap_remove id id stores.users g.users_once)

  without_user-Owned :
      (id : ℕ) (passkey : List ℕ) (stores : Stores F)
      → Registered stores
      → Owned stores passkey id
      → Owned (without_user id stores) passkey id
  without_user-Owned id passkey stores g owned j u e other =
      owned j u (ground (arith, lookup-swap_remove id j stores.users g.users_once, e)) other

  put_user-Registered :
      (config : Config F) (r : ApiInsertUser) (passkey : List ℕ) (old : Option (User F))
      (stores : Stores F)
      → Owned stores passkey r.id
      → Registered stores
      → Registered (put_user config r passkey old stores)
  unfolding put_user user_with
  put_user-Registered config r passkey old stores owned g = record {
    users_once = insert-Distinct r.id _ stores.users g.users_once;
    passkeys_once = insert-Distinct passkey r.id stores.passkey2id g.passkeys_once;
    found = λ j u e.
        let e' = lookup-insert r.id j (user_with config r passkey old) stores.users in
        ground (
          arith,
          e,
          e',
          g.found j u,
          owned j u,
          list_beq_iff passkey u.passkey,
          lookup-insert passkey u.passkey r.id stores.passkey2id,
        );
  }

  put_new-Registered :
      (config : Config F) (r : ApiInsertUser) (passkey new_passkey : List ℕ) (old : Option (User F))
      (stores : Stores F)
      → Owned stores passkey r.id
      → Owned stores new_passkey r.id
      → lookup r.id stores.users ≡ none
      → Registered stores
      → Registered (put_user config r new_passkey old (without_passkey passkey stores))
  put_new-Registered config r passkey new_passkey old stores owned new_owned gone g =
      put_user-Registered config r new_passkey old (without_passkey passkey stores) new_owned
        (without_passkey-Registered passkey r.id stores owned gone g)

  rekey-Registered :
      (config : Config F) (r : ApiInsertUser) (passkey : List ℕ) (old : Option (User F))
      (stores : Stores F)
      → Owned stores passkey r.id
      → ((text : List ℕ) → r.new_passkey ≡ some text → Owned stores text r.id)
      → lookup r.id stores.users ≡ none
      → Registered stores
      → Registered (rekey config r passkey old stores).1
  unfolding rekey
  rekey-Registered config r passkey old stores owned new_owned gone g =
      elim (Option-cases r.new_passkey) [
        | inl e ↦ rw (e, rekey) (put_user-Registered config r passkey old stores owned g)
        | inr (text, e) ↦ elim (Outcome-cases (passkey_from_str text)) [
          | inl (new, p) ↦
              rw (e, p, rekey)
                (put_new-Registered config r passkey new old stores owned
                  (rw (passkey-is_text text new p) (new_owned text e)) gone g)
          | inr (inl p) ↦ rw (e, p, rekey) g
          | inr (inr p) ↦ rw (e, p, rekey) g
        ]
      ]

  -- Where nobody else has the passkey of an `upsert` or its new one, every user stays registered,
  -- whatever the request answers.
  pub upsert_user-Registered :
      (config : Config F) (r : ApiInsertUser) (app : App F)
      → Owned app.stores r.passkey r.id
      → ((text : List ℕ) → r.new_passkey ≡ some text → Owned app.stores text r.id)
      → Registered app.stores
      → Registered (upsert_user config r app).1.stores
  unfolding upsert_user
  upsert_user-Registered config r app owned new_owned g =
      elim (Outcome-cases (passkey_from_str r.passkey)) [
        | inl (p, e) ↦
            rw (e, upsert_user)
              (rekey-Registered config r p (lookup r.id app.stores.users)
                (without_user r.id app.stores)
                (without_user-Owned r.id p app.stores g (rw (passkey-is_text r.passkey p e) owned))
                (λ text h. without_user-Owned r.id text app.stores g (new_owned text h))
                (without_user-gone r.id app.stores g) (without_user-Registered r.id app.stores g))
        | inr (inl e) ↦ rw (e, upsert_user) g
        | inr (inr e) ↦ rw (e, upsert_user) g
      ]

  -- Where nobody else has the passkey of a `destroy`, every other user stays registered.
  pub destroy_user-Registered :
      (id : ℕ) (text : List ℕ) (app : App F)
      → Owned app.stores text id
      → Registered app.stores
      → Registered (destroy_user id text app).1.stores
  unfolding destroy_user
  destroy_user-Registered id text app owned g = elim (Outcome-cases (passkey_from_str text)) [
    | inl (p, e) ↦
        rw (e, destroy_user)
          (without_passkey-Registered p id (without_user id app.stores)
            (without_user-Owned id p app.stores g (rw (passkey-is_text text p e) owned))
            (without_user-gone id app.stores g) (without_user-Registered id app.stores g))
    | inr (inl e) ↦ rw (e, destroy_user) g
    | inr (inr e) ↦ rw (e, destroy_user) g
  ]
