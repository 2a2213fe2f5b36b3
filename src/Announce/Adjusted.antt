-- ===== src/Announce/Adjusted.antt =====
-- How an answered announce of src/announce.rs adjusts the counts of the users.
use unit3d_announce.Announce.After.Users.{modified_user_counts}
use unit3d_announce.Prelude.{
  ℕ, ◌≤◌, ◌≡◌, ◌≢◌, refl, sym, ap, ◌∙◌, false, ◌||◌, some, arith, Bool-cases, Option-cases, inl,
  inr, ◌==◌,
}
use mathlib.Core.Option.{some-injective, some-ne-none}
use unit3d_announce.Prelude.Int.{ℤ, pos, negsuc, is_nonzero}
use unit3d_announce.Prelude.Word.{u32_max, saturating_add, saturating_add_signed}
use unit3d_announce.Prelude.Eq.{nat_eq, bytes_eq}
use unit3d_announce.Prelude.Map.{Map, lookup, modify}
use unit3d_announce.Prelude.Map.Laws.{lookup-modify_same, lookup-modify_other, modify_absent}
use unit3d_announce.Config.{Config}
use unit3d_announce.Rate.{Float}
use unit3d_announce.Store.User.{User}
use unit3d_announce.Announce.Swarm.{Change}
use unit3d_announce.Announce.State.{World, Served}
use unit3d_announce.Announce.Request.{Request}
use unit3d_announce.Announce.After.{modified_user, update_users}

-- A difference that is 0 moves nothing.
still : (n : ℕ) (d : ℤ) → is_nonzero d ≡ false → n ≤ u32_max → saturating_add_signed u32_max n d ≡ n
unfolding saturating_add_signed saturating_add is_nonzero
still n (pos k) h b = ground arith
still n (negsuc k) h b = ground arith

module _ {F : Type 0} (config : Config F) where
  -- The counts of a user after an update, by the user before it.
  pub record Adjusted (user_id : ℕ) (change : Change) (id : ℕ) (users : Map ℕ (User F))
      (user : User F) : Type 0 where
    pub old : User F
    pub there : lookup id users ≡ some old
    pub seeding :
        user_id ≡ id
        → old.num_seeding ≤ u32_max
        → user.num_seeding ≡ saturating_add_signed u32_max old.num_seeding change.seeder_delta
    pub leeching :
        user_id ≡ id
        → old.num_leeching ≤ u32_max
        → user.num_leeching ≡ saturating_add_signed u32_max old.num_leeching change.leecher_delta
    pub other_seeding : user_id ≢ id → user.num_seeding ≡ old.num_seeding
    pub other_leeching : user_id ≢ id → user.num_leeching ≡ old.num_leeching

  unchanged-Adjusted :
      (user_id : ℕ) (change : Change) (id : ℕ) (users : Map ℕ (User F)) (user : User F)
      → is_nonzero change.seeder_delta ≡ false
      → is_nonzero change.leecher_delta ≡ false
      → lookup id users ≡ some user
      → Adjusted user_id change id users user
  unchanged-Adjusted user_id change id users user p q h = record {
    old = user;
    there = h;
    seeding = λ e b. sym (still user.num_seeding change.seeder_delta p b);
    leeching = λ e b. sym (still user.num_leeching change.leecher_delta q b);
    other_seeding = λ e. refl;
    other_leeching = λ e. refl;
  }

  module _ ⦃f : Float F⦄ (w : World F) (r : Request) (s : Served F) (users : Map ℕ (User F))
      (id : ℕ) (user : User F) where
    abbrev closure : User F → User F
    closure user = (modified_user config w r s user).1

    modified :
        (old : User F)
        → lookup id users ≡ some old
        → s.member.user_id ≡ id
        → (modified_user config w r s old).1 ≡ user
        → Adjusted s.member.user_id s.change id users user
    modified old found own e = record {
      old = old;
      there = found;
      seeding = λ a b.
          ap (λ (u : User F). u.num_seeding) (sym e) ∙ (modified_user_counts config w r s old).0;
      leeching = λ a b.
          ap (λ (u : User F). u.num_leeching) (sym e) ∙ (modified_user_counts config w r s old).1;
      other_seeding = λ other. absurd (other own);
      other_leeching = λ other. absurd (other own);
    }

    modify-Adjusted :
        lookup id (modify s.member.user_id closure users) ≡ some user
        → Adjusted s.member.user_id s.change id users user
    modify-Adjusted h = elim (Bool-cases (s.member.user_id == id)) [
      | inr other ↦ record {
        old = user;
        there = sym (lookup-modify_other s.member.user_id id closure users other) ∙ h;
        seeding = λ e. absurd (ground arith);
        leeching = λ e. absurd (ground arith);
        other_seeding = λ e. refl;
        other_leeching = λ e. refl;
      }
      | inl own ↦ elim (Option-cases (lookup id users)) [
        | inl missing ↦
            let at : s.member.user_id ≡ id = ground arith in
            let gone =
              modify_absent s.member.user_id closure users
                (ap (λ k. lookup k users) at ∙ missing) in
            absurd (some-ne-none user (sym h ∙ (ap (lookup id) gone ∙ missing)))
        | inr (old, found) ↦ modified old found (ground arith) (
            some-injective (closure old) user
              (sym (lookup-modify_same s.member.user_id id closure users old own found) ∙ h))
      ]
    ]

    pub update_users-Adjusted :
        lookup id (update_users config w r s users).1 ≡ some user
        → Adjusted s.member.user_id s.change id users user
    unfolding update_users
    update_users-Adjusted =
        elim (Bool-cases (
          is_nonzero s.change.seeder_delta
          || is_nonzero s.change.leecher_delta
          || s.has_requested_seed_list
          || s.has_requested_leech_list)) [
            | inl on ↦ rw (on, update_users) modify-Adjusted
            | inr off ↦
                rw (off, update_users)
                  (unchanged-Adjusted s.member.user_id s.change id users user (ground arith)
                    (ground arith))
          ]
