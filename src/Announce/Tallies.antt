-- ===== src/Announce/Tallies.antt =====
-- The counts of a user are the numbers of its peers in the lists of all torrents, which decide
-- whether it may download more.
use unit3d_announce.Prelude.{
  ℕ, ◌+◌, ◌≤◌, ◌<◌, ◌≡◌, ◌≢◌, sym, ap, ◌∙◌, Bool, some, arith, Bool-cases, inl, inr, ◌==◌,
}
use mathlib.Core.Path.{subst}
use unit3d_announce.Prelude.Int.{ℤ}
use unit3d_announce.Prelude.Word.{u32_max, saturating_add_signed}
use unit3d_announce.Prelude.Eq.{nat_eq, bytes_eq}
use unit3d_announce.Prelude.Map.{Map, total, lookup, insert, swap_remove}
use unit3d_announce.Prelude.Map.Laws.{total-insert_old, total-swap_remove}
use unit3d_announce.Config.{Config}
use unit3d_announce.Rate.{Float}
use unit3d_announce.Store.Peer.{Peer, is_included_in_seed_list, is_included_in_leech_list}
use unit3d_announce.Store.Torrent.{Torrent}
use unit3d_announce.Store.User.{User}
use unit3d_announce.Announce.Swarm.{Result-cases, update_torrent}
use unit3d_announce.Announce.Swarm.Seats.{seats, Moves, update_torrent-Moved}
use unit3d_announce.Announce.Admit.{Member}
use unit3d_announce.Announce.State.{App, World}
use unit3d_announce.Announce.Request.{Request}
use unit3d_announce.Store.{Stores}
use unit3d_announce.Announce.Written.{Written, announce-Written}
use unit3d_announce.Announce.Effects.{announce-err}
use unit3d_announce.Announce.Total.{InRange, announce-ne-panic}
use unit3d_announce.Announce.{visit, announce}
use unit3d_announce.Announce.Adjusted.{update_users-Adjusted}

-- How many peers of a user pass a test, over all torrents.
abbrev pub tally : (Peer → Bool) → ℕ → Map ℕ Torrent → ℕ
tally test u = total (λ e. seats test u e.1.peers)

-- A tally moves like the seats of the one torrent that is written.
tally-insert :
    (test : Peer → Bool) (uid : ℕ) (d : ℤ) (id : ℕ) (t t' : Torrent) (torrents : Map ℕ Torrent)
    → lookup id torrents ≡ some t
    → Moves test uid t.peers t'.peers d
    → tally test uid torrents < u32_max
    → saturating_add_signed u32_max (tally test uid torrents) d
      ≡ tally test uid (insert id t' torrents)
tally-insert test uid d id t t' torrents there moves room =
    let g = λ (e : ℕ × Torrent). seats test uid e.1.peers in
    let rest = total-swap_remove g id t torrents there in
    let both = total-insert_old g id t' t torrents there in
    let now : total g (swap_remove id torrents) + seats test uid t.peers ≡ tally test uid torrents =
      rest in
    let later : total g (swap_remove id torrents) + seats test uid t'.peers
        ≡ tally test uid (insert id t' torrents) =
      omega (arith, rest, both) in
    ap (λ n. saturating_add_signed u32_max n d) (sym now)
    ∙ moves.own (total g (swap_remove id torrents)) (omega (arith, now, room))
    ∙ later

tally-insert_other :
    (test : Peer → Bool) (uid u : ℕ) (d : ℤ) (id : ℕ) (t t' : Torrent) (torrents : Map ℕ Torrent)
    → lookup id torrents ≡ some t
    → Moves test uid t.peers t'.peers d
    → uid ≢ u
    → tally test u (insert id t' torrents) ≡ tally test u torrents
tally-insert_other test uid u d id t t' torrents there moves other = omega (
  arith,
  total-insert_old (λ (e : ℕ × Torrent). seats test u e.1.peers) id t' t torrents there,
  moves.other u other,
)

module _ {F : Type 0} (config : Config F) where
  -- Every user has the right counts.
  pub record Tallied (torrents : Map ℕ Torrent) (users : Map ℕ (User F)) : Type 0 where
    pub seeding :
        (id : ℕ) (user : User F)
        → lookup id users ≡ some user
        → user.num_seeding ≡ tally (is_included_in_seed_list config) id torrents
    pub leeching :
        (id : ℕ) (user : User F)
        → lookup id users ≡ some user
        → user.num_leeching ≡ tally (is_included_in_leech_list config) id torrents

  -- No user has as many seeds or leeches as a count can hold.
  pub record Spacious (torrents : Map ℕ Torrent) : Type 0 where
    pub seeding : (id : ℕ) → tally (is_included_in_seed_list config) id torrents < u32_max
    pub leeching : (id : ℕ) → tally (is_included_in_leech_list config) id torrents < u32_max

  module _ ⦃f : Float F⦄ (w : World F) (r : Request) (torrents : Map ℕ Torrent)
      (users : Map ℕ (User F)) where
    -- One count of a user, when the torrent that is written moves its peers.
    count_after :
        (test : Peer → Bool) (uid : ℕ) (d : ℤ) (k : ℕ) (t t' : Torrent) (id old new : ℕ)
        → lookup k torrents ≡ some t
        → Moves test uid t.peers t'.peers d
        → tally test id torrents < u32_max
        → old ≡ tally test id torrents
        → (uid ≡ id → old ≤ u32_max → new ≡ saturating_add_signed u32_max old d)
        → (uid ≢ id → new ≡ old)
        → new ≡ tally test id (insert k t' torrents)
    count_after test uid d k t t' id old new there moves room was own other =
        elim (Bool-cases (uid == id)) [
          | inl same ↦
              let at : uid ≡ id = ground arith in
              own at (omega (arith, was, room))
              ∙ (ap (λ n. saturating_add_signed u32_max n d) was
                  ∙ subst
                      (λ i.
                        tally test i torrents < u32_max
                        → saturating_add_signed u32_max (tally test i torrents) d
                          ≡ tally test i (insert k t' torrents))
                      at (tally-insert test uid d k t t' torrents there moves) room)
          | inr apart ↦
              let off : uid ≢ id = ground arith in
              other off
              ∙ (was ∙ sym (tally-insert_other test uid id d k t t' torrents there moves off))
        ]

    Written-Tallied :
        (after : Stores F)
        → Spacious torrents
        → Tallied torrents users
        → Written config w r torrents users after
        → Tallied after.torrents after.users
    unfolding visit
    Written-Tallied after room tallied v =
        let t' =
          (update_torrent (visit config w r v.member v.connectable) v.torrent v.warnings).1 in
        let moved =
          update_torrent-Moved (visit config w r v.member v.connectable) v.torrent v.warnings
            v.served.change v.updates in
        let named = ap (λ (m : Member F). m.user_id) v.own in
        let before = λ (id : ℕ) (user : User F) (h : lookup id after.users ≡ some user).
          update_users-Adjusted config w r v.served users id user
            (sym (ap (lookup id) v.users) ∙ h) in
        record {
          seeding = λ id user h.
              let a = before id user h in
              count_after (is_included_in_seed_list config) v.member.user_id
                v.served.change.seeder_delta v.id v.torrent t' id a.old.num_seeding user.num_seeding
                v.there moved.seeds (room.seeding id) (tallied.seeding id a.old a.there)
                (λ e. a.seeding (named ∙ e)) (λ n. a.other_seeding (λ e. n (sym named ∙ e)))
              ∙ ap (tally (is_included_in_seed_list config) id) (sym v.torrents);
          leeching = λ id user h.
              let a = before id user h in
              count_after (is_included_in_leech_list config) v.member.user_id
                v.served.change.leecher_delta v.id v.torrent t' id a.old.num_leeching
                user.num_leeching v.there moved.leeches (room.leeching id)
                (tallied.leeching id a.old a.there) (λ e. a.leeching (named ∙ e))
                (λ n. a.other_leeching (λ e. n (sym named ∙ e)))
              ∙ ap (tally (is_included_in_leech_list config) id) (sym v.torrents);
        }

-- With a configuration whose intervals are in range, a clock past the epoch, memory for as many
-- peers as are asked for, fewer than `u32::MAX` listed seeds and listed
-- leeches of every user, and the counts of every user equal to the numbers of these over all
-- torrents, they are equal again after any announce, whatever its answer.
pub announce-Tallied :
    {F : Type 0} ⦃f : Float F⦄ (config : Config F) (w : World F) (r : Request) (app : App F)
    → InRange config w r
    → Spacious config app.stores.torrents
    → Tallied config app.stores.torrents app.stores.users
    → Tallied config
        (announce config w r app).1.stores.torrents
        (announce config w r app).1.stores.users
announce-Tallied config w r app fits room tallied =
    elim (Result-cases (announce config w r app).0) [
      | inl (out, p) ↦
          Written-Tallied config w r app.stores.torrents app.stores.users
            (announce config w r app).1.stores room tallied (announce-Written config w r app p)
      | inr (inl (e, p)) ↦
          let kept = announce-err config w r app p in
          subst (λ t. Tallied config t (announce config w r app).1.stores.users) (sym kept.0)
            (subst (Tallied config app.stores.torrents) (sym kept.1) tallied)
      | inr (inr p) ↦ absurd (announce-ne-panic config w r fits app p)
    ]
