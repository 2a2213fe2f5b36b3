-- ===== src/Announce/Answer/Lists.antt =====
-- Which peers src/announce.rs puts in an answer.
use unit3d_announce.Prelude.{
  ltb, Bool-cases, inl, inr, ◌&&◌, ◌==◌, ℕ, ◌+◌, ◌-◌, ◌≤◌, ◌≡◌, Bool, true, false, not, List, [],
  ◌∷◌, ◌++◌, length, min, arith,
}
use mathlib.Core.List.{Perm}
use mathlib.Core.List.Perm
use unit3d_announce.Announce.Answer.Choice.{interchange, filter-Perm}
use unit3d_announce.Model.{Event, event_eq}
use unit3d_announce.Rate.{Float, is_under_limit}
use unit3d_announce.Warning.{AnnounceWarning, is_empty}
use unit3d_announce.Store.Peer.{Index, Peer, PeerStore, is_included_in_peer_list}
use unit3d_announce.Store.Torrent.{Torrent}
use unit3d_announce.Store.User.{User}
use unit3d_announce.Announce.Swarm.{Visit}
use unit3d_announce.Announce.Answer.{filter, Part, is_valid, seed_part, leech_part, peer_parts}

-- Every entry of a list passes a test.
abbrev pub All : (Index × Peer → Bool) → PeerStore → Type 0
All test [] = Unit
All test (e ∷ es) = (test e ≡ true) × All test es

-- What `choose_multiple` of the rand crate documents: it picks elements of the list at different
-- positions, as many as asked for or all; the others are left over.
pub record Chooses (choose : PeerStore → ℕ → PeerStore) : Type 0 where
  pub length_lem : (es : PeerStore) (n : ℕ) → length (choose es n) ≡ min n (length es)
  pub picks : (es : PeerStore) (n : ℕ) → (others : PeerStore) × Perm (choose es n ++ others) es
  pub passes :
      (test : Index × Peer → Bool) (es : PeerStore) (n : ℕ) → All test es → All test (choose es n)

filter-All : (test : Index × Peer → Bool) (es : PeerStore) → All test (filter test es)
unfolding filter
filter-All test [] = tt
filter-All test (e ∷ es) = ground (arith, filter-All test es)

filter-keeps_All :
    (test keep : Index × Peer → Bool) (es : PeerStore) → All test es → All test (filter keep es)
unfolding filter
filter-keeps_All test keep [] h = tt
filter-keeps_All test keep (e ∷ es) h = ground (arith, filter-keeps_All test keep es)

All-++ :
    (test : Index × Peer → Bool) (xs ys : PeerStore)
    → All test xs
    → All test ys
    → All test (xs ++ ys)
All-++ test [] ys a b = b
All-++ test (x ∷ xs) ys a b = (a.0, All-++ test xs ys a.1 b)

length-++ : (xs ys : PeerStore) → length (xs ++ ys) ≡ length xs + length ys
length-++ [] ys = omega arith
length-++ (x ∷ xs) ys = omega (arith, length-++ xs ys)

All-weaken :
    (strong weak : Index × Peer → Bool) (es : PeerStore)
    → ((e : Index × Peer) → strong e ≡ true → weak e ≡ true)
    → All strong es
    → All weak es
All-weaken strong weak [] h all = tt
All-weaken strong weak (e ∷ es) h all = (h e all.0, All-weaken strong weak es h all.1)

-- The entries that pass a test and those that do not are all.
length-filter :
    (test : Index × Peer → Bool) (es : PeerStore)
    → length (filter test es) + length (filter (λ e. not (test e)) es) ≡ length es
unfolding filter
length-filter test [] = omega arith
length-filter test (e ∷ es) = ground (arith, length-filter test es)

abbrev of_another_user : ℕ → Index × Peer → Bool
of_another_user user_id e = not (e.0.user_id == user_id)

valid_is_another :
    {F : Type 0} (v : Visit F) (e : Index × Peer)
    → is_valid v e ≡ true
    → of_another_user v.user_id e ≡ true
unfolding is_valid
valid_is_another v e h = ground arith

valid_is_listed :
    {F : Type 0} (v : Visit F) (e : Index × Peer)
    → is_valid v e ≡ true
    → is_included_in_peer_list v.config e.1 ≡ true
unfolding is_valid
valid_is_listed v e h = ground arith

abbrev seed_test : Index × Peer → Bool
seed_test e = e.1.is_seeder

abbrev leech_test : Index × Peer → Bool
leech_test e = not e.1.is_seeder

module _ {F : Type 0} ⦃f : Float F⦄ (v : Visit F) (user : User F) (torrent : Torrent)
    (choose_seeds choose_leeches : PeerStore → ℕ → PeerStore) (s : Chooses choose_seeds)
    (l : Chooses choose_leeches) where
  open v use {queries}

  abbrev listed : Index × Peer → Bool
  listed e = is_included_in_peer_list v.config e.1

  abbrev available : PeerStore
  available = filter (is_valid v) torrent.peers

  abbrev seeds : Part
  seeds = seed_part v user torrent choose_seeds

  abbrev leeches : PeerStore → Part
  leeches = leech_part v user torrent choose_leeches

  seeds-All :
      All (is_valid v) seeds.peers
      × All seed_test seeds.peers
      × (length seeds.peers ≤ queries.numwant)
  unfolding seed_part
  seeds-All =
      let ps = filter seed_test available in
      let a = s.passes (is_valid v) ps queries.numwant (
        filter-keeps_All (is_valid v) seed_test available
          (filter-All (is_valid v) torrent.peers)) in
      let b = s.passes seed_test ps queries.numwant (filter-All seed_test available) in
      let c = s.length_lem ps queries.numwant in ground arith

  leeches-All :
      (picked : PeerStore)
      → length picked ≤ queries.numwant
      → All (is_valid v) (leeches picked).peers
        × All leech_test (leeches picked).peers
        × (length picked + length (leeches picked).peers ≤ queries.numwant)
  unfolding leech_part
  leeches-All picked h =
      let ps = filter leech_test available in
      let n = queries.numwant - length picked in
      let a = l.passes (is_valid v) ps n (
        filter-keeps_All (is_valid v) leech_test available
          (filter-All (is_valid v) torrent.peers)) in
      let b = l.passes leech_test ps n (filter-All leech_test available) in
      let c = l.length_lem ps n in ground arith

  seeds-picks : (others : PeerStore) × Perm (seeds.peers ++ others) (filter seed_test available)
  unfolding seed_part
  seeds-picks =
      let ps = filter seed_test available in
      elim (Bool-cases (ltb 0 queries.left && ltb 0 torrent.seeders && ltb 0 queries.numwant)) [
        | inr unasked ↦ rw unasked (ps, Perm.refl ps)
        | inl asked ↦ rw asked (elim (Bool-cases (is_under_limit user.receive_seed_list_rates)) [
          | inl under ↦ rw under (s.picks ps queries.numwant)
          | inr over ↦ rw over (ps, Perm.refl ps)
        ])
      ]

  leeches-picks :
      (picked : PeerStore)
      → (others : PeerStore) × Perm ((leeches picked).peers ++ others) (filter leech_test available)
  unfolding leech_part
  leeches-picks picked =
      let ps = filter leech_test available in
      elim (Bool-cases (ltb 0 torrent.leechers && ltb (length picked) queries.numwant)) [
        | inr unasked ↦ rw unasked (ps, Perm.refl ps)
        | inl asked ↦ rw asked (elim (Bool-cases (is_under_limit user.receive_leech_list_rates)) [
          | inl under ↦ rw under (l.picks ps (queries.numwant - length picked))
          | inr over ↦ rw over (ps, Perm.refl ps)
        ])
      ]

  module _ (warnings : List AnnounceWarning) where
    abbrev parts : Part × Part
    parts = peer_parts v user torrent choose_seeds choose_leeches warnings

    parts-valid :
        All (is_valid v) (parts.0.peers ++ parts.1.peers)
        × All seed_test parts.0.peers
        × All leech_test parts.1.peers
        × (length (parts.0.peers ++ parts.1.peers) ≤ queries.numwant)
    unfolding peer_parts
    parts-valid =
        let (a, b, c) = seeds-All in
        let (a', b', c') = leeches-All seeds.peers c in
        let n = length-++ seeds.peers (leeches seeds.peers).peers in
        let both = All-++ (is_valid v) seeds.peers (leeches seeds.peers).peers a a' in ground arith

    -- Where `choose_multiple` does what it documents, an answer lists only peers of other users
    -- that are in the peer list, first seeds and then leeches, and at most as many as asked for.
    pub peer_parts-All :
        All (of_another_user v.user_id) (parts.0.peers ++ parts.1.peers)
        × All listed (parts.0.peers ++ parts.1.peers)
        × All seed_test parts.0.peers
        × All leech_test parts.1.peers
        × (length (parts.0.peers ++ parts.1.peers) ≤ queries.numwant)
    peer_parts-All =
        let (a, b, c, d) = parts-valid in
        let others =
          All-weaken (is_valid v) (of_another_user v.user_id) (parts.0.peers ++ parts.1.peers)
            (valid_is_another v) a in
        let in_list =
          All-weaken (is_valid v) listed (parts.0.peers ++ parts.1.peers) (valid_is_listed v) a in
        (others, in_list, b, c, d)

    peer_parts-length :
        event_eq queries.event Event.stopped ≡ false
        → is_empty warnings ≡ true
        → 1 ≤ queries.left
        → 1 ≤ torrent.seeders
        → 1 ≤ torrent.leechers
        → is_under_limit user.receive_seed_list_rates ≡ true
        → is_under_limit user.receive_leech_list_rates ≡ true
        → length (parts.0.peers ++ parts.1.peers) ≡ min queries.numwant (length available)
    unfolding peer_parts seed_part leech_part
    peer_parts-length h0 h1 h2 h3 h4 h5 h6 =
        let n = length-++ seeds.peers (leeches seeds.peers).peers in
        let c = s.length_lem (filter seed_test available) queries.numwant in
        let c' =
          l.length_lem (filter leech_test available) (queries.numwant - length seeds.peers) in
        let whole = length-filter seed_test available in ground arith

    peer_parts-picks :
        (others : PeerStore) × Perm ((parts.0.peers ++ parts.1.peers) ++ others) available
    unfolding peer_parts
    peer_parts-picks =
        elim (Bool-cases (
          not (event_eq queries.event Event.stopped)
          && ltb 0 torrent.leechers
          && is_empty warnings)) [
            | inr unasked ↦ rw unasked (available, Perm.refl available)
            | inl asked ↦
                let (r, p) = seeds-picks in
                let (r', p') = leeches-picks seeds.peers in
                rw asked (
                  r ++ r',
                  Perm.trans (interchange seeds.peers (leeches seeds.peers).peers r r')
                      (Perm.trans (Perm.append p p') (filter-Perm seed_test available)),
                )
          ]

    -- Where `choose_multiple` does what it documents, a client that leeches, does not stop, is under
    -- its limits and gets no warning, on a torrent with seeders and leechers, is given different ones
    -- of the peers of other users that are in the peer list: as many as it asked for, or all of them
    -- where there are no more.
    pub peer_parts-divides :
        event_eq queries.event Event.stopped ≡ false
        → is_empty warnings ≡ true
        → 1 ≤ queries.left
        → 1 ≤ torrent.seeders
        → 1 ≤ torrent.leechers
        → is_under_limit user.receive_seed_list_rates ≡ true
        → is_under_limit user.receive_leech_list_rates ≡ true
        → (length (parts.0.peers ++ parts.1.peers) ≡ min queries.numwant (length available))
          × ((others : PeerStore) × Perm ((parts.0.peers ++ parts.1.peers) ++ others) available)
    peer_parts-divides h0 h1 h2 h3 h4 h5 h6 =
        (peer_parts-length h0 h1 h2 h3 h4 h5 h6, peer_parts-picks)
