-- ===== src/Load/Ports.antt =====
-- The ports that src/store/blacklisted_port.rs refuses.
use unit3d_announce.Prelude.{
  ℕ, zero, suc, ◌≡◌, refl, ◌∙◌, Bool, false, ◌||◌, List, [], ◌∷◌, arith, ltb, ◌==◌,
}
use unit3d_announce.Prelude.Eq.{nat_eq}
use unit3d_announce.Prelude.Map.{Map, insert, contains_key}
use unit3d_announce.Load.{insert_all, insert_below, known_ports, blacklisted_ports}

contains_key-insert :
    (k j : ℕ) (m : Map ℕ (Unit {0})) → contains_key j (insert k tt m) ≡ (k == j || contains_key j m)
unfolding contains_key insert
contains_key-insert k j [] = ground arith
contains_key-insert k j ((i, u) ∷ m) = ground (arith, contains_key-insert k j m)

contains_key-insert_below :
    (n j : ℕ) (m : Map ℕ (Unit {0}))
    → contains_key j (insert_below n m) ≡ (ltb j n || contains_key j m)
unfolding insert_below
contains_key-insert_below zero j m = ground arith
contains_key-insert_below (suc n) j m =
    ground (arith, contains_key-insert n j (insert_below n m), contains_key-insert_below n j m)

-- A port of a list.
abbrev pub is_in : ℕ → List ℕ → Bool
is_in j [] = false
is_in j (k ∷ ks) = k == j || is_in j ks

contains_key-insert_all :
    (ks : List ℕ) (j : ℕ) (m : Map ℕ (Unit {0}))
    → contains_key j (insert_all ks m) ≡ (is_in j ks || contains_key j m)
unfolding insert_all
contains_key-insert_all [] j m = refl
contains_key-insert_all (k ∷ ks) j m =
    ground (arith, contains_key-insert_all ks j (insert k tt m), contains_key-insert k j m)

-- A port is on the blacklist at the start exactly if it is below 1024 or one of the eight known ones.
pub blacklisted_ports_lem :
    (port : ℕ) → contains_key port blacklisted_ports ≡ (ltb port 1024 || is_in port known_ports)
unfolding blacklisted_ports contains_key
blacklisted_ports_lem port =
    contains_key-insert_below 1024 port (insert_all known_ports [])
    ∙ ground (arith, contains_key-insert_all known_ports port [])
