-- ===== src/Prelude/Ord.antt =====
-- Orders as an interface: a test with its laws, lexicographic on pairs and lists as `derive(Ord)`.
use unit3d_announce.Prelude.{
  ℕ, ◌≡◌, Bool, true, false, List, [], ◌∷◌, arith, leb as nat_leb, if◌then◌else◌,
}

pub record Ord {ℓ} (A : Type ℓ) : Type ℓ where
  pub leb : A → A → Bool
  pub leb_total : (a b : A) → leb a b ≡ false → leb b a ≡ true
  pub leb_trans : (a b c : A) → leb a b ≡ true → leb b c ≡ true → leb a c ≡ true

pub nat_total : (a b : ℕ) → nat_leb a b ≡ false → nat_leb b a ≡ true
nat_total a b h = ground arith

pub nat_trans : (a b c : ℕ) → nat_leb a b ≡ true → nat_leb b c ≡ true → nat_leb a c ≡ true
nat_trans a b c h k = ground arith

instance abbrev pub nat_ord : Ord ℕ
nat_ord = record { leb = nat_leb; leb_total = nat_total; leb_trans = nat_trans }

module _ {ℓ κ} {A : Type ℓ} {B : Type κ} ⦃o : Ord A⦄ ⦃p : Ord B⦄ where
  unfoldable pub pair_leb : A × B → A × B → Bool
  pair_leb (a, b) (c, d) = if o.leb a c then (if o.leb c a then p.leb b d else true) else false

  pub pair_total : (x y : A × B) → pair_leb x y ≡ false → pair_leb y x ≡ true
  unfolding pair_leb
  pair_total (a, b) (c, d) h = ground (arith, o.leb_total a c, o.leb_total c a, p.leb_total b d)

  pub pair_trans : (x y z : A × B) → pair_leb x y ≡ true → pair_leb y z ≡ true → pair_leb x z ≡ true
  unfolding pair_leb
  pair_trans (a, b) (c, d) (i, j) h k = ground (
    arith,
    o.leb_trans a c i,
    o.leb_trans i a c,
    o.leb_trans c i a,
    o.leb_total a c,
    o.leb_total c a,
    p.leb_trans b d j,
  )

  instance abbrev pub pair_ord : Ord (A × B)
  pair_ord = record { leb = pair_leb; leb_total = pair_total; leb_trans = pair_trans }

unfoldable pub list_leb : List ℕ → List ℕ → Bool
list_leb [] ys = true
list_leb (x ∷ xs) [] = false
list_leb (x ∷ xs) (y ∷ ys) =
    if nat_leb x y then (if nat_leb y x then list_leb xs ys else true) else false

pub list_total : (xs ys : List ℕ) → list_leb xs ys ≡ false → list_leb ys xs ≡ true
unfolding list_leb
list_total [] ys h = absurd (ground arith)
list_total (x ∷ xs) [] h = ground arith
list_total (x ∷ xs) (y ∷ ys) h = ground (arith, list_total xs ys)

pub list_trans :
    (xs ys zs : List ℕ) → list_leb xs ys ≡ true → list_leb ys zs ≡ true → list_leb xs zs ≡ true
unfolding list_leb
list_trans [] ys zs h k = ground arith
list_trans (x ∷ xs) [] zs h k = absurd (ground arith)
list_trans (x ∷ xs) (y ∷ ys) [] h k = absurd (ground arith)
list_trans (x ∷ xs) (y ∷ ys) (z ∷ zs) h k = ground (arith, list_trans xs ys zs)

instance abbrev pub bytes_ord : Ord (List ℕ)
bytes_ord = record { leb = list_leb; leb_total = list_total; leb_trans = list_trans }
