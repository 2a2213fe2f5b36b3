-- ===== src/Announce/Query/Positions.antt =====
-- Where the loop of src/announce.rs finds the signs of a query, and what it reads between them.
use unit3d_announce.Prelude.{
  ℕ, ◌+◌, ◌-◌, ◌≡◌, ◌≢◌, refl, ap, ◌∙◌, true, false, ◌&&◌, some, List, [], ◌∷◌, ◌++◌, length,
  length-append, take, drop, arith, leb, ◌==◌,
}
use unit3d_announce.Announce.Query.{positions, slice}

-- A text without a certain byte.
abbrev pub Without : ℕ → List ℕ → Type 0
Without c [] = Unit
Without c (x ∷ xs) = (x == c ≡ false) × Without c xs

positions-append :
    (c : ℕ) (xs ys : List ℕ) (i : ℕ)
    → Without c xs
    → positions c (xs ++ ys) i ≡ positions c ys (i + length xs)
unfolding positions
positions-append c [] ys i h = ap (positions c ys) (omega arith)
positions-append c (x ∷ xs) ys i h =
    let ih = positions-append c xs ys (i + 1) h.1 in
    rw (h.0, ih) (ap (positions c ys) (omega arith))

pub positions_none : (c : ℕ) (xs : List ℕ) (i : ℕ) → Without c xs → positions c xs i ≡ []
unfolding positions
positions_none c [] i h = refl
positions_none c (x ∷ xs) i h = ground (arith, positions_none c xs (i + 1) h.1)

-- A byte that is looked for, and one that is not, behind a text that does not hold it.
pub positions_hit :
    (c : ℕ) (xs ys : List ℕ) (i : ℕ)
    → Without c xs
    → positions c (xs ++ (c ∷ ys)) i ≡ (i + length xs) ∷ positions c ys (i + length xs + 1)
unfolding positions
positions_hit c xs ys i h = positions-append c xs (c ∷ ys) i h ∙ ground arith

pub positions_skip :
    (c d : ℕ) (xs ys : List ℕ) (i : ℕ)
    → Without c xs
    → c ≢ d
    → positions c (xs ++ (d ∷ ys)) i ≡ positions c ys (i + length xs + 1)
unfolding positions
positions_skip c d xs ys i h ne = positions-append c xs (d ∷ ys) i h ∙ ground arith

drop-append : (xs ys : List ℕ) → drop (length xs) (xs ++ ys) ≡ ys
drop-append [] ys = refl
drop-append (x ∷ xs) ys = drop-append xs ys

take-append : (xs ys : List ℕ) → take (length xs) (xs ++ ys) ≡ xs
take-append [] ys = refl
take-append (x ∷ xs) ys = ap (◌∷◌ x) (take-append xs ys)

slice-append : (a m b : List ℕ) → slice (a ++ (m ++ b)) (length a) (length a + length m) ≡ some m
unfolding slice
slice-append a m b =
    let n = length-append a (m ++ b) in
    let n' = length-append m b in
    let fits : (leb (length a) (length a + length m)
          && leb (length a + length m) (length (a ++ (m ++ b))))
        ≡ true =
      ground arith in
    let back : length a + length m - length a ≡ length m = omega arith in
    rw (fits, back, drop-append a (m ++ b), take-append m b)

-- The part of a query between two positions.
pub slice-middle :
    (s a m b : List ℕ) (start end : ℕ)
    → s ≡ a ++ (m ++ b)
    → start ≡ length a
    → end ≡ length a + length m
    → slice s start end ≡ some m
slice-middle s a m b start end h i j = rw (h, i, j) (slice-append a m b)
