-- ===== src/Prelude/Parse/Decimal.antt =====
-- A number is read back from its decimal digits.
use unit3d_announce.Prelude.{
  ℕ, zero, suc, ◌+◌, ◌-◌, ◌*◌, ◌/◌, ◌%◌, ◌≤◌, ◌<◌, ◌≡◌, refl, ◌∙◌, some, List, [], ◌∷◌, ◌++◌, ltb,
  arith, Bool-cases, inl, inr,
}
use unit3d_announce.Prelude.Bytes.{decimal_on, decimal}
use unit3d_announce.Prelude.Parse.{parse_digits, parse_unsigned}

-- Digits only.
abbrev pub IsDigits : List ℕ → Type 0
IsDigits [] = Unit
IsDigits (c ∷ cs) = (b'0' ≤ c) × (c ≤ b'9') × IsDigits cs

append-IsDigits : (xs ys : List ℕ) → IsDigits xs → IsDigits ys → IsDigits (xs ++ ys)
append-IsDigits [] ys a b = b
append-IsDigits (x ∷ xs) ys (l, h, a) b = (l, h, append-IsDigits xs ys a b)

decimal_on-IsDigits : (fuel n : ℕ) → IsDigits (decimal_on fuel n)
unfolding decimal_on
decimal_on-IsDigits zero n = tt
decimal_on-IsDigits (suc fuel) n = elim (Bool-cases (ltb n 10)) [
  | inl small ↦ rw small (omega arith, ground arith, tt)
  | inr large ↦ rw large (
      append-IsDigits (decimal_on fuel (n / 10)) ((b'0' + n % 10) ∷ [])
        (decimal_on-IsDigits fuel (n / 10)) (omega arith, omega arith, tt))
]

pub decimal-IsDigits : (n : ℕ) → IsDigits (decimal n)
unfolding decimal
decimal-IsDigits n = decimal_on-IsDigits (suc n) n

parse_digits-append :
    (top m q : ℕ) (xs ys : List ℕ)
    → parse_digits top m xs ≡ some q
    → parse_digits top m (xs ++ ys) ≡ parse_digits top q ys
unfolding parse_digits
parse_digits-append top m q [] ys h = ground arith
parse_digits-append top m q (x ∷ xs) ys h =
    ground (arith, parse_digits-append top (m * 10 + (x - b'0')) q xs ys)

parse_digits-decimal_on :
    (top fuel n : ℕ) → n < fuel → n ≤ top → parse_digits top 0 (decimal_on fuel n) ≡ some n
unfolding parse_digits decimal_on
parse_digits-decimal_on top zero n f h = absurd (omega arith)
parse_digits-decimal_on top (suc fuel) n f h = elim (Bool-cases (ltb n 10)) [
  | inl small ↦ rw small (ground arith)
  | inr large ↦
      let big : 10 ≤ n = ground arith in
      let ih = parse_digits-decimal_on top fuel (n / 10) (omega arith) (omega arith) in
      rw large (
        parse_digits-append top 0 (n / 10) (decimal_on fuel (n / 10)) ((b'0' + n % 10) ∷ []) ih
        ∙ ground arith)
]

-- The first digit is no sign.
parse_unsigned-parse_digits :
    (top : ℕ) (s : List ℕ) → IsDigits s → (s ≡ [] → ⊥) → parse_unsigned top s ≡ parse_digits top 0 s
unfolding parse_unsigned
parse_unsigned-parse_digits top [] d ne = absurd (ne refl)
parse_unsigned-parse_digits top (c ∷ []) d ne = ground arith
parse_unsigned-parse_digits top (c ∷ d ∷ cs) digits ne = ground arith

append-nonempty : (xs : List ℕ) (x : ℕ) → xs ++ (x ∷ []) ≡ [] → ⊥
append-nonempty [] x h = ground arith
append-nonempty (y ∷ ys) x h = ground arith

decimal_on-nonempty : (fuel n : ℕ) → n < fuel → decimal_on fuel n ≡ [] → ⊥
unfolding decimal_on
decimal_on-nonempty zero n f h = absurd (omega arith)
decimal_on-nonempty (suc fuel) n f h = elim (Bool-cases (ltb n 10)) [
  | inl small ↦ ground (arith, rw small at h)
  | inr large ↦ append-nonempty (decimal_on fuel (n / 10)) (b'0' + n % 10) (rw large at h)
]

-- Every number up to the largest is read back from its decimal digits.
pub parse_unsigned-decimal : (top n : ℕ) → n ≤ top → parse_unsigned top (decimal n) ≡ some n
unfolding decimal
parse_unsigned-decimal top n h =
    parse_unsigned-parse_digits top (decimal n) (decimal-IsDigits n)
      (decimal_on-nonempty (suc n) n (omega arith))
    ∙ parse_digits-decimal_on top (suc n) n (omega arith) h
