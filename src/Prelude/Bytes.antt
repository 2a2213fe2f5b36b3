-- ===== src/Prelude/Bytes.antt =====
-- Byte strings: ASCII literals, and numbers in decimal.
use Prim.Native.Char.{code}
use Prim.Native.String.{String}
use unit3d_announce.Prelude.{
  ℕ, zero, suc, ◌+◌, ◌/◌, ◌%◌, List, [], ◌∷◌, ◌++◌, ltb, if◌then◌else◌, ◌≡◌, refl,
}

-- The bytes of an ASCII text, `b"…"`.
abbrev pub bytes : String → List ℕ
bytes String.[] = []
bytes (String.◌∷◌ c s) = code c ∷ bytes s

-- The digits of a number below the fuel, most significant first.
unfoldable pub decimal_on : ℕ → ℕ → List ℕ
decimal_on zero n = []
decimal_on (suc fuel) n =
    let rest = decimal_on fuel (n / 10) in
    if ltb n 10 then (b'0' + n) ∷ [] else rest ++ (b'0' + n % 10) ∷ []

-- `n.to_string()` of an unsigned integer.
unfoldable pub decimal : ℕ → List ℕ
decimal n = decimal_on (suc n) n

-- The numbers that stand in the literals of the responses.
pub decimal-0 : decimal 0 ≡ bytes "0"
unfolding decimal decimal_on
decimal-0 = refl

pub decimal-4 : decimal 4 ≡ bytes "4"
unfolding decimal decimal_on
decimal-4 = refl

pub decimal-5 : decimal 5 ≡ bytes "5"
unfolding decimal decimal_on
decimal-5 = refl

pub decimal-6 : decimal 6 ≡ bytes "6"
unfolding decimal decimal_on
decimal-6 = refl

pub decimal-7 : decimal 7 ≡ bytes "7"
unfolding decimal decimal_on
decimal-7 = refl

pub decimal-8 : decimal 8 ≡ bytes "8"
unfolding decimal decimal_on
decimal-8 = refl

pub decimal-10 : decimal 10 ≡ bytes "10"
unfolding decimal decimal_on
decimal-10 = refl

pub decimal-12 : decimal 12 ≡ bytes "12"
unfolding decimal decimal_on
decimal-12 = refl

pub decimal-14 : decimal 14 ≡ bytes "14"
unfolding decimal decimal_on
decimal-14 = refl

pub decimal-15 : decimal 15 ≡ bytes "15"
unfolding decimal decimal_on
decimal-15 = refl

pub decimal-30 : decimal 30 ≡ bytes "30"
unfolding decimal decimal_on
decimal-30 = refl

pub decimal-5400 : decimal 5400 ≡ bytes "5400"
unfolding decimal decimal_on
decimal-5400 = refl

pub ruleset digits = (
  decimal-0, decimal-4, decimal-5, decimal-6, decimal-7, decimal-8, decimal-10, decimal-12,
  decimal-14, decimal-15, decimal-30, decimal-5400,
)
