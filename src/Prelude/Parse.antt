-- ===== src/Prelude/Parse.antt =====
-- `str::parse` of integers: an optional sign, digits, and no overflow; and of Booleans. `str::split`.
pub mod Decimal
use unit3d_announce.Prelude.Eq.{list_beq}
use unit3d_announce.Prelude.Int.{ℤ, pos, sub_ℕ}
use unit3d_announce.Prelude.Bytes.{bytes}
use unit3d_announce.Prelude.{
  ℕ, ◌+◌, ◌-◌, ◌*◌, Bool, true, false, ◌&&◌, Option, none, some, List, [], ◌∷◌, leb, ◌==◌,
  if◌then◌else◌,
}

-- The digits, onto a number.
unfoldable pub parse_digits : ℕ → ℕ → List ℕ → Option ℕ
parse_digits top n [] = some n
parse_digits top n (c ∷ cs) =
    let rest = parse_digits top (n * 10 + (c - b'0')) cs in
    if leb b'0' c && leb c b'9' && leb (n * 10 + (c - b'0')) top then rest else none

-- An unsigned integer whose largest value is `top`.
unfoldable pub parse_unsigned : ℕ → List ℕ → Option ℕ
unfolding parse_digits
parse_unsigned top [] = none
parse_unsigned top (c ∷ []) = if c == b'+' then none else parse_digits top 0 (c ∷ [])
parse_unsigned top (c ∷ d ∷ cs) =
    if c == b'+' then parse_digits top 0 (d ∷ cs) else parse_digits top 0 (c ∷ d ∷ cs)

abbrev map_option : (ℕ → ℤ) → Option ℕ → Option ℤ
map_option f none = none
map_option f (some n) = some (f n)

-- A signed integer whose largest value is `top` and whose least is `-top - 1`.
unfoldable pub parse_signed : ℕ → List ℕ → Option ℤ
unfolding parse_unsigned parse_digits
parse_signed top [] = none
parse_signed top (c ∷ []) = map_option pos (parse_unsigned top (c ∷ []))
parse_signed top (c ∷ d ∷ cs) =
    if c == b'-'
    then map_option (sub_ℕ 0) (parse_digits (top + 1) 0 (d ∷ cs))
    else map_option pos (parse_unsigned top (c ∷ d ∷ cs))

-- `bool::from_str`
unfoldable pub parse_bool : List ℕ → Option Bool
parse_bool s =
    if list_beq s (bytes "true")
    then some true
    else if list_beq s (bytes "false")
    then some false
    else none

-- `NonZero` of an unsigned integer.
unfoldable pub parse_nonzero : ℕ → List ℕ → Option ℕ
unfolding parse_unsigned
parse_nonzero top s = elim (parse_unsigned top s) [
  | none ↦ none
  | some n ↦ if n == 0 then none else some n
]

-- `split` at a byte: the part up to it, and the parts after it.
unfoldable pub split : ℕ → List ℕ → List ℕ × List (List ℕ)
split c [] = ([], [])
split c (x ∷ s) =
    let (part, parts) = split c s in if x == c then ([], part ∷ parts) else (x ∷ part, parts)
