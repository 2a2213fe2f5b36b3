-- ===== src/Prelude/Word.antt =====
-- Fixed-width integers of Rust: saturating operations, and the signed ones over ℤ.
use unit3d_announce.Prelude.{ℕ, suc, ◌+◌, ◌-◌, ◌*◌, ◌%◌, Bool, leb, if◌then◌else◌}
use unit3d_announce.Prelude.Int.{ℤ, pos, negsuc, ltb_ℤ, ◌+ℤ◌, ◌-ℤ◌}

abbrev pub u8_max : ℕ
u8_max = 255

abbrev pub u16_max : ℕ
u16_max = 65535

abbrev pub u32_max : ℕ
u32_max = 4294967295

abbrev pub u64_max : ℕ
u64_max = 18446744073709551615

abbrev pub i64_max : ℕ
i64_max = 9223372036854775807

abbrev pub i32_max : ℕ
i32_max = 2147483647

-- `a * b` of a `u64` or a `usize`, which wraps.
unfoldable pub wrapping_mul : ℕ → ℕ → ℕ
wrapping_mul a b = a * b % (u64_max + 1)

-- `a -= 1` of an `i32`, which wraps.
unfoldable pub wrapping_decrement : ℤ → ℤ
unfolding ◌-ℤ◌
wrapping_decrement a = if ltb_ℤ (negsuc i32_max) a then a -ℤ pos 1 else pos i32_max

-- `b as i32`, `b as u32`
abbrev pub of_bool : Bool → ℕ
of_bool b = if b then 1 else 0

-- `a.saturating_add(b)` of an unsigned type whose largest value is `top`.
unfoldable pub saturating_add : ℕ → ℕ → ℕ → ℕ
saturating_add top a b = if leb (a + b) top then a + b else top

-- `a.saturating_add_signed(d)` of an unsigned type whose largest value is `top`.
unfoldable pub saturating_add_signed : ℕ → ℕ → ℤ → ℕ
unfolding saturating_add
saturating_add_signed top a (pos d) = saturating_add top a d
saturating_add_signed top a (negsuc d) = a - suc d

-- `a.saturating_add(b)` of a signed type with the largest value `top` and the least `-top - 1`.
unfoldable pub saturating_add_ℤ : ℕ → ℤ → ℤ → ℤ
unfolding ◌+ℤ◌
saturating_add_ℤ top a b =
    if ltb_ℤ (pos top) (a +ℤ b)
    then pos top
    else if ltb_ℤ (a +ℤ b) (negsuc top)
    then negsuc top
    else a +ℤ b
