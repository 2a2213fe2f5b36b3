-- ===== src/Utils.antt =====
-- src/utils.rs: hex digits and the percent-decoding of `info_hash` and `peer_id`.
pub mod Hex
pub mod Url
use unit3d_announce.Prelude.{
  ℕ, zero, suc, ◌+◌, ◌-◌, ◌*◌, ◌/◌, ◌%◌, Bool, ◌&&◌, Option, none, some, List, [], ◌∷◌, leb, ◌==◌,
  length, if◌then◌else◌,
}
use unit3d_announce.Prelude.Outcome.{Outcome, ok, bail, ◌>>=◌, index, expect}

abbrev pub between : ℕ → ℕ → ℕ → Bool
between lo hi c = leb lo c && leb c hi

-- The first `match` of `hex_decode`: the high digit, shifted in a `u8`.
unfoldable pub hex_high : ℕ → Outcome ℕ
hex_high c =
    if between b'0' b'9' c
    then ok ((c - b'0') * 16 % 256)
    else if between b'a' b'f' c
    then ok ((c - b'a' + 0xA) * 16 % 256)
    else if between b'A' b'F' c
    then ok ((c - b'A' + 0xA) * 16 % 256)
    else bail

-- The second `match` of `hex_decode`: the low digit.
unfoldable pub hex_low : ℕ → Outcome ℕ
hex_low c =
    if between b'0' b'9' c
    then ok (c - b'0')
    else if between b'a' b'f' c
    then ok (c - b'a' + 0xA)
    else if between b'A' b'F' c
    then ok (c - b'A' + 0xA)
    else bail

unfoldable pub hex_decode : ℕ → ℕ → Outcome ℕ
unfolding hex_high hex_low
hex_decode c0 c1 = do high ← hex_high c0; low ← hex_low c1; ok ((high + low) % 256)

-- One half of `hex_encode`; `none` is its `unreachable!()`.
unfoldable pub hex_digit : ℕ → Option ℕ
hex_digit d =
    if between 0x0 0x9 d
    then some ((d + b'0') % 256)
    else if between 0xA 0xF d
    then some ((d - 0xA + b'A') % 256)
    else none

unfoldable pub hex_encode : ℕ → Outcome (ℕ × ℕ)
unfolding hex_digit
hex_encode char = do
  high ← expect (hex_digit (char / 16))
  low ← expect (hex_digit (char % 16))
  ok (high, low)

-- `memchr_iter(b'%', input).count()`
unfoldable pub percent_sign_count : List ℕ → ℕ
percent_sign_count [] = 0
percent_sign_count (b ∷ bs) =
    if b == b'%' then suc (percent_sign_count bs) else percent_sign_count bs

-- The body of the loop over the output bytes: the byte, and the next position in the input.
unfoldable pub read_byte : List ℕ → ℕ → Outcome (ℕ × ℕ)
read_byte input in_pos = do
  byte ← index input in_pos
  if byte == b'%'
      then (do
        c0 ← index input (in_pos + 1)
        c1 ← index input (in_pos + 2)
        out ← hex_decode c0 c1
        ok (out, in_pos + 3))
      else ok (byte, in_pos + 1)

-- The loop: so many output bytes are still to be written.
unfoldable pub read_bytes : ℕ → List ℕ → ℕ → Outcome (List ℕ)
unfolding read_byte
read_bytes zero input in_pos = ok []
read_bytes (suc n) input in_pos = do
  (out, next) ← read_byte input in_pos
  rest ← read_bytes n input next
  ok (out ∷ rest)

unfoldable pub urlencoded_to_bytes : List ℕ → Outcome (List ℕ)
urlencoded_to_bytes input =
    if length input == 20 + 2 * percent_sign_count input then read_bytes 20 input 0 else bail
