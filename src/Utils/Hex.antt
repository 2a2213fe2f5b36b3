-- ===== src/Utils/Hex.antt =====
-- The hex digits of src/utils.rs: every byte is encoded, and decoding gives it back.
use unit3d_announce.Prelude.{
  ℕ, ap, ◌+◌, ◌-◌, ◌*◌, ◌%◌, ◌≤◌, ◌<◌, ◌≡◌, ◌≢◌, ◌⊎◌, inl, inr, Bool-cases, arith,
}
use unit3d_announce.Prelude.Outcome.{ok, panic, >>=-eq-ok, ◌>>=◌}
use unit3d_announce.Utils.{between, hex_high, hex_low, hex_decode, hex_encode}

-- For every byte, `hex_encode` reaches no `unreachable!()`, and `hex_decode` gives the byte back.
pub hex_decode-hex_encode : (b : ℕ) → b < 256 → (hex_encode b >>= λ d. hex_decode d.0 d.1) ≡ ok b
unfolding hex_decode hex_encode
hex_decode-hex_encode b h = ground arith

pub hex_decode-lt : (c0 c1 : ℕ) {b : ℕ} → hex_decode c0 c1 ≡ ok b → b < 256
unfolding hex_decode
hex_decode-lt c0 c1 h = ground arith

pub hex_decode-ne-panic : (c0 c1 : ℕ) → hex_decode c0 c1 ≢ panic
unfolding hex_decode
hex_decode-ne-panic c0 c1 h = ground arith

-- A digit is no percent sign.
pub hex_decode-digits : (c0 c1 : ℕ) {b : ℕ} → hex_decode c0 c1 ≡ ok b → (c0 ≢ b'%') × (c1 ≢ b'%')
unfolding hex_decode
hex_decode-digits c0 c1 h = ground arith

-- `IsDigit c d`: the byte `c` is a hex digit with the value `d`, from 0 to 9, a to f or A to F.
abbrev pub IsDigit : ℕ → ℕ → Type 0
IsDigit c d =
    ((d ≤ 9) × (c ≡ b'0' + d))
    ⊎ (((10 ≤ d) × (d ≤ 15) × (c + 10 ≡ b'a' + d)) ⊎ ((10 ≤ d) × (d ≤ 15) × (c + 10 ≡ b'A' + d)))

hex_high-eq-ok : (c : ℕ) {b : ℕ} → hex_high c ≡ ok b → (d : ℕ) × IsDigit c d × (b ≡ 16 * d)
unfolding hex_high
hex_high-eq-ok c {b} h = elim (Bool-cases (between b'0' b'9' c)) [
  | inl decimal ↦ (c - b'0', inl (ground arith, ground arith), ground arith)
  | inr other ↦ elim (Bool-cases (between b'a' b'f' c)) [
    | inl lower ↦ (c - b'a' + 10, inr (inl (omega arith, ground arith, ground arith)), ground arith)
    | inr neither ↦ elim (Bool-cases (between b'A' b'F' c)) [
      | inl upper ↦
          (c - b'A' + 10, inr (inr (omega arith, ground arith, ground arith)), ground arith)
      | inr none_left ↦ absurd (ground arith)
    ]
  ]
]

hex_low-eq-ok : (c : ℕ) {b : ℕ} → hex_low c ≡ ok b → IsDigit c b
unfolding hex_low
hex_low-eq-ok c {b} h = elim (Bool-cases (between b'0' b'9' c)) [
  | inl decimal ↦ inl (ground arith, ground arith)
  | inr other ↦ elim (Bool-cases (between b'a' b'f' c)) [
    | inl lower ↦ inr (inl (ground arith, ground arith, ground arith))
    | inr neither ↦ elim (Bool-cases (between b'A' b'F' c)) [
      | inl upper ↦ inr (inr (ground arith, ground arith, ground arith))
      | inr none_left ↦ absurd (ground arith)
    ]
  ]
]

hex_high-IsDigit : (c d : ℕ) → IsDigit c d → hex_high c ≡ ok (16 * d)
unfolding hex_high
hex_high-IsDigit c d h = ground arith

hex_low-IsDigit : (c d : ℕ) → IsDigit c d → hex_low c ≡ ok d
unfolding hex_low
hex_low-IsDigit c d h = ground arith

digit-bound : (c d : ℕ) → IsDigit c d → d ≤ 15
digit-bound c d h = ground arith

-- Two bytes are decoded exactly where they are hex digits, and to the number that they write.
pub hex_decode-IsDigit :
    (c0 c1 d0 d1 : ℕ) → IsDigit c0 d0 → IsDigit c1 d1 → hex_decode c0 c1 ≡ ok (16 * d0 + d1)
unfolding hex_decode
hex_decode-IsDigit c0 c1 d0 d1 h0 h1 =
    let b0 = digit-bound c0 d0 h0 in
    let b1 = digit-bound c1 d1 h1 in
    rw (hex_high-IsDigit c0 d0 h0, hex_low-IsDigit c1 d1 h1) (ap ok (omega arith))

pub hex_decode-eq-ok :
    (c0 c1 : ℕ) {b : ℕ}
    → hex_decode c0 c1 ≡ ok b
    → (d0 : ℕ) × (d1 : ℕ) × IsDigit c0 d0 × IsDigit c1 d1 × (b ≡ 16 * d0 + d1)
unfolding hex_decode
hex_decode-eq-ok c0 c1 {b} h =
    let (high, p, next) =
      >>=-eq-ok (hex_high c0) (λ high. hex_low c1 >>= λ low. ok ((high + low) % 256)) h in
    let (low, q, last) = >>=-eq-ok (hex_low c1) (λ low. ok ((high + low) % 256)) next in
    let (d0, digit0, e) = hex_high-eq-ok c0 p in
    let digit1 = hex_low-eq-ok c1 q in
    let b0 = digit-bound c0 d0 digit0 in
    let b1 = digit-bound c1 low digit1 in
    let value : (high + low) % 256 ≡ b = ground arith in
    (d0, low, digit0, digit1, omega (arith, value, e, b0, b1))
