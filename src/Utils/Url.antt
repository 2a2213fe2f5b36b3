-- ===== src/Utils/Url.antt =====
-- What `urlencoded_to_bytes` of src/utils.rs accepts, and that it never reads out of bounds.
use native.Mathlib.Numerals.{add-one, towards_suc}
use unit3d_announce.Prelude.{
  ℕ, zero, suc, ◌+◌, ◌*◌, ◌≡◌, refl, ap, ◌≢◌, ◌↔◌, inl, inr, false, List, [], ◌∷◌, ◌++◌, arith,
  ◌==◌, ==_iff, length, length-append, drop, drop-cons, Bool-cases,
}
use unit3d_announce.Prelude.Outcome.{Outcome, ok, bail, panic, ◌>>=◌}
use unit3d_announce.Utils.{
  hex_decode, percent_sign_count, read_byte, read_bytes, urlencoded_to_bytes,
}
use unit3d_announce.Utils.Hex.{
  IsDigit, hex_decode-IsDigit, hex_decode-eq-ok, hex_decode-ne-panic, hex_decode-digits,
}

-- `Encodes out pre`: the text `pre` is a percent-encoding of the bytes `out`: each is written as
-- itself or as a percent sign and its two hex digits.
pub data Encodes : List ℕ → List ℕ → Type 0 where
  done : Encodes [] []
  plain : {out pre : List ℕ} (b : ℕ) → b ≢ b'%' → Encodes out pre → Encodes (b ∷ out) (b ∷ pre)
  escaped :
      {out pre : List ℕ} (c0 c1 d0 d1 : ℕ) {b : ℕ}
      → IsDigit c0 d0
      → IsDigit c1 d1
      → b ≡ 16 * d0 + d1
      → Encodes out pre
      → Encodes (b ∷ out) (b'%' ∷ c0 ∷ c1 ∷ pre)

count-Encodes :
    {out pre : List ℕ} → Encodes out pre → length pre ≡ length out + 2 * percent_sign_count pre
unfolding percent_sign_count
count-Encodes done = refl
count-Encodes (plain b ne e) = ground (arith, count-Encodes e)
count-Encodes (escaped c0 c1 d0 d1 h0 h1 v e) =
    ground (arith, count-Encodes e, hex_decode-digits c0 c1 (hex_decode-IsDigit c0 c1 d0 d1 h0 h1))

count-append :
    (xs ys : List ℕ) → percent_sign_count (xs ++ ys) ≡ percent_sign_count xs + percent_sign_count ys
unfolding percent_sign_count
count-append [] ys = omega arith
count-append (x ∷ xs) ys = ground (arith, count-append xs ys)

-- One round of the loop, by what stands at its position.
read_byte_plain :
    (input : List ℕ) (pos b : ℕ) (rest : List ℕ)
    → drop pos input ≡ b ∷ rest
    → b ≢ b'%'
    → (read_byte input pos ≡ ok (b, pos + 1)) × (drop (pos + 1) input ≡ rest)
unfolding read_byte
read_byte_plain input pos b rest h ne = rw add-one (ground (arith, drop-cons input pos h))

read_byte_escaped :
    (input : List ℕ) (pos c0 c1 : ℕ) (rest : List ℕ)
    → drop pos input ≡ b'%' ∷ c0 ∷ c1 ∷ rest
    → (read_byte input pos ≡ (hex_decode c0 c1 >>= λ b. ok (b, pos + 3)))
      × (drop (pos + 3) input ≡ rest)
unfolding read_byte
read_byte_escaped input pos c0 c1 rest h =
    let (e0, d0) = drop-cons input pos h in
    let (e1, d1) = drop-cons input (suc pos) d0 in
    let (e2, d2) = drop-cons input (suc (suc pos)) d1 in simp towards_suc ((ground arith, d2))

-- Where `n` bytes are still to be written and the rest of the input has the length that the check
-- at the start asks for, the loop does not panic, and what it returns is encoded by what it read.
Decodes : ℕ → List ℕ → Outcome (List ℕ) → Type 0
Decodes n rest (ok out) =
    (pre tail : List ℕ) × (rest ≡ pre ++ tail)
    × Encodes out pre
    × (length out ≡ n)
    × (length tail ≡ 2 * percent_sign_count tail)
Decodes n rest bail = Unit
Decodes n rest panic = ⊥

Decodes-plain :
    (n b : ℕ) (rest : List ℕ) (r : Outcome (List ℕ))
    → b ≢ b'%'
    → Decodes n rest r
    → Decodes (suc n) (b ∷ rest) (r >>= λ out. ok (b ∷ out))
unfolding Decodes
Decodes-plain n b rest (ok out) ne (pre, tail, e, enc, len, odd) =
    (b ∷ pre, tail, ap (◌∷◌ b) e, plain b ne enc, ap suc len, odd)
Decodes-plain n b rest bail ne d = tt
Decodes-plain n b rest panic ne d = d

Decodes-escaped :
    (n c0 c1 : ℕ) {b : ℕ} (rest : List ℕ) (r : Outcome (List ℕ))
    → hex_decode c0 c1 ≡ ok b
    → Decodes n rest r
    → Decodes (suc n) (b'%' ∷ c0 ∷ c1 ∷ rest) (r >>= λ out. ok (b ∷ out))
unfolding Decodes
Decodes-escaped n c0 c1 rest (ok out) h (pre, tail, e, enc, len, odd) =
    let (d0, d1, h0, h1, v) = hex_decode-eq-ok c0 c1 h in
    (
      b'%' ∷ c0 ∷ c1 ∷ pre,
      tail,
      ap (λ r. b'%' ∷ c0 ∷ c1 ∷ r) e,
      escaped c0 c1 d0 d1 h0 h1 v enc,
      ap suc len,
      odd,
    )
Decodes-escaped n c0 c1 rest bail h d = tt
Decodes-escaped n c0 c1 rest panic h d = d

-- The two digits after a percent sign.
escape-Decodes :
    (n : ℕ) (input : List ℕ) (pos c0 c1 : ℕ) (rest : List ℕ) (digits : Outcome ℕ)
    → hex_decode c0 c1 ≡ digits
    → ((b : ℕ) → hex_decode c0 c1 ≡ ok b → Decodes n rest (read_bytes n input (pos + 3)))
    → Decodes (suc n) (b'%' ∷ c0 ∷ c1 ∷ rest) (
        ◌>>=◌ {B = ℕ × ℕ} digits (λ b. ok (b, pos + 3)) >>= λ x.
        read_bytes n input x.1 >>= λ out. ok (x.0 ∷ out))
unfolding Decodes
escape-Decodes n input pos c0 c1 rest (ok b) h ih = Decodes-escaped n c0 c1 rest _ h (ih b h)
escape-Decodes n input pos c0 c1 rest bail h ih = tt
escape-Decodes n input pos c0 c1 rest panic h ih = hex_decode-ne-panic c0 c1 h

-- The loop from a position on, for any input that is left there.
Continues : ℕ → List ℕ → Type 0
Continues n input =
    (pos : ℕ) (rest : List ℕ)
    → drop pos input ≡ rest
    → length rest ≡ n + 2 * percent_sign_count rest
    → Decodes n rest (read_bytes n input pos)

module _ (n : ℕ) (input : List ℕ) (ih : Continues n input) (pos : ℕ) where
  step_plain :
      (b : ℕ) (rest : List ℕ)
      → drop pos input ≡ b ∷ rest
      → length (b ∷ rest) ≡ suc n + 2 * percent_sign_count (b ∷ rest)
      → b == b'%' ≡ false
      → Decodes (suc n) (b ∷ rest) (read_bytes (suc n) input pos)
  unfolding read_bytes percent_sign_count Continues
  step_plain b rest d len ne =
      let ne' : b ≢ b'%' = ground arith in
      let (r, d') = read_byte_plain input pos b rest d ne' in
      rw r (Decodes-plain n b rest _ ne' (ih (pos + 1) rest d' (ground arith)))

  step_escaped :
      (b c0 c1 : ℕ) (rest : List ℕ)
      → drop pos input ≡ b ∷ c0 ∷ c1 ∷ rest
      → length (b ∷ c0 ∷ c1 ∷ rest) ≡ suc n + 2 * percent_sign_count (b ∷ c0 ∷ c1 ∷ rest)
      → b ≡ b'%'
      → Decodes (suc n) (b ∷ c0 ∷ c1 ∷ rest) (read_bytes (suc n) input pos)
  unfolding read_bytes percent_sign_count Continues
  step_escaped b c0 c1 rest d len e =
      let (r, d') = read_byte_escaped input pos c0 c1 rest (rw (← e) d) in
      rw (r, e)
        (escape-Decodes n input pos c0 c1 rest (hex_decode c0 c1) refl
          λ v h. ih (pos + 3) rest d' (ground (arith, hex_decode-digits c0 c1 h)))

  step :
      (rest : List ℕ)
      → drop pos input ≡ rest
      → length rest ≡ suc n + 2 * percent_sign_count rest
      → Decodes (suc n) rest (read_bytes (suc n) input pos)
  unfolding percent_sign_count
  step [] d len = absurd (omega arith)
  step (b ∷ []) d len = elim (Bool-cases (b == b'%')) [
    | inr ne ↦ step_plain b [] d len ne
    | inl e ↦ absurd (ground arith)
  ]
  step (b ∷ c0 ∷ []) d len = elim (Bool-cases (b == b'%')) [
    | inr ne ↦ step_plain b (c0 ∷ []) d len ne
    | inl e ↦ absurd (ground arith)
  ]
  step (b ∷ c0 ∷ c1 ∷ rest) d len = elim (Bool-cases (b == b'%')) [
    | inr ne ↦ step_plain b (c0 ∷ c1 ∷ rest) d len ne
    | inl e ↦ step_escaped b c0 c1 rest d len (ground arith)
  ]

read_bytes-Decodes : (n : ℕ) (input : List ℕ) → Continues n input
unfolding read_bytes Decodes Continues
read_bytes-Decodes zero input pos rest d len = ([], rest, refl, done, refl, omega arith)
read_bytes-Decodes (suc n) input pos rest d len =
    step n input (read_bytes-Decodes n input) pos rest d len

read_bytes-Encodes :
    (input : List ℕ) (pos : ℕ) {out pre : List ℕ} (tail : List ℕ)
    → drop pos input ≡ pre ++ tail
    → Encodes out pre
    → read_bytes (length out) input pos ≡ ok out
unfolding read_bytes
read_bytes-Encodes input pos tail d done = refl
read_bytes-Encodes input pos tail d (plain {out} {pre} b ne e) =
    let (r, d') = read_byte_plain input pos b (pre ++ tail) d ne in
    rw (r, read_bytes-Encodes input (pos + 1) tail d' e)
read_bytes-Encodes input pos tail d (escaped {out} {pre} c0 c1 d0 d1 h0 h1 v e) =
    let h = hex_decode-IsDigit c0 c1 d0 d1 h0 h1 in
    let (r, d') = read_byte_escaped input pos c0 c1 (pre ++ tail) d in
    rw (r, h, v, read_bytes-Encodes input (pos + 3) tail d' e)

-- A percent-encoding of 20 bytes, and a tail that has two bytes for each of its percent signs.
abbrev pub Accepts : List ℕ → List ℕ → Type 0
Accepts input out =
    (pre tail : List ℕ) × (input ≡ pre ++ tail)
    × Encodes out pre
    × (length out ≡ 20)
    × (length tail ≡ 2 * percent_sign_count tail)

sound :
    (input out : List ℕ) (r : Outcome (List ℕ))
    → read_bytes 20 input 0 ≡ r
    → Decodes 20 input r
    → r ≡ ok out
    → Accepts input out
unfolding Decodes
sound input out (ok o) e d h = let p : o ≡ out = ground arith in rw p at d
sound input out bail e d h = absurd (ground arith)
sound input out panic e d h = absurd d

fits :
    (input : List ℕ)
    → length input ≡ 20 + 2 * percent_sign_count input
    → Decodes 20 input (read_bytes 20 input 0)
unfolding Continues
fits input h = read_bytes-Decodes 20 input 0 input refl h

fits_length :
    (input out : List ℕ) → Accepts input out → length input ≡ 20 + 2 * percent_sign_count input
fits_length input out (pre, tail, e, enc, len, odd) =
    rw e (omega (arith, len, odd, length-append pre tail, count-append pre tail, count-Encodes enc))

-- `urlencoded_to_bytes` returns `out` exactly when the input is a percent-encoding of `out`, which
-- is 20 bytes long, before a tail that has two bytes for each of its percent signs.
pub urlencoded_to_bytes_iff :
    (input out : List ℕ) → (urlencoded_to_bytes input ≡ ok out) ↔ Accepts input out
unfolding urlencoded_to_bytes
urlencoded_to_bytes_iff input out = (
  λ h. elim (Bool-cases (length input == 20 + 2 * percent_sign_count input)) [
    | inl e ↦ sound input out _ refl (fits input (ground arith)) (rw (e, urlencoded_to_bytes) at h)
    | inr e ↦ absurd (ground arith)
  ],
  λ (pre, tail, e, enc, len, odd).
      let fit = fits_length input out (pre, tail, e, enc, len, odd) in
      let read = read_bytes-Encodes input 0 tail e enc in rw ((==_iff _ _).1 fit) (rw len at read),
)

Decodes-ne-panic : (n : ℕ) (rest : List ℕ) (r : Outcome (List ℕ)) → Decodes n rest r → r ≢ panic
unfolding Decodes
Decodes-ne-panic n rest (ok out) d h = ground arith
Decodes-ne-panic n rest bail d h = ground arith
Decodes-ne-panic n rest panic d h = d

-- No input makes `urlencoded_to_bytes` index out of bounds.
pub urlencoded_to_bytes-ne-panic : (input : List ℕ) → urlencoded_to_bytes input ≢ panic
unfolding urlencoded_to_bytes
urlencoded_to_bytes-ne-panic input h =
    ground (arith, fits input, Decodes-ne-panic 20 input (read_bytes 20 input 0))
