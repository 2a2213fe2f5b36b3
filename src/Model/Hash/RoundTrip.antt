-- ===== src/Model/Hash/RoundTrip.antt =====
-- Info hashes are read back from their text, and passkeys from theirs.
use native.Mathlib.Numerals.{add-one}
use unit3d_announce.Prelude.{
  ℕ, suc, ◌+◌, ◌*◌, ◌≡◌, ◌<◌, refl, List, [], ◌∷◌, length, arith, ==_iff, ◌==◌, if◌then◌else◌,
  Bool-cases, inl, inr, drop, drop-cons,
}
use unit3d_announce.Prelude.Outcome.{ok, bail, ◌>>=◌, >>=-eq-ok}
use unit3d_announce.Utils.{hex_decode, hex_encode}
use unit3d_announce.Utils.Hex.{hex_decode-hex_encode}
use unit3d_announce.Model.Hash.{
  parse_from, info_hash_from_str, print_from, info_hash_to_string, next_bytes, passkey_from_str,
}

abbrev pub AllBytes : List ℕ → Type 0
AllBytes [] = Unit {0}
AllBytes (b ∷ bs) = (b < 256) × AllBytes bs

next_bytes_all : (bytes : List ℕ) → next_bytes (length bytes) bytes ≡ ok bytes
unfolding next_bytes
next_bytes_all [] = refl
next_bytes_all (b ∷ bytes) = rw (next_bytes_all bytes)

-- `Passkey::from_str` never panics: it keeps a text of 32 bytes as it is, and refuses every other.
pub passkey_from_str_lem :
    (bytes : List ℕ) → passkey_from_str bytes ≡ (if length bytes == 32 then ok bytes else bail)
unfolding passkey_from_str
passkey_from_str_lem bytes = elim (Bool-cases (length bytes == 32)) [
  | inl e ↦
      let whole : next_bytes 32 bytes ≡ ok bytes =
        rw ((==_iff _ _).0 e) at (next_bytes_all bytes) in
      rw e whole
  | inr e ↦ rw e
]

-- `Printed hash text`: the text has the two digits of each byte.
Printed : List ℕ → List ℕ → Type 0
Printed [] [] = Unit {0}
Printed [] (c ∷ t) = ⊥
Printed (b ∷ bs) [] = ⊥
Printed (b ∷ bs) (c ∷ []) = ⊥
Printed (b ∷ bs) (c0 ∷ c1 ∷ t) = (hex_encode b ≡ ok (c0, c1)) × Printed bs t

hex_encode-total : (b : ℕ) → b < 256 → (c0 c1 : ℕ) × (hex_encode b ≡ ok (c0, c1))
hex_encode-total b h =
    let ((c0, c1), e, _) =
      >>=-eq-ok (hex_encode b) (λ d. hex_decode d.0 d.1) (hex_decode-hex_encode b h) in
    (c0, c1, e)

print_from-Printed :
    (rest : List ℕ) (hash : List ℕ) (pos : ℕ)
    → drop pos hash ≡ rest
    → AllBytes rest
    → (t : List ℕ) × (print_from (length rest) hash pos ≡ ok t) × Printed rest t
unfolding print_from Printed
print_from-Printed [] hash pos d all = ([], refl, tt)
print_from-Printed (b ∷ rest) hash pos d all =
    let (e, d') = drop-cons hash pos d in
    let (c0, c1, enc) = hex_encode-total b all.0 in
    let (t, p, printed) = print_from-Printed rest hash (suc pos) d' all.1 in
    (c0 ∷ c1 ∷ t, rw (e, enc, add-one, p), (enc, printed))

parse_from-Printed :
    (hash text : List ℕ) (bytes : List ℕ) (pos : ℕ)
    → drop (pos * 2) bytes ≡ text
    → AllBytes hash
    → Printed hash text
    → parse_from (length hash) bytes pos ≡ ok hash
unfolding parse_from Printed
parse_from-Printed [] text bytes pos d all printed = refl
parse_from-Printed (b ∷ hash) (c0 ∷ c1 ∷ text) bytes pos d all printed =
    let (e0, d0) = drop-cons bytes (pos * 2) d in
    let (e1, d1) = drop-cons bytes (suc (pos * 2)) d0 in
    let dec : hex_decode c0 c1 ≡ ok b = rw printed.0 at (hex_decode-hex_encode b all.0) in
    let next : suc (suc (pos * 2)) ≡ (pos + 1) * 2 = omega arith in
    let ih = parse_from-Printed hash text bytes (pos + 1) (rw next at d1) all.1 printed.1 in
    rw (add-one (pos * 2), e0, e1, dec, ih)
parse_from-Printed (b ∷ hash) [] bytes pos d all printed = absurd printed
parse_from-Printed (b ∷ hash) (c ∷ []) bytes pos d all printed = absurd printed

length-Printed : (hash text : List ℕ) → Printed hash text → length text ≡ 2 * length hash
unfolding Printed
length-Printed [] [] p = refl
length-Printed [] (c ∷ t) p = absurd p
length-Printed (b ∷ hash) [] p = absurd p
length-Printed (b ∷ hash) (c ∷ []) p = absurd p
length-Printed (b ∷ hash) (c0 ∷ c1 ∷ t) p = omega (arith, length-Printed hash t p.1)

-- Every info hash, 20 bytes, is printed without a panic, and `from_str` reads its text back.
pub from_str-to_string :
    (hash : List ℕ)
    → length hash ≡ 20
    → AllBytes hash
    → (info_hash_to_string hash >>= info_hash_from_str) ≡ ok hash
unfolding info_hash_to_string info_hash_from_str
from_str-to_string hash len all =
    let (t, p, printed) = print_from-Printed hash hash 0 refl all in
    let p' : print_from 20 hash 0 ≡ ok t = rw len at p in
    let l : length t ≡ 40 = omega (arith, length-Printed hash t printed) in
    rw (p', (==_iff _ _).1 l) (rw len at (parse_from-Printed hash t t 0 refl all printed))
