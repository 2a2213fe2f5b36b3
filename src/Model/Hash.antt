-- ===== src/Model/Hash.antt =====
-- src/model/info_hash.rs and src/model/passkey.rs: the texts of info hashes and passkeys.
pub mod RoundTrip
use unit3d_announce.Prelude.{
  ℕ, zero, suc, ◌+◌, ◌*◌, Bool, List, [], ◌∷◌, ◌++◌, length, ◌==◌, if◌then◌else◌,
}
use unit3d_announce.Prelude.Outcome.{Outcome, ok, bail, ◌>>=◌, index}
use unit3d_announce.Utils.{hex_decode, hex_encode}

-- The loop of `InfoHash::from_str`: so many bytes are still to be written, from `pos` on.
unfoldable pub parse_from : ℕ → List ℕ → ℕ → Outcome (List ℕ)
parse_from zero bytes pos = ok []
parse_from (suc n) bytes pos = do
  c0 ← index bytes (pos * 2)
  c1 ← index bytes (pos * 2 + 1)
  b ← hex_decode c0 c1
  rest ← parse_from n bytes (pos + 1)
  ok (b ∷ rest)

-- `InfoHash::from_str`
unfoldable pub info_hash_from_str : List ℕ → Outcome (List ℕ)
info_hash_from_str bytes = if length bytes == 40 then parse_from 20 bytes 0 else bail

-- The loop of `InfoHash::fmt`.
unfoldable pub print_from : ℕ → List ℕ → ℕ → Outcome (List ℕ)
print_from zero hash pos = ok []
print_from (suc n) hash pos = do
  b ← index hash pos
  (c0, c1) ← hex_encode b
  rest ← print_from n hash (pos + 1)
  ok (c0 ∷ c1 ∷ rest)

-- `InfoHash::fmt`
unfoldable pub info_hash_to_string : List ℕ → Outcome (List ℕ)
info_hash_to_string hash = print_from 20 hash 0

-- The array of `Passkey::from_str`: `bytes.next().unwrap()`, so many times.
unfoldable pub next_bytes : ℕ → List ℕ → Outcome (List ℕ)
next_bytes zero bytes = ok []
next_bytes (suc n) [] = Outcome.panic
next_bytes (suc n) (b ∷ bytes) = do rest ← next_bytes n bytes; ok (b ∷ rest)

-- `Passkey::from_str`
unfoldable pub passkey_from_str : List ℕ → Outcome (List ℕ)
passkey_from_str bytes = if length bytes == 32 then next_bytes 32 bytes else bail
