-- ===== src/Bencode.antt =====
-- Bencoding, as the BitTorrent specification states it: the independent description of what the
-- tracker writes byte by byte.
use unit3d_announce.Prelude.{Bool, true, not, ◌&&◌, ℕ, List, [], ◌∷◌, ◌++◌, length}
use unit3d_announce.Prelude.Ord.{list_leb}
use unit3d_announce.Prelude.Bytes.{decimal}

mutual
  pub data Value : Type 0 where
    int : ℕ → Value
    str : List ℕ → Value
    dict : Fields → Value

  pub data Fields : Type 0 where
    end : Fields
    field : List ℕ → Value → Fields → Fields

abbrev pub encode_str : List ℕ → List ℕ
encode_str s = decimal (length s) ++ b':' ∷ s

unfoldable mutual
  pub encode : Value → List ℕ
  encode (int n) = b'i' ∷ decimal n ++ b'e' ∷ []
  encode (str s) = encode_str s
  encode (dict fs) = b'd' ∷ encode_fields fs ++ b'e' ∷ []

  pub encode_fields : Fields → List ℕ
  encode_fields end = []
  encode_fields (field k v fs) = encode_str k ++ encode v ++ encode_fields fs

-- The keys of a dictionary ascend, from a first one on.
unfoldable pub ascends_from : List ℕ → Fields → Bool
ascends_from k end = true
ascends_from k (field j v fs) = not (list_leb j k) && ascends_from j fs

-- The specification asks for ascending keys.
unfoldable pub has_sorted_keys : Value → Bool
unfolding ascends_from
has_sorted_keys (dict (field k v fs)) = ascends_from k fs
has_sorted_keys _ = true
