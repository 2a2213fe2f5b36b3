-- ===== src/Announce/Answer/Bytes.antt =====
-- The bytes that src/announce.rs answers with are bencoded.
use unit3d_announce.Prelude.{
  true, ℕ, ◌≡◌, refl, Option, none, some, List, [], ◌∷◌, ◌++◌, length, if◌then◌else◌,
}
use mathlib.Core.List.{append_assoc, append-nil}
use unit3d_announce.Prelude.Ord.{list_leb}
use unit3d_announce.Prelude.Bytes.{bytes, decimal, digits}
use unit3d_announce.Bencode.{
  Value, Fields, int, str, dict, end, field, encode, encode_str, encode_fields, has_sorted_keys,
  ascends_from,
}
use unit3d_announce.Warning.{is_empty}
use unit3d_announce.Announce.Answer.{Answer, warning_bytes, response}

-- The last entries of the dictionary: the IPv6 peers, if there are any, and the warning, if there
-- is one.
abbrev pub warning_fields : Option (List ℕ) → Fields
warning_fields none = end
warning_fields (some m) = field (bytes "warning message") (str m) end

abbrev pub peers6_fields : List ℕ → Fields → Fields
peers6_fields [] fields = fields
peers6_fields (b ∷ bs) fields = field (bytes "peers6") (str (b ∷ bs)) fields

abbrev pub described : Answer → Value
described a = dict (
    field (bytes "complete") (int a.complete) (
      field (bytes "downloaded") (int a.downloaded) (
        field (bytes "incomplete") (int a.incomplete) (
          field (bytes "interval") (int a.interval) (
            field (bytes "min interval") (int a.min_interval) (
              field (bytes "peers") (str a.peers_ipv4)
                (peers6_fields a.peers_ipv6 (warning_fields a.warning_message))))))))

ipv4_bytes :
    (p : List ℕ)
    → (if is_empty p then bytes "0:" else decimal (length p) ++ bytes ":" ++ p) ≡ encode_str p
ipv4_bytes [] = simp digits
ipv4_bytes (b ∷ bs) = simp append_assoc

ipv6_bytes :
    (p : List ℕ) (fields : Fields)
    → encode_fields (peers6_fields p fields)
      ≡ (if is_empty p then [] else bytes "6:peers6" ++ (decimal (length p) ++ bytes ":" ++ p))
        ++ encode_fields fields
unfolding encode encode_fields
ipv6_bytes [] fields = refl
ipv6_bytes (b ∷ bs) fields = simp (digits, append_assoc)

warning_entry : (w : Option (List ℕ)) → encode_fields (warning_fields w) ≡ warning_bytes w
unfolding encode encode_fields warning_bytes
warning_entry none = refl
warning_entry (some m) = simp (digits, append_assoc, append-nil)

last_keys :
    (p : List ℕ) (w : Option (List ℕ))
    → ascends_from (bytes "peers") (peers6_fields p (warning_fields w)) ≡ true
unfolding ascends_from list_leb
last_keys [] none = refl
last_keys [] (some m) = refl
last_keys (b ∷ bs) none = refl
last_keys (b ∷ bs) (some m) = refl

described-sorted : (a : Answer) → has_sorted_keys (described a) ≡ true
unfolding has_sorted_keys ascends_from list_leb
described-sorted a = last_keys a.peers_ipv6 a.warning_message

-- The answer to an announce is the bencoding of the dictionary that describes it, whose keys ascend.
pub response-encode :
    (a : Answer) → (response a ≡ encode (described a)) × (has_sorted_keys (described a) ≡ true)
unfolding response encode encode_fields
response-encode a = (
  rw (ipv4_bytes a.peers_ipv4) (simp (digits, append_assoc, ipv6_bytes, warning_entry)),
  described-sorted a,
)
