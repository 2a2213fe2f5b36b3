-- ===== src/Error/Response.antt =====
-- The responses of src/error.rs are bencoded dictionaries.
use unit3d_announce.Prelude.{ℕ, ◌≡◌, [], Bool-cases, inl, inr, if◌then◌else◌}
use mathlib.Core.List.{append_assoc}
use unit3d_announce.Prelude.Bytes.{bytes, digits}
use unit3d_announce.Bencode.{Value, int, str, dict, end, field, encode, encode_fields}
use unit3d_announce.Error.{
  AnnounceError, to_string, is_critical_warning, is_in_moderation, into_response,
}

-- The seconds that the client is told to wait.
abbrev pub interval : AnnounceError → ℕ
interval e = if is_in_moderation e then 30 else 5400

-- What the response says: a warning beside an empty peer list, or a failure.
abbrev pub described : AnnounceError → Value
described e =
    if is_critical_warning e
    then dict (
        field (bytes "complete") (int 0) (
          field (bytes "downloaded") (int 0) (
            field (bytes "incomplete") (int 0) (
              field (bytes "interval") (int (interval e)) (
                field (bytes "min interval") (int (interval e)) (
                  field (bytes "peers") (str [])
                    (field (bytes "warning message") (str (to_string e)) end)))))))
    else dict (
        field (bytes "failure reason") (str (to_string e)) (
          field (bytes "interval") (int (interval e))
            (field (bytes "min interval") (int (interval e)) end)))

-- The response to every error is the bencoding of the dictionary that describes it.
pub into_response-encode : (e : AnnounceError) → into_response e ≡ encode (described e)
unfolding into_response encode encode_fields
into_response-encode e = elim (Bool-cases (is_critical_warning e)) [
  | inl w ↦ elim (Bool-cases (is_in_moderation e)) [
    | inl m ↦ rw (w, m) (simp (digits, append_assoc))
    | inr m ↦ rw (w, m) (simp (digits, append_assoc))
  ]
  | inr w ↦ elim (Bool-cases (is_in_moderation e)) [
    | inl m ↦ rw (w, m) (simp (digits, append_assoc))
    | inr m ↦ rw (w, m) (simp (digits, append_assoc))
  ]
]
