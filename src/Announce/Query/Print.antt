-- ===== src/Announce/Query/Print.antt =====
-- A query that a client writes is read back by src/announce.rs.
use unit3d_announce.Prelude.{
  ℕ, ◌≤◌, ◌≡◌, refl, Bool, true, false, not, ◌&&◌, none, some, List, [], ◌∷◌, min, arith, ◌==◌,
  if◌then◌else◌,
}
use unit3d_announce.Prelude.Bytes.{bytes, decimal}
use unit3d_announce.Prelude.Eq.{list_beq}
use unit3d_announce.Prelude.Outcome.{Outcome}
use unit3d_announce.Prelude.Parse.Decimal.{IsDigits, decimal-IsDigits, parse_unsigned-decimal}
use unit3d_announce.Prelude.Word.{u16_max, u64_max}
use unit3d_announce.Model.{Event, event_eq}
use unit3d_announce.Utils.{urlencoded_to_bytes}
use unit3d_announce.Config.{Config}
use unit3d_announce.Error.{AnnounceError}
use unit3d_announce.Error.Result.{ok}
use unit3d_announce.Announce.Query.{
  Announce, Params, no_params, event_from_str, decoded, number, set_param, from_params, from_query,
  event_or_default, numwant_of,
}
use unit3d_announce.Announce.Query.Positions.{Without}
use unit3d_announce.Announce.Query.Split.{
  Fields, render, IsPlain, ArePlain, set_params, parse_params-render,
}

-- `Event::fmt`
unfoldable pub event_to_string : Event → List ℕ
event_to_string Event.completed = bytes "completed"
event_to_string Event.empty = bytes ""
event_to_string Event.started = bytes "started"
event_to_string Event.stopped = bytes "stopped"

pub event_from_str-event_to_string : (e : Event) → event_from_str (event_to_string e) ≡ ok e
unfolding event_from_str event_to_string list_beq
event_from_str-event_to_string Event.completed = refl
event_from_str-event_to_string Event.empty = refl
event_from_str-event_to_string Event.started = refl
event_from_str-event_to_string Event.stopped = refl

-- The test of `IsPlain`.
abbrev pub is_without : ℕ → List ℕ → Bool
is_without c [] = true
is_without c (x ∷ xs) = not (x == c) && is_without c xs

abbrev pub is_plain : List ℕ → Bool
is_plain s = is_without b'=' s && is_without b'&' s

is_without-Without : (c : ℕ) (s : List ℕ) → is_without c s ≡ true → Without c s
is_without-Without c [] h = tt
is_without-Without c (x ∷ s) h = (ground arith, is_without-Without c s (ground arith))

pub is_plain-IsPlain : (s : List ℕ) → is_plain s ≡ true → IsPlain s
is_plain-IsPlain s h =
    (is_without-Without b'=' s (ground arith), is_without-Without b'&' s (ground arith))

event-IsPlain : (e : Event) → IsPlain (event_to_string e)
unfolding event_to_string
event-IsPlain Event.completed = is_plain-IsPlain (bytes "completed") refl
event-IsPlain Event.empty = is_plain-IsPlain (bytes "") refl
event-IsPlain Event.started = is_plain-IsPlain (bytes "started") refl
event-IsPlain Event.stopped = is_plain-IsPlain (bytes "stopped") refl

digits-Without :
    (c : ℕ) (s : List ℕ)
    → ((d : ℕ) → b'0' ≤ d → d ≤ b'9' → d == c ≡ false)
    → IsDigits s
    → Without c s
digits-Without c [] h digits = tt
digits-Without c (d ∷ s) h (low, high, digits) = (h d low high, digits-Without c s h digits)

decimal-IsPlain : (n : ℕ) → IsPlain (decimal n)
decimal-IsPlain n = (
  digits-Without b'=' (decimal n) (λ d low high. ground arith) (decimal-IsDigits n),
  digits-Without b'&' (decimal n) (λ d low high. ground arith) (decimal-IsDigits n),
)

-- The fields that a client sends for an announce, with the texts of its info hash and its peer id.
abbrev pub fields_of : Announce → List ℕ → List ℕ → Fields
fields_of a info_hash peer_id =
    (bytes "info_hash", info_hash)
    ∷ (bytes "peer_id", peer_id)
    ∷ (bytes "port", decimal a.port)
    ∷ (bytes "uploaded", decimal a.uploaded)
    ∷ (bytes "downloaded", decimal a.downloaded)
    ∷ (bytes "left", decimal a.left)
    ∷ (bytes "compact", bytes "1")
    ∷ (bytes "event", event_to_string a.event)
    ∷ (bytes "numwant", decimal a.numwant)
    ∷ []

-- An announce whose numbers fit in their types.
pub record Sendable (a : Announce) : Type 0 where
  pub port : a.port ≤ u16_max
  pub uploaded : a.uploaded ≤ u64_max
  pub downloaded : a.downloaded ≤ u64_max
  pub left : a.left ≤ u64_max
  pub numwant : a.numwant ≤ u64_max

abbrev pub read_of : Announce → Params
read_of a = record {
  info_hash = some a.info_hash;
  peer_id = some a.peer_id;
  port = some a.port;
  uploaded = some a.uploaded;
  downloaded = some a.downloaded;
  left = some a.left;
  event = some a.event;
  numwant = some a.numwant;
  corrupt = none;
  key = none;
}

number-decimal : (e : AnnounceError) (top n : ℕ) → n ≤ top → number e top (decimal n) ≡ ok n
unfolding number
number-decimal e top n h = rw (parse_unsigned-decimal top n h) refl

decoded_lem :
    (e : AnnounceError) (s out : List ℕ)
    → urlencoded_to_bytes s ≡ Outcome.ok out
    → decoded e s ≡ ok out
unfolding decoded
decoded_lem e s out h = rw (h, decoded) refl

set_params-fields_of :
    (a : Announce) (info_hash peer_id : List ℕ)
    → Sendable a
    → urlencoded_to_bytes info_hash ≡ Outcome.ok a.info_hash
    → urlencoded_to_bytes peer_id ≡ Outcome.ok a.peer_id
    → set_params (fields_of a info_hash peer_id) no_params ≡ ok (read_of a)
unfolding set_param list_beq
set_params-fields_of a info_hash peer_id s h i =
    rw
      (
        decoded_lem AnnounceError.invalid_info_hash info_hash a.info_hash h,
        decoded_lem AnnounceError.invalid_peer_id peer_id a.peer_id i,
        number-decimal AnnounceError.invalid_port u16_max a.port s.port,
        number-decimal AnnounceError.invalid_uploaded u64_max a.uploaded s.uploaded,
        number-decimal AnnounceError.invalid_downloaded u64_max a.downloaded s.downloaded,
        number-decimal AnnounceError.invalid_left u64_max a.left s.left,
        event_from_str-event_to_string a.event,
        number-decimal AnnounceError.invalid_numwant u64_max a.numwant s.numwant,
      )
      refl

fields_of-ArePlain :
    (a : Announce) (info_hash peer_id : List ℕ)
    → IsPlain info_hash
    → IsPlain peer_id
    → ArePlain (fields_of a info_hash peer_id)
fields_of-ArePlain a info_hash peer_id h i = (
  is_plain-IsPlain (bytes "info_hash") refl,
  h,
  (
    is_plain-IsPlain (bytes "peer_id") refl,
    i,
    (
      is_plain-IsPlain (bytes "port") refl,
      decimal-IsPlain a.port,
      (
        is_plain-IsPlain (bytes "uploaded") refl,
        decimal-IsPlain a.uploaded,
        (
          is_plain-IsPlain (bytes "downloaded") refl,
          decimal-IsPlain a.downloaded,
          (
            is_plain-IsPlain (bytes "left") refl,
            decimal-IsPlain a.left,
            (
              is_plain-IsPlain (bytes "compact") refl,
              is_plain-IsPlain (bytes "1") refl,
              (
                is_plain-IsPlain (bytes "event") refl,
                event-IsPlain a.event,
                (is_plain-IsPlain (bytes "numwant") refl, decimal-IsPlain a.numwant, tt),
              ),
            ),
          ),
        ),
      ),
    ),
  ),
)

-- What the tracker makes of an announce that is sent.
abbrev pub received : {F : Type 0} → Config F → Announce → Announce
received config a = record a {
  numwant = if event_eq a.event Event.stopped then 0 else min a.numwant config.numwant_max;
  corrupt = none;
  key = none;
}

-- An announce whose numbers fit in their types is read back from the query of its fields, where the
-- texts of the info hash and of the peer id are decoded to these and hold no equal sign and no
-- ampersand: only numwant is limited, or 0 for a stopped peer, and there is no corrupt and no key.
pub from_query-render :
    {F : Type 0} (config : Config F) (a : Announce) (info_hash peer_id : List ℕ)
    → Sendable a
    → urlencoded_to_bytes info_hash ≡ Outcome.ok a.info_hash
    → urlencoded_to_bytes peer_id ≡ Outcome.ok a.peer_id
    → IsPlain info_hash
    → IsPlain peer_id
    → from_query config (render (fields_of a info_hash peer_id)) ≡ ok (received config a)
unfolding from_query from_params numwant_of event_or_default
from_query-render config a info_hash peer_id s h i p q =
    rw
      (
        parse_params-render (fields_of a info_hash peer_id)
            (fields_of-ArePlain a info_hash peer_id p q),
        set_params-fields_of a info_hash peer_id s h i,
      )
      refl
