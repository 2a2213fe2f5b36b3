-- ===== src/Announce/Query.antt =====
-- The query of an announce: `Announce`, and its `FromRequestParts`, in src/announce.rs.
pub mod Positions
pub mod Split
pub mod Print
pub mod Bounds
pub mod Total
use unit3d_announce.Prelude.{
  ℕ, ◌+◌, ◌-◌, Bool, true, false, ◌&&◌, ◌||◌, not, Option, none, some, List, [], ◌∷◌, length, take,
  drop, min, leb, ◌==◌, if◌then◌else◌,
}
use unit3d_announce.Prelude.Bytes.{bytes}
use unit3d_announce.Prelude.Eq.{list_beq}
use unit3d_announce.Prelude.Parse.{parse_unsigned}
use unit3d_announce.Prelude.Outcome.{Outcome}
use unit3d_announce.Prelude.Word.{u16_max, u64_max}
use unit3d_announce.Model.{Event, event_eq}
use unit3d_announce.Utils.{urlencoded_to_bytes}
use unit3d_announce.Config.{Config}
use unit3d_announce.Error.{AnnounceError}
use unit3d_announce.Error.Result.{Result, ok, err, panic, ◌>>=◌, ok_or}

pub record Announce : Type 0 where
  pub info_hash : List ℕ
  pub peer_id : List ℕ
  pub port : ℕ
  pub uploaded : ℕ
  pub downloaded : ℕ
  pub left : ℕ
  pub event : Event
  pub numwant : ℕ
  pub corrupt : Option ℕ
  pub key : Option (List ℕ)

-- The variables of the loop.
pub record Params : Type 0 where
  pub info_hash : Option (List ℕ)
  pub peer_id : Option (List ℕ)
  pub port : Option ℕ
  pub uploaded : Option ℕ
  pub downloaded : Option ℕ
  pub left : Option ℕ
  pub event : Option Event
  pub numwant : Option ℕ
  pub corrupt : Option ℕ
  pub key : Option (List ℕ)

abbrev pub no_params : Params
no_params = record {
  info_hash = none;
  peer_id = none;
  port = none;
  uploaded = none;
  downloaded = none;
  left = none;
  event = none;
  numwant = none;
  corrupt = none;
  key = none;
}

-- `Event::from_str`
unfoldable pub event_from_str : List ℕ → Result Event
event_from_str s =
    if list_beq s (bytes "") || list_beq s (bytes "empty") || list_beq s (bytes "paused")
    then ok Event.empty
    else if list_beq s (bytes "completed")
    then ok Event.completed
    else if list_beq s (bytes "started")
    then ok Event.started
    else if list_beq s (bytes "stopped")
    then ok Event.stopped
    else err AnnounceError.unsupported_event

-- `utils::urlencoded_to_bytes(value).or(Err(e))`
unfoldable pub decoded : AnnounceError → List ℕ → Result (List ℕ)
decoded e value = elim (urlencoded_to_bytes value) [
  | Outcome.ok out ↦ ok out
  | Outcome.bail ↦ err e
  | Outcome.panic ↦ panic
]

-- `value.parse().or(Err(e))`
unfoldable pub number : AnnounceError → ℕ → List ℕ → Result ℕ
unfolding parse_unsigned
number e top value = ok_or e (parse_unsigned top value)

-- The `match` on the parameter.
unfoldable pub set_param : List ℕ → List ℕ → Params → Result Params
unfolding decoded number event_from_str
set_param parameter value p =
    if list_beq parameter (bytes "info_hash")
    then (decoded AnnounceError.invalid_info_hash value >>= λ x.
        ok (record p { info_hash = some x }))
    else if list_beq parameter (bytes "peer_id")
    then (decoded AnnounceError.invalid_peer_id value >>= λ x. ok (record p { peer_id = some x }))
    else if list_beq parameter (bytes "port")
    then (number AnnounceError.invalid_port u16_max value >>= λ x. ok (record p { port = some x }))
    else if list_beq parameter (bytes "uploaded")
    then (number AnnounceError.invalid_uploaded u64_max value >>= λ x.
        ok (record p { uploaded = some x }))
    else if list_beq parameter (bytes "downloaded")
    then (number AnnounceError.invalid_downloaded u64_max value >>= λ x.
        ok (record p { downloaded = some x }))
    else if list_beq parameter (bytes "left")
    then (number AnnounceError.invalid_left u64_max value >>= λ x. ok (record p { left = some x }))
    else if list_beq parameter (bytes "compact")
    then (if list_beq value (bytes "1") then ok p else err AnnounceError.invalid_compact)
    else if list_beq parameter (bytes "event")
    then (event_from_str value >>= λ x. ok (record p { event = some x }))
    else if list_beq parameter (bytes "numwant")
    then (number AnnounceError.invalid_numwant u64_max value >>= λ x.
        ok (record p { numwant = some x }))
    else if list_beq parameter (bytes "corrupt")
    then ok (record p { corrupt = parse_unsigned u64_max value })
    else if list_beq parameter (bytes "key")
    then ok (record p { key = some value })
    else ok p

-- `memchr_iter`: the positions of a byte, counted from `i` on.
unfoldable pub positions : ℕ → List ℕ → ℕ → List ℕ
positions c [] i = []
positions c (x ∷ xs) i = let rest = positions c xs (i + 1) in if x == c then i ∷ rest else rest

-- `str::get(start..end)`. The bounds that the loop asks for stand beside ASCII signs, so they never
-- split a character.
unfoldable pub slice : List ℕ → ℕ → ℕ → Option (List ℕ)
slice s start end =
    if leb start end && leb end (length s) then some (take (end - start) (drop start s)) else none

-- `ampersand_positions.next().unwrap_or(query_length)`
unfoldable pub value_end : ℕ → List ℕ → ℕ
value_end query_length [] = query_length
value_end query_length (a ∷ ampersands) = a

unfoldable pub rest_of : List ℕ → List ℕ
rest_of [] = []
rest_of (a ∷ ampersands) = ampersands

-- The loop over the equal signs, with the iterator over the ampersands and `pos`.
unfoldable pub read_params : List ℕ → List ℕ → List ℕ → ℕ → Params → Result Params
unfolding slice value_end rest_of set_param
read_params query [] ampersands pos p = ok p
read_params query (equal_sign ∷ equal_signs) ampersands pos p = do
  parameter ← ok_or AnnounceError.invalid_query_string_key (slice query pos equal_sign)
  value ←
      ok_or AnnounceError.invalid_query_string_value
        (slice query (equal_sign + 1) (value_end (length query) ampersands))
  next ← set_param parameter value p
  elim (value_end (length query) ampersands == length query) [
    | true ↦ ok next
    | false ↦
        read_params query equal_signs (rest_of ampersands) (value_end (length query) ampersands + 1)
          next
  ]

unfoldable pub parse_params : List ℕ → Result Params
unfolding read_params positions
parse_params query = read_params query (positions b'=' query 0) (positions b'&' query 0) 0 no_params

-- `event.unwrap_or_default()`
unfoldable pub event_or_default : Option Event → Event
event_or_default none = Event.empty
event_or_default (some event) = event

unfoldable pub numwant_of : {F : Type 0} → Config F → Params → ℕ
unfolding event_or_default
numwant_of config p =
    if event_eq (event_or_default p.event) Event.stopped
    then 0
    else min (elim p.numwant [ none ↦ config.numwant_default | some n ↦ n ]) config.numwant_max

-- The parameters that an announce needs.
unfoldable pub from_params : {F : Type 0} → Config F → Params → Result Announce
unfolding event_or_default numwant_of
from_params config p = do
  info_hash ← ok_or AnnounceError.missing_info_hash p.info_hash
  peer_id ← ok_or AnnounceError.missing_peer_id p.peer_id
  port ← ok_or AnnounceError.missing_port p.port
  uploaded ← ok_or AnnounceError.missing_uploaded p.uploaded
  downloaded ← ok_or AnnounceError.missing_downloaded p.downloaded
  left ← ok_or AnnounceError.missing_left p.left
  ok (record {
    info_hash = info_hash;
    peer_id = peer_id;
    port = port;
    uploaded = uploaded;
    downloaded = downloaded;
    left = left;
    event = event_or_default p.event;
    numwant = numwant_of config p;
    corrupt = p.corrupt;
    key = p.key;
  })

-- `from_request_parts` on the query; a request without one has the empty query.
unfoldable pub from_query : {F : Type 0} → Config F → List ℕ → Result Announce
unfolding parse_params from_params
from_query config query = do p ← parse_params query; from_params config p
