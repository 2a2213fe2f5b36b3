-- ===== src/Tests/Requests.antt =====
-- Queries and addresses of clients at concrete requests.
use unit3d_announce.Prelude.{
  ℕ, ◌≡◌, ◌≢◌, refl, some, none, List, [], ◌∷◌, ◌++◌, replicate, arith, Option, if◌then◌else◌,
}
use unit3d_announce.Prelude.Eq.{list_beq}
use unit3d_announce.Prelude.Bytes.{bytes}
use unit3d_announce.Prelude.Outcome.{Outcome}
use unit3d_announce.Model.{IpAddr, v4, Event}
use unit3d_announce.Config.{Config}
use unit3d_announce.Utils.{urlencoded_to_bytes, percent_sign_count, read_bytes, hex_decode}
use unit3d_announce.Error.Result.{ok, panic}
use unit3d_announce.Announce.Query.{no_params, parse_params, from_query}
use unit3d_announce.Announce.Query.Split.{Fields, render, set_params, parse_params-render}
use unit3d_announce.Announce.Query.Print.{
  is_plain-IsPlain, Sendable, fields_of, received, from_query-render,
}
use unit3d_announce.Announce.Query.Total.{from_query-ne-panic}
use unit3d_announce.Announce.ClientIp.{client_ip, client_ip-append}
use unit3d_announce.Tests.Fixtures.{config, queries, info_hash, peer_id}

-- The first byte is written in hex digits.
abbrev pub escaped_hash : List ℕ
escaped_hash = bytes "%07" ++ replicate 19 7

pub hash_decoded : urlencoded_to_bytes escaped_hash ≡ Outcome.ok info_hash
unfolding urlencoded_to_bytes percent_sign_count read_bytes hex_decode
hash_decoded = refl

pub id_decoded : urlencoded_to_bytes (peer_id 1) ≡ Outcome.ok (peer_id 1)
unfolding urlencoded_to_bytes percent_sign_count read_bytes
id_decoded = refl

pub sent : Sendable (queries Event.started)
sent = record {
  port = omega arith;
  uploaded = omega arith;
  downloaded = omega arith;
  left = omega arith;
  numwant = omega arith;
}

query_example :
    from_query config (render (fields_of (queries Event.started) escaped_hash (peer_id 1)))
    ≡ ok (received config (queries Event.started))
query_example =
    from_query-render config (queries Event.started) escaped_hash (peer_id 1) sent hash_decoded
      id_decoded (is_plain-IsPlain escaped_hash refl) (is_plain-IsPlain (peer_id 1) refl)

abbrev two_fields : Fields
two_fields = (bytes "port", bytes "6881") ∷ (bytes "left", bytes "x") ∷ []

split_example : parse_params (render two_fields) ≡ set_params two_fields no_params
split_example = parse_params-render two_fields (
  is_plain-IsPlain (bytes "port") refl,
  is_plain-IsPlain (bytes "6881") refl,
  (is_plain-IsPlain (bytes "left") refl, is_plain-IsPlain (bytes "x") refl, tt),
)

query_panic_example : from_query config (bytes "info_hash=%4&=&&port") ≢ panic
query_panic_example = from_query-ne-panic config (bytes "info_hash=%4&=&&port")

-- Behind a proxy, and a client that pretends to be 1.1.1.1.
abbrev proxied : Config ℕ
proxied = record config { reverse_proxy_client_ip_header_name = some (bytes "X-Forwarded-For") }

abbrev headers : List ℕ → List (Option (List ℕ))
headers name = none ∷ some (bytes "1.1.1.1," ++ bytes "10.0.0.9") ∷ []

abbrev read_ip : List ℕ → Option IpAddr
read_ip s = if list_beq s (bytes "10.0.0.9") then some (v4 (10 ∷ 0 ∷ 0 ∷ 9 ∷ [])) else none

client_ip_example : client_ip proxied read_ip headers none ≡ ok (v4 (10 ∷ 0 ∷ 0 ∷ 9 ∷ []))
unfolding list_beq
client_ip_example =
    client_ip-append proxied read_ip headers none (bytes "X-Forwarded-For") (bytes "1.1.1.1")
      (bytes "10.0.0.9") (none ∷ []) (v4 (10 ∷ 0 ∷ 0 ∷ 9 ∷ [])) refl refl
      (refl, (refl, (refl, (refl, (refl, (refl, (refl, (refl, tt)))))))) refl
