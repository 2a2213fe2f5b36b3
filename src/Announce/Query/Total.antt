-- ===== src/Announce/Query/Total.antt =====
-- No query makes `from_request_parts` of src/announce.rs panic.
use unit3d_announce.Prelude.{
  ℕ, ◌+◌, ◌≢◌, Option, none, some, List, [], ◌∷◌, length, arith, Bool-cases, inl, inr, ◌==◌,
}
use unit3d_announce.Prelude.Outcome.{Outcome-cases}
use unit3d_announce.Utils.{urlencoded_to_bytes}
use unit3d_announce.Utils.Url.{urlencoded_to_bytes-ne-panic}
use unit3d_announce.Config.{Config}
use unit3d_announce.Error.{AnnounceError}
use unit3d_announce.Error.Result.{Result, ok, err, panic, ◌>>=◌, ok_or}
use unit3d_announce.Announce.Query.{
  Params, no_params, event_from_str, decoded, number, set_param, positions, slice, value_end,
  rest_of, read_params, parse_params, from_params, from_query,
}

decoded-ne-panic : (e : AnnounceError) (s : List ℕ) → decoded e s ≢ panic
unfolding decoded
decoded-ne-panic e s = elim (Outcome-cases (urlencoded_to_bytes s)) [
  | inl (x, p) ↦ rw (p, decoded) (ground arith)
  | inr (inl p) ↦ rw (p, decoded) (ground arith)
  | inr (inr p) ↦ absurd (urlencoded_to_bytes-ne-panic s p)
]

event_from_str-ne-panic : (s : List ℕ) → event_from_str s ≢ panic
unfolding event_from_str
event_from_str-ne-panic s = ground arith

bind-ne-panic :
    {A B : Type 0} (step : Result A) (next : A → Result B)
    → step ≢ panic
    → ((x : A) → next x ≢ panic)
    → (step >>= next) ≢ panic
bind-ne-panic (ok x) next h k = k x
bind-ne-panic (err e) next h k = ground arith
bind-ne-panic panic next h k = ground arith

ok_or-ne-panic : {A : Type 0} (e : AnnounceError) (o : Option A) → ok_or e o ≢ panic
ok_or-ne-panic e none = ground arith
ok_or-ne-panic e (some x) = ground arith

set_param-ne-panic : (k v : List ℕ) (p : Params) → set_param k v p ≢ panic
unfolding set_param number
set_param-ne-panic k v p = ground (
  arith,
  decoded-ne-panic AnnounceError.invalid_info_hash v,
  decoded-ne-panic AnnounceError.invalid_peer_id v,
  event_from_str-ne-panic v,
)

read_params-ne-panic :
    (query equal_signs ampersands : List ℕ) (pos : ℕ) (p : Params)
    → read_params query equal_signs ampersands pos p ≢ panic
unfolding read_params
read_params-ne-panic query [] ampersands pos p = ground arith
read_params-ne-panic query (equal_sign ∷ equal_signs) ampersands pos p =
    bind-ne-panic (ok_or AnnounceError.invalid_query_string_key (slice query pos equal_sign)) _
      (ok_or-ne-panic _ _)
      (λ k.
        bind-ne-panic
          (ok_or AnnounceError.invalid_query_string_value
            (slice query (equal_sign + 1) (value_end (length query) ampersands)))
          _ (ok_or-ne-panic _ _)
          (λ v. bind-ne-panic (set_param k v p) _ (set_param-ne-panic k v p) (λ next.
            elim (Bool-cases (value_end (length query) ampersands == length query)) [
              | inl end ↦ rw end (ground arith)
              | inr more ↦ rw more (
                  read_params-ne-panic query equal_signs (rest_of ampersands)
                    (value_end (length query) ampersands + 1) next)
            ])))

parse_params-ne-panic : (query : List ℕ) → parse_params query ≢ panic
unfolding parse_params
parse_params-ne-panic query =
    read_params-ne-panic query (positions b'=' query 0) (positions b'&' query 0) 0 no_params

-- Whatever the bytes of the query, it gives an announce or an error, never a panic.
pub from_query-ne-panic :
    {F : Type 0} (config : Config F) (query : List ℕ) → from_query config query ≢ panic
unfolding from_query from_params
from_query-ne-panic config query =
    bind-ne-panic (parse_params query) _ (parse_params-ne-panic query) (λ p. ground arith)
