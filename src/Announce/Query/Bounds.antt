-- ===== src/Announce/Query/Bounds.antt =====
-- The number of peers that a query of src/announce.rs can ask for.
use unit3d_announce.Prelude.{ℕ, ◌≤◌, ◌≡◌, List, arith}
use unit3d_announce.Error.Result.{ok, >>=-eq-ok}
use unit3d_announce.Config.{Config}
use unit3d_announce.Announce.Query.{
  Announce, Params, numwant_of, parse_params, from_params, from_query,
}

numwant_of-max :
    {F : Type 0} (config : Config F) (p : Params) → numwant_of config p ≤ config.numwant_max
unfolding numwant_of
numwant_of-max config p = ground arith

from_params-numwant :
    {F : Type 0} (config : Config F) (p : Params) (q : Announce)
    → from_params config p ≡ ok q
    → q.numwant ≤ config.numwant_max
unfolding from_params
from_params-numwant config p q h = ground (arith, numwant_of-max config p)

-- A query that is read asks for at most as many peers as the settings allow.
pub from_query-numwant :
    {F : Type 0} (config : Config F) (query : List ℕ) (q : Announce)
    → from_query config query ≡ ok q
    → q.numwant ≤ config.numwant_max
unfolding from_query
from_query-numwant config query q h =
    let (p, e, then) = >>=-eq-ok (parse_params query) (from_params config) h in
    from_params-numwant config p q then
