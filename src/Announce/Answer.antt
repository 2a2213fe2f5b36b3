-- ===== src/Announce/Answer.antt =====
-- The part of `announce` in src/announce.rs that picks the peers for the answer and writes it.
pub mod Bytes
pub mod Choice
pub mod Lists
use unit3d_announce.Prelude.{
  ℕ, ◌+◌, ◌-◌, ◌*◌, ◌/◌, ◌%◌, Bool, true, false, not, ◌&&◌, ◌||◌, Option, none, some, List, [], ◌∷◌,
  ◌++◌, length, ltb, leb, ◌==◌, if◌then◌else◌,
}
use unit3d_announce.Prelude.Bytes.{bytes, decimal}
use unit3d_announce.Model.{IpAddr, v4, v6, Event, event_eq}
use unit3d_announce.Config.{Config}
use unit3d_announce.Rate.{Float, is_under_limit}
use unit3d_announce.Warning.{AnnounceWarning, is_empty, into_message}
use unit3d_announce.Store.Peer.{Index, Peer, PeerStore, is_included_in_peer_list}
use unit3d_announce.Store.Torrent.{Torrent}
use unit3d_announce.Store.User.{User}
use unit3d_announce.Announce.Swarm.{Visit}

-- `filter` by the entry.
unfoldable pub filter : (Index × Peer → Bool) → PeerStore → PeerStore
filter test [] = []
filter test (e ∷ es) = if test e then e ∷ filter test es else filter test es

-- The seeds or the leeches that are picked, and how they came about.
pub record Part : Type 0 where
  pub peers : PeerStore
  pub has_requested : Bool
  pub is_over_rate_limit : Bool

abbrev pub no_part : Part
no_part = record { peers = []; has_requested = false; is_over_rate_limit = false }

-- The bytes of a socket in the compact form: the octets and the port, its high byte first.
unfoldable pub socket_bytes : List ℕ → ℕ → List ℕ
socket_bytes octets port = octets ++ port / 256 ∷ port % 256 ∷ []

-- The loop that fills `peers_ipv4` and `peers_ipv6`.
unfoldable pub split_peers : PeerStore → List ℕ → List ℕ → List ℕ × List ℕ
unfolding socket_bytes
split_peers [] peers_ipv4 peers_ipv6 = (peers_ipv4, peers_ipv6)
split_peers ((index, peer) ∷ peers) peers_ipv4 peers_ipv6 = elim peer.ip_address [
  | v4 octets ↦ split_peers peers (peers_ipv4 ++ socket_bytes octets peer.port) peers_ipv6
  | v6 octets ↦ split_peers peers peers_ipv4 (peers_ipv6 ++ socket_bytes octets peer.port)
]

-- What the answer says.
pub record Answer : Type 0 where
  pub complete : ℕ
  pub downloaded : ℕ
  pub incomplete : ℕ
  pub interval : ℕ
  pub min_interval : ℕ
  pub peers_ipv4 : List ℕ
  pub peers_ipv6 : List ℕ
  pub warning_message : Option (List ℕ)

-- The test of `valid_peers`.
unfoldable pub is_valid : {F : Type 0} → Visit F → Index × Peer → Bool
is_valid v (index, peer) =
    not (index.user_id == v.user_id) && is_included_in_peer_list v.config peer

-- Where peers are picked, a draw of `choose_multiple` of the rand crate is an argument.
module _ {F : Type 0} ⦃f : Float F⦄ (v : Visit F) (user : User F) (torrent : Torrent) where
  open v use {config, queries}

  -- Seeds for a client that leeches.
  unfoldable pub seed_part : (PeerStore → ℕ → PeerStore) → Part
  unfolding is_valid
  seed_part choose =
      if ltb 0 queries.left && ltb 0 torrent.seeders && ltb 0 queries.numwant
      then (if is_under_limit user.receive_seed_list_rates
          then record {
            peers =
                choose (filter (λ e. e.1.is_seeder) (filter (is_valid v) torrent.peers))
                  queries.numwant;
            has_requested = true;
            is_over_rate_limit = false;
          }
          else record { peers = []; has_requested = true; is_over_rate_limit = true })
      else no_part

  -- Leeches, until `numwant` is reached.
  unfoldable pub leech_part : (PeerStore → ℕ → PeerStore) → PeerStore → Part
  unfolding is_valid
  leech_part choose seeds =
      if ltb 0 torrent.leechers && ltb (length seeds) queries.numwant
      then (if is_under_limit user.receive_leech_list_rates
          then record {
            peers =
                choose (filter (λ e. not e.1.is_seeder) (filter (is_valid v) torrent.peers))
                  (queries.numwant - length seeds);
            has_requested = true;
            is_over_rate_limit = false;
          }
          else record { peers = []; has_requested = true; is_over_rate_limit = true })
      else no_part

  -- Both lists, for a torrent whose counts are adjusted.
  unfoldable pub peer_parts :
      (PeerStore → ℕ → PeerStore) → (PeerStore → ℕ → PeerStore) → List AnnounceWarning → Part × Part
  unfolding seed_part leech_part
  peer_parts choose_seeds choose_leeches warnings =
      if not (event_eq queries.event Event.stopped) && ltb 0 torrent.leechers && is_empty warnings
      then (seed_part choose_seeds, leech_part choose_leeches (seed_part choose_seeds).peers)
      else (no_part, no_part)

-- Whether the draws can reserve memory for as many peers as are asked for: `choose_multiple` panics
-- where it cannot.
unfoldable pub draws_fit : ℕ → ℕ → Part × Part → Bool
draws_fit capacity numwant (seeds, leeches) =
    (not seeds.has_requested || seeds.is_over_rate_limit || leb numwant capacity)
    && (not leeches.has_requested
        || leeches.is_over_rate_limit
        || leb (numwant - length seeds.peers) capacity)

-- What the answer says, by the peers that are picked. The interval is drawn from the range of the
-- configuration.
unfoldable pub answer :
    {F : Type 0} → Config F → ℕ → Torrent → List AnnounceWarning → Part × Part → Answer
unfolding split_peers
answer config interval torrent warnings (seeds, leeches) =
    let (peers_ipv4, peers_ipv6) = split_peers (seeds.peers ++ leeches.peers) [] [] in
    record {
      complete = if seeds.is_over_rate_limit || not (is_empty warnings) then 0 else torrent.seeders;
      downloaded = torrent.times_completed;
      incomplete =
          if leeches.is_over_rate_limit || not (is_empty warnings) then 0 else torrent.leechers;
      interval = interval;
      min_interval = config.announce_min;
      peers_ipv4 = peers_ipv4;
      peers_ipv6 = peers_ipv6;
      warning_message = into_message warnings;
    }

-- The entry of the warning message.
unfoldable pub warning_bytes : Option (List ℕ) → List ℕ
warning_bytes none = []
warning_bytes (some warning_message) =
    bytes "15:warning message" ++ (decimal (length warning_message) ++ bytes ":" ++ warning_message)

-- The bytes of the answer, written key by key.
unfoldable pub response : Answer → List ℕ
unfolding warning_bytes
response a =
    bytes "d8:completei"
    ++ decimal a.complete
    ++ bytes "e10:downloadedi"
    ++ decimal a.downloaded
    ++ bytes "e10:incompletei"
    ++ decimal a.incomplete
    ++ bytes "e8:intervali"
    ++ decimal a.interval
    ++ bytes "e12:min intervali"
    ++ decimal a.min_interval
    ++ bytes "e5:peers"
    ++ (if is_empty a.peers_ipv4
        then bytes "0:"
        else decimal (length a.peers_ipv4) ++ bytes ":" ++ a.peers_ipv4)
    ++ (if is_empty a.peers_ipv6
        then []
        else bytes "6:peers6" ++ (decimal (length a.peers_ipv6) ++ bytes ":" ++ a.peers_ipv6))
    ++ warning_bytes a.warning_message
    ++ bytes "e"
