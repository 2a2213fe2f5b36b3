-- ===== src/Model.antt =====
-- src/model.rs, the `Event` of src/announce.rs and the address types of the standard library.
pub mod Status
pub mod Hash
use unit3d_announce.Prelude.{ℕ, List, Bool, true, false}

-- `std::net::IpAddr`, by its octets.
pub data IpAddr : Type 0 where
  v4 : List ℕ → IpAddr
  v6 : List ℕ → IpAddr

-- The `Event` of src/announce.rs.
pub data Event : Type 0 where
  completed empty started stopped : Event

-- `Event::eq`, derived
unfoldable pub event_eq : Event → Event → Bool
event_eq completed completed = true
event_eq empty empty = true
event_eq started started = true
event_eq stopped stopped = true
event_eq _ _ = false
