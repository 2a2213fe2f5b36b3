-- ===== src/Api.antt =====
-- src/api: the endpoints by which the site keeps the tracker's stores up to date.
pub mod Torrents
pub mod Users
pub mod Sets
pub mod Routes
use unit3d_announce.Prelude.{ℕ, Bool}

-- The status that an endpoint answers, or its panic.
pub data Reply : Type 0 where
  success bad_request panicked : Reply
