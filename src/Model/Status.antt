-- ===== src/Model/Status.antt =====
-- src/model/torrent_status.rs
use unit3d_announce.Prelude.{ℕ, ◌==◌, if◌then◌else◌}
use unit3d_announce.Prelude.Int.{ℤ, pos, negsuc}

pub data TorrentStatus : Type 0 where
  pending approved rejected postponed unknown : TorrentStatus

from_nat : ℕ → TorrentStatus
from_nat n =
    if n == 0
    then pending
    else if n == 1
    then approved
    else if n == 2
    then rejected
    else if n == 3
    then postponed
    else unknown

unfoldable pub from_i16 : ℤ → TorrentStatus
unfolding from_nat
from_i16 (pos n) = from_nat n
from_i16 (negsuc n) = unknown
