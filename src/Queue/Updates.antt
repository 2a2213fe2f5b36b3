-- ===== src/Queue/Updates.antt =====
-- src/queue/*_update.rs: the records that the queues hold, and how each is merged.
pub mod Merge
use unit3d_announce.Prelude.{
  ℕ, ◌+◌, ◌/◌, ◌%◌, ◌≡◌, ◌↔◌, Bool, true, ◌&&◌, Option, List, ◌++◌, min, max, ltb, leb, ◌==◌,
  ==_iff, arith, length, take, drop, if◌then◌else◌,
}
use unit3d_announce.Prelude.Int.{ℤ}
use unit3d_announce.Prelude.Eq.{Eq, list_beq, list_beq_iff}
use unit3d_announce.Prelude.Ord.{Ord, pair_ord, nat_ord, bytes_ord}
use unit3d_announce.Prelude.Word.{u32_max, u64_max, i64_max, saturating_add, saturating_add_ℤ}
use unit3d_announce.Model.{IpAddr, Event}
use unit3d_announce.Queue.{Mergeable}

-- The keys, as tuples in the order of the fields: `peer_update::Index` is a user, a torrent and a
-- peer id, `history_update::Index` a user and a torrent, `unregistered_info_hash_update::Index` an
-- info hash and a user.
abbrev pub PeerIndex : Type 0
PeerIndex = ℕ × (ℕ × List ℕ)

abbrev pub HistoryIndex : Type 0
HistoryIndex = ℕ × ℕ

abbrev pub UnregisteredInfoHashIndex : Type 0
UnregisteredInfoHashIndex = List ℕ × ℕ

module _ {ℓ κ} {A : Type ℓ} {B : Type κ} ⦃d : Eq A⦄ ⦃e : Eq B⦄ where
  unfoldable pub pair_beq : A × B → A × B → Bool
  pair_beq (a, b) (a', b') = d.beq a a' && e.beq b b'

  pub pair_beq_iff : (x y : A × B) → (pair_beq x y ≡ true) ↔ (x ≡ y)
  unfolding pair_beq
  pair_beq_iff (a, b) (a', b') = ground (arith, d.beq_iff a a', e.beq_iff b b')

  instance abbrev pub pair_eq : Eq (A × B)
  pair_eq = record { beq = pair_beq; beq_iff = pair_beq_iff }

pub record PeerUpdate : Type 0 where
  pub ip : IpAddr
  pub port : ℕ
  pub agent : List ℕ
  pub uploaded : ℕ
  pub downloaded : ℕ
  pub is_active : Bool
  pub is_seeder : Bool
  pub is_visible : Bool
  pub left : ℕ
  pub created_at : ℕ
  pub updated_at : ℕ
  pub connectable : Bool

unfoldable pub merge_peer : PeerUpdate → PeerUpdate → PeerUpdate
merge_peer old new =
    let newest =
      if ltb old.updated_at new.updated_at
      then record new { created_at = old.created_at }
      else old in
    record newest { created_at = min old.created_at new.created_at }

pub record HistoryUpdate : Type 0 where
  pub user_agent : List ℕ
  pub is_active : Bool
  pub is_seeder : Bool
  pub is_immune : Bool
  pub uploaded : ℕ
  pub downloaded : ℕ
  pub uploaded_delta : ℕ
  pub downloaded_delta : ℕ
  pub credited_uploaded_delta : ℕ
  pub credited_downloaded_delta : ℕ
  pub completed_at : Option ℕ
  pub created_at : ℕ
  pub updated_at : ℕ

-- `+=` of a `u64` in a release build.
abbrev pub wrapping_add : ℕ → ℕ → ℕ
wrapping_add a b = (a + b) % (u64_max + 1)

unfoldable pub merge_history : HistoryUpdate → HistoryUpdate → HistoryUpdate
merge_history old new = record old {
  user_agent = new.user_agent;
  is_active = new.is_active;
  is_seeder = new.is_seeder;
  uploaded = new.uploaded;
  downloaded = new.downloaded;
  uploaded_delta = wrapping_add old.uploaded_delta new.uploaded_delta;
  downloaded_delta = wrapping_add old.downloaded_delta new.downloaded_delta;
  credited_uploaded_delta = wrapping_add old.credited_uploaded_delta new.credited_uploaded_delta;
  credited_downloaded_delta =
      wrapping_add old.credited_downloaded_delta new.credited_downloaded_delta;
  completed_at = new.completed_at;
  created_at = min old.created_at new.created_at;
  updated_at = max old.updated_at new.updated_at;
}

pub record TorrentUpdate : Type 0 where
  pub seeder_delta : ℤ
  pub leecher_delta : ℤ
  pub times_completed_delta : ℕ
  pub balance_delta : ℤ

abbrev pub i32_max : ℕ
i32_max = 2147483647

unfoldable pub merge_torrent : TorrentUpdate → TorrentUpdate → TorrentUpdate
merge_torrent old new = record {
  seeder_delta = saturating_add_ℤ i32_max old.seeder_delta new.seeder_delta;
  leecher_delta = saturating_add_ℤ i32_max old.leecher_delta new.leecher_delta;
  times_completed_delta =
      saturating_add u32_max old.times_completed_delta new.times_completed_delta;
  balance_delta = saturating_add_ℤ i64_max old.balance_delta new.balance_delta;
}

pub record UserUpdate : Type 0 where
  pub uploaded_delta : ℕ
  pub downloaded_delta : ℕ

unfoldable pub merge_user : UserUpdate → UserUpdate → UserUpdate
merge_user old new = record {
  uploaded_delta = saturating_add u64_max old.uploaded_delta new.uploaded_delta;
  downloaded_delta = saturating_add u64_max old.downloaded_delta new.downloaded_delta;
}

pub record UnregisteredInfoHashUpdate : Type 0 where
  pub created_at : ℕ
  pub updated_at : ℕ

unfoldable pub merge_unregistered :
    UnregisteredInfoHashUpdate → UnregisteredInfoHashUpdate → UnregisteredInfoHashUpdate
merge_unregistered old new = record {
  created_at = min old.created_at new.created_at;
  updated_at = if ltb old.updated_at new.updated_at then new.updated_at else old.updated_at;
}

instance abbrev pub peer_mergeable : Mergeable PeerUpdate
peer_mergeable = record { merge = merge_peer }

instance abbrev pub history_mergeable : Mergeable HistoryUpdate
history_mergeable = record { merge = merge_history }

instance abbrev pub torrent_mergeable : Mergeable TorrentUpdate
torrent_mergeable = record { merge = merge_torrent }

instance abbrev pub user_mergeable : Mergeable UserUpdate
user_mergeable = record { merge = merge_user }

instance abbrev pub unregistered_mergeable : Mergeable UnregisteredInfoHashUpdate
unregistered_mergeable = record { merge = merge_unregistered }

-- src/queue/announce_update.rs: the log of announces, a plain vector.
pub record AnnounceUpdate : Type 0 where
  pub user_id : ℕ
  pub torrent_id : ℕ
  pub uploaded : ℕ
  pub downloaded : ℕ
  pub left : ℕ
  pub corrupt : Option ℕ
  pub peer_id : List ℕ
  pub port : ℕ
  pub numwant : ℕ
  pub created_at : ℕ
  pub event : Event
  pub key : Option (List ℕ)

abbrev pub announce_limit : ℕ
announce_limit = 65535 / 12

-- The batch that `take_batch` takes, and the announces that are left.
unfoldable pub take_batch : List AnnounceUpdate → List AnnounceUpdate × List AnnounceUpdate
take_batch queue = let n = min announce_limit (length queue) in (take n queue, drop n queue)

unfoldable pub upsert_announces : List AnnounceUpdate → List AnnounceUpdate → List AnnounceUpdate
upsert_announces queue batch = queue ++ batch
