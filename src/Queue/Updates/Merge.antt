-- ===== src/Queue/Updates/Merge.antt =====
-- Merging updates: sums are kept, and which of two updates of a key wins.
use unit3d_announce.Prelude.{◌+◌, ◌≤◌, ◌<◌, ◌≡◌, refl, ◌≢◌, none, some, [], ◌∷◌, arith}
use unit3d_announce.Prelude.Eq.{nat_eq, bytes_eq}
use unit3d_announce.Prelude.Word.{u64_max, saturating_add}
use unit3d_announce.Prelude.Map.{lookup}
use unit3d_announce.Queue.{Queue, upsert, upsert_batch}
use unit3d_announce.Queue.Lookup.{merged, lookup-upsert_self, put_back}
use unit3d_announce.Queue.Updates.{
  PeerIndex, HistoryIndex, PeerUpdate, merge_peer, HistoryUpdate, merge_history, UserUpdate,
  merge_user, pair_eq, peer_mergeable, history_mergeable,
}

-- Two credits of a user are added up where the sum fits in 64 bits.
pub merge_user-uploaded :
    (a b : UserUpdate)
    → a.uploaded_delta + b.uploaded_delta ≤ u64_max
    → (merge_user a b).uploaded_delta ≡ a.uploaded_delta + b.uploaded_delta
unfolding merge_user saturating_add
merge_user-uploaded a b h = ground arith

pub merge_history-credited_uploaded :
    (a b : HistoryUpdate)
    → a.credited_uploaded_delta + b.credited_uploaded_delta ≤ u64_max
    → (merge_history a b).credited_uploaded_delta
      ≡ a.credited_uploaded_delta + b.credited_uploaded_delta
unfolding merge_history
merge_history-credited_uploaded a b h = omega arith

-- Two updates of a peer with different times are merged to the same record in either order.
pub merge_peer_comm :
    (a b : PeerUpdate) → a.updated_at ≢ b.updated_at → merge_peer a b ≡ merge_peer b a
unfolding merge_peer
merge_peer_comm a b h = ground arith

-- A refused batch that is put back behind a newer update of a history brings its old state back:
-- the record has the time of the newer update, and activity, seeding and completion of the older.
pub put_back_history :
    (k : HistoryIndex) (new old : HistoryUpdate) (q : Queue HistoryIndex HistoryUpdate)
    → lookup k q.records ≡ none
    → old.updated_at < new.updated_at
    → (r : HistoryUpdate) × (lookup k (upsert_batch ((k, old) ∷ []) (upsert k new q)).records
        ≡ some r)
      × (r.updated_at ≡ new.updated_at)
      × (r.is_active ≡ old.is_active)
      × (r.is_seeder ≡ old.is_seeder)
      × (r.completed_at ≡ old.completed_at)
unfolding merge_history
put_back_history k new old q missing later =
    (merge_history new old, put_back k new old q missing, omega arith, refl, refl, refl)

-- The same for a peer leaves the state of the newer update.
pub put_back_peer :
    (k : PeerIndex) (new old : PeerUpdate) (q : Queue PeerIndex PeerUpdate)
    → lookup k q.records ≡ none
    → old.updated_at < new.updated_at
    → (r : PeerUpdate) × (lookup k (upsert_batch ((k, old) ∷ []) (upsert k new q)).records ≡ some r)
      × (r.updated_at ≡ new.updated_at)
      × (r.is_active ≡ new.is_active)
      × (r.uploaded ≡ new.uploaded)
      × (r.downloaded ≡ new.downloaded)
unfolding merge_peer
put_back_peer k new old q missing later = (
  merge_peer new old,
  put_back k new old q missing,
  ground arith,
  ground arith,
  ground arith,
  ground arith,
)

-- A completion that waits in the queue is forgotten when the client announces again: whatever the
-- record of the key was, its completion is that of the last update.
pub upsert_forgets_completion :
    (k : HistoryIndex) (v : HistoryUpdate) (q : Queue HistoryIndex HistoryUpdate)
    → (r : HistoryUpdate) × (lookup k (upsert k v q).records ≡ some r)
      × (r.completed_at ≡ v.completed_at)
unfolding merge_history
upsert_forgets_completion k v q =
    (merged (lookup k q.records) v, lookup-upsert_self k v q, ground arith)
