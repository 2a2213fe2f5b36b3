-- ===== src/Tests/Queues.antt =====
-- Queues and their updates at concrete inputs.
use unit3d_announce.Prelude.{
  ℕ, ◌+◌, ◌≡◌, ◌≤◌, refl, some, none, true, false, Bool, List, [], ◌∷◌, arith,
}
use unit3d_announce.Prelude.Eq.{nat_eq, bytes_eq}
use unit3d_announce.Prelude.Ord.{nat_ord}
use unit3d_announce.Prelude.Map.{lookup, total}
use unit3d_announce.Prelude.Word.{u64_max}
use unit3d_announce.Model.{v4}
use unit3d_announce.Queue.{
  Queue, max_batch_size, take_batches, sort_records, insert_sorted, chop, upsert, upsert_batch,
}
use unit3d_announce.Queue.Chop.{Divides, take_batches-Divides}
use unit3d_announce.Queue.Flow.{Flow, Step, Run, weight, Run-weight}
use unit3d_announce.Queue.Updates.{
  PeerUpdate, HistoryUpdate, UserUpdate, merge_user, pair_eq, user_mergeable, peer_mergeable,
  history_mergeable,
}
use unit3d_announce.Queue.Updates.Merge.{
  merge_user-uploaded, put_back_history, upsert_forgets_completion,
}
use unit3d_announce.Tests.Fixtures.{config, queue_config}

abbrev credit : ℕ → UserUpdate
credit n = record { uploaded_delta = n; downloaded_delta = 0 }

abbrev three : Queue ℕ UserUpdate
three = record {
  records = (9, credit 1) ∷ (4, credit 2) ∷ (7, credit 3) ∷ [];
  config = queue_config;
}

take_batches_example :
    Divides
      (max_batch_size queue_config config)
      2
      three.records
      (take_batches config three).0
      (take_batches config three).1.records
take_batches_example = take_batches-Divides config three

abbrev at_rest : Flow ℕ UserUpdate
at_rest = record { queue = three; in_flight = []; written = [] }

-- The batches are taken, the first is refused, and a handler queues more.
abbrev taken : Flow ℕ UserUpdate
taken = record {
  queue = (take_batches config three).1;
  in_flight = (take_batches config three).0;
  written = [];
}

abbrev refused : Flow ℕ UserUpdate
refused = record {
  queue = upsert_batch ((4, credit 2) ∷ []) taken.queue;
  in_flight = ((7, credit 3) ∷ (9, credit 1) ∷ []) ∷ [];
  written = [];
}

-- The two batches, smallest keys first.
batches : taken.in_flight ≡ ((4, credit 2) ∷ []) ∷ ((7, credit 3) ∷ (9, credit 1) ∷ []) ∷ []
unfolding take_batches max_batch_size sort_records insert_sorted chop
batches = refl

flow-Run :
    Run config at_rest
      ((4, credit 5) ∷ [])
      (record refused { queue = upsert 4 (credit 5) refused.queue })
unfolding take_batches max_batch_size sort_records insert_sorted chop
flow-Run = Run.upserts 4 (credit 5) (
    Run.flushes (Run.flushes Run.here (Step.takes at_rest))
      (Step.refuses taken [] (((7, credit 3) ∷ (9, credit 1) ∷ []) ∷ []) ((4, credit 2) ∷ []) refl))

additive :
    (a b : UserUpdate)
    → a.uploaded_delta + b.uploaded_delta ≤ u64_max
    → (merge_user a b).uploaded_delta ≡ a.uploaded_delta + b.uploaded_delta
additive = merge_user-uploaded

-- The bytes that the users are credited with.
abbrev uploads : Flow ℕ UserUpdate → ℕ
uploads = weight config (λ u. u.uploaded_delta) u64_max additive

flow_fits : uploads at_rest + 5 ≤ u64_max
unfolding total
flow_fits = omega arith

flow_example :
    uploads (record refused { queue = upsert 4 (credit 5) refused.queue }) ≡ uploads at_rest + 5
unfolding total
flow_example = Run-weight config (λ u. u.uploaded_delta) u64_max additive flow-Run flow_fits

abbrev history : Bool → ℕ → HistoryUpdate
history is_active time = record {
  user_agent = [];
  is_active = is_active;
  is_seeder = false;
  is_immune = false;
  uploaded = 0;
  downloaded = 0;
  uploaded_delta = 0;
  downloaded_delta = 0;
  credited_uploaded_delta = 0;
  credited_downloaded_delta = 0;
  completed_at = none;
  created_at = time;
  updated_at = time;
}

abbrev peer_at : Bool → ℕ → PeerUpdate
peer_at is_active time = record {
  ip = v4 [];
  port = 6881;
  agent = [];
  uploaded = time;
  downloaded = 0;
  is_active = is_active;
  is_seeder = false;
  is_visible = true;
  left = 1;
  created_at = time;
  updated_at = time;
  connectable = true;
}

abbrev no_histories : Queue (ℕ × ℕ) HistoryUpdate
no_histories = record { records = []; config = queue_config }

abbrev no_peers : Queue (ℕ × (ℕ × List ℕ)) PeerUpdate
no_peers = record { records = []; config = queue_config }

none_waits : lookup (1, 5) no_histories.records ≡ none
unfolding lookup
none_waits = refl

no_peer_waits : lookup (1, (5, [])) no_peers.records ≡ none
unfolding lookup
no_peer_waits = refl

-- The member stopped at time 200, but the refused batch of time 100 makes the history active.
history_example :
    (r : HistoryUpdate) × (lookup
        (1, 5)
        (upsert_batch
          (((1, 5), history true 100) ∷ [])
          (upsert (1, 5) (history false 200) no_histories)).records
      ≡ some r)
    × (r.updated_at ≡ 200)
    × (r.is_active ≡ true)
    × (r.is_seeder ≡ false)
    × (r.completed_at ≡ none)
history_example =
    put_back_history (1, 5) (history false 200) (history true 100) no_histories none_waits
      (omega arith)

completion_example :
    (r : HistoryUpdate) × (lookup
        (1, 5)
        (upsert
          (1, 5)
          (history true 200)
          (upsert
            (1, 5)
            (record (history true 100) { completed_at = some 100 })
            no_histories)).records
      ≡ some r)
    × (r.completed_at ≡ none)
completion_example =
    upsert_forgets_completion (1, 5) (history true 200)
      (upsert (1, 5) (record (history true 100) { completed_at = some 100 }) no_histories)
