-- ===== src/Announce/Admit.antt =====
-- The checks that `announce` of src/announce.rs makes on the torrent, the user and the group.
use unit3d_announce.Prelude.{
  ℕ, Bool, false, not, ◌&&◌, ◌||◌, none, some, ltb, leb, ◌==◌, if◌then◌else◌,
}
use unit3d_announce.Prelude.Eq.{list_beq, int_eq}
use unit3d_announce.Prelude.Bytes.{bytes}
use unit3d_announce.Prelude.Map.{lookup}
use unit3d_announce.Model.Status.{TorrentStatus, pending, approved, rejected, postponed, unknown}
use unit3d_announce.Error.{AnnounceError}
use unit3d_announce.Store.{Stores}
use unit3d_announce.Store.Torrent.{Torrent}
use unit3d_announce.Store.User.{User, Group}
use unit3d_announce.Announce.Query.{Announce}
use unit3d_announce.Announce.Swarm.{Result, ok, err, ◌>>=◌, ok_or}

-- Who may announce: the user and the group.
pub record Member (F : Type 0) : Type 0 where
  pub user_id : ℕ
  pub user : User F
  pub group : Group

unfoldable pub check_status : TorrentStatus → Result (Unit {0})
check_status approved = ok tt
check_status pending = err AnnounceError.torrent_is_pending_moderation
check_status rejected = err AnnounceError.torrent_is_rejected
check_status postponed = err AnnounceError.torrent_is_postponed
check_status unknown = err AnnounceError.torrent_unknown_moderation_status

unfoldable pub is_disabled : Group → Bool
is_disabled group =
    list_beq group.slug (bytes "banned")
    || list_beq group.slug (bytes "validating")
    || list_beq group.slug (bytes "disabled")

-- `if !user.can_download && queries.left != 0`
unfoldable pub check_privileges : {F : Type 0} → User F → Announce → Result (Unit {0})
check_privileges user queries =
    if not user.can_download && not (queries.left == 0)
    then err AnnounceError.download_privileges_revoked
    else ok tt

unfoldable pub check_group : Group → Result (Unit {0})
unfolding is_disabled
check_group group =
    if is_disabled group then err (AnnounceError.group_not_enabled group.slug) else ok tt

-- The checks from the status of the torrent to the group, for a torrent that is not deleted.
unfoldable pub admit :
    {F : Type 0} → Stores F → Announce → Torrent → Result ℕ → Result (User F) → Result (Member F)
unfolding check_status check_privileges check_group
admit stores queries torrent user_id_res user_res = do
  _ ← check_status torrent.status
  user_id ← user_id_res
  user ← user_res
  _ ← check_privileges user queries
  group ← ok_or AnnounceError.group_not_found (lookup user.group_id stores.groups)
  _ ← check_group group
  ok (record { user_id = user_id; user = user; group = group })

-- `has_hit_download_slot_limit`
unfoldable pub hits_slot_limit : {F : Type 0} → Announce → User F → Group → Bool
hits_slot_limit queries user group =
    if ltb 0 queries.left
    then elim group.download_slots [ none ↦ false | some slots ↦ leb slots user.num_leeching ]
    else false
