-- ===== src/Api/Sets.antt =====
-- src/api/group.rs and the endpoints of the sets: src/api/blacklisted_agent.rs,
-- src/api/featured_torrent.rs, src/api/freeleech_token.rs, src/api/personal_freeleech.rs.
use unit3d_announce.Prelude.{ℕ, Bool, Option, List, if◌then◌else◌}
use unit3d_announce.Prelude.Eq.{nat_eq, bytes_eq, int_eq}
use unit3d_announce.Prelude.Int.{ℤ}
use unit3d_announce.Prelude.Map.{insert, swap_remove}
use unit3d_announce.Store.{Stores}
use unit3d_announce.Store.User.{Group}
use unit3d_announce.Queue.Updates.{pair_eq}
use unit3d_announce.Announce.State.{App}
use unit3d_announce.Api.{Reply, success}

pub record ApiInsertGroup : Type 0 where
  pub id : ℤ
  pub slug : List ℕ
  pub download_slots : Option ℕ
  pub is_immune : Bool
  pub is_freeleech : Bool
  pub is_double_upload : Bool

unfoldable pub group_with : ApiInsertGroup → Group
group_with group = record {
  id = group.id;
  slug = group.slug;
  download_slots = group.download_slots;
  is_immune = group.is_immune;
  download_factor = if group.is_freeleech then 0 else 100;
  upload_factor = if group.is_double_upload then 200 else 100;
}

module _ {F : Type 0} where
  unfoldable pub upsert_group : ApiInsertGroup → App F → Reply × App F
  unfolding group_with
  upsert_group group app = (
    success,
    record app {
      stores = record app.stores { groups = insert group.id (group_with group) app.stores.groups };
    },
  )

  unfoldable pub destroy_group : ℤ → App F → Reply × App F
  destroy_group id app = (
    success,
    record app { stores = record app.stores { groups = swap_remove id app.stores.groups } },
  )

  unfoldable pub upsert_agent : List ℕ → Stores F → Stores F
  upsert_agent agent stores = record stores {
    agent_blacklist = insert agent tt stores.agent_blacklist;
  }

  unfoldable pub destroy_agent : List ℕ → Stores F → Stores F
  destroy_agent agent stores = record stores {
    agent_blacklist = swap_remove agent stores.agent_blacklist;
  }

  unfoldable pub upsert_featured_torrent : ℕ → Stores F → Stores F
  upsert_featured_torrent id stores = record stores {
    featured_torrents = insert id tt stores.featured_torrents;
  }

  unfoldable pub destroy_featured_torrent : ℕ → Stores F → Stores F
  destroy_featured_torrent id stores = record stores {
    featured_torrents = swap_remove id stores.featured_torrents;
  }

  unfoldable pub upsert_freeleech_token : ℕ × ℕ → Stores F → Stores F
  upsert_freeleech_token token stores = record stores {
    freeleech_tokens = insert token tt stores.freeleech_tokens;
  }

  unfoldable pub destroy_freeleech_token : ℕ × ℕ → Stores F → Stores F
  destroy_freeleech_token token stores = record stores {
    freeleech_tokens = swap_remove token stores.freeleech_tokens;
  }

  unfoldable pub upsert_personal_freeleech : ℕ → Stores F → Stores F
  upsert_personal_freeleech user_id stores = record stores {
    personal_freeleeches = insert user_id tt stores.personal_freeleeches;
  }

  unfoldable pub destroy_personal_freeleech : ℕ → Stores F → Stores F
  destroy_personal_freeleech user_id stores = record stores {
    personal_freeleeches = swap_remove user_id stores.personal_freeleeches;
  }
