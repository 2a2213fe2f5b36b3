-- ===== src/Api/Routes.antt =====
-- src/routes.rs: the endpoints that change the stores, and announces.
pub mod Linked
use unit3d_announce.Prelude.{ℕ, List}
use unit3d_announce.Prelude.Int.{ℤ}
use unit3d_announce.Config.{Config}
use unit3d_announce.Store.{Stores}
use unit3d_announce.Announce.State.{App}
use unit3d_announce.Api.{Reply, success}
use unit3d_announce.Api.Torrents.{ApiInsertTorrent, upsert_torrent, destroy_torrent}
use unit3d_announce.Api.Users.{ApiInsertUser, upsert_user, destroy_user}
use unit3d_announce.Api.Sets.{
  ApiInsertGroup, upsert_group, destroy_group, upsert_agent, destroy_agent, upsert_featured_torrent,
  destroy_featured_torrent, upsert_freeleech_token, destroy_freeleech_token,
  upsert_personal_freeleech, destroy_personal_freeleech,
}

-- `put` or `delete` at a path, with the body.
pub data Call : Type 0 where
  put_torrents : ApiInsertTorrent → Call
  delete_torrents : ℕ → Call
  put_users : ApiInsertUser → Call
  delete_users : ℕ → List ℕ → Call
  put_groups : ApiInsertGroup → Call
  delete_groups : ℤ → Call
  put_blacklisted_agents : List ℕ → Call
  delete_blacklisted_agents : List ℕ → Call
  put_freeleech_tokens : ℕ × ℕ → Call
  delete_freeleech_tokens : ℕ × ℕ → Call
  put_personal_freeleech : ℕ → Call
  delete_personal_freeleech : ℕ → Call
  put_featured_torrents : ℕ → Call
  delete_featured_torrents : ℕ → Call

module _ {F : Type 0} where
  -- An endpoint of a set answers OK.
  abbrev pub on_stores : (Stores F → Stores F) → App F → Reply × App F
  on_stores change app = (success, record app { stores = change app.stores })

  unfoldable pub respond : Config F → Call → App F → Reply × App F
  unfolding upsert_torrent destroy_torrent upsert_user destroy_user upsert_group destroy_group
      upsert_agent destroy_agent upsert_freeleech_token destroy_freeleech_token
      upsert_personal_freeleech destroy_personal_freeleech upsert_featured_torrent
      destroy_featured_torrent
  respond config (put_torrents torrent) = upsert_torrent torrent
  respond config (delete_torrents id) = destroy_torrent id
  respond config (put_users user) = upsert_user config user
  respond config (delete_users id passkey) = destroy_user id passkey
  respond config (put_groups group) = upsert_group group
  respond config (delete_groups id) = destroy_group id
  respond config (put_blacklisted_agents agent) = on_stores (upsert_agent agent)
  respond config (delete_blacklisted_agents agent) = on_stores (destroy_agent agent)
  respond config (put_freeleech_tokens token) = on_stores (upsert_freeleech_token token)
  respond config (delete_freeleech_tokens token) = on_stores (destroy_freeleech_token token)
  respond config (put_personal_freeleech user_id) = on_stores (upsert_personal_freeleech user_id)
  respond config (delete_personal_freeleech user_id) =
      on_stores (destroy_personal_freeleech user_id)
  respond config (put_featured_torrents id) = on_stores (upsert_featured_torrent id)
  respond config (delete_featured_torrents id) = on_stores (destroy_featured_torrent id)
