-- ===== src/Api/Torrents/Removed.antt =====
-- A torrent that src/api/torrent.rs has removed has no answers.
use unit3d_announce.Prelude.{
  ℕ, ◌≡◌, ◌≢◌, refl, true, some, List, arith, Option-cases, inl, inr, ==_iff,
}
use unit3d_announce.Prelude.Eq.{nat_eq, bytes_eq}
use unit3d_announce.Prelude.Map.{lookup}
use unit3d_announce.Prelude.Map.Laws.{lookup-modify_same}
use unit3d_announce.Config.{Config}
use unit3d_announce.Rate.{Float}
use unit3d_announce.Error.Result.{ok}
use unit3d_announce.Store.Torrent.{Torrent}
use unit3d_announce.Announce.State.{App, World}
use unit3d_announce.Announce.Request.{Request}
use unit3d_announce.Announce.Answered.{announce-Allowed, Allowed}
use unit3d_announce.Announce.{announce}
use unit3d_announce.Api.Torrents.{deleted, destroy_torrent}

module _ {F : Type 0} where
  -- What `destroy` leaves under the id is deleted.
  destroy_torrent-deleted :
      (id : ℕ) (app : App F) (t : Torrent)
      → lookup id (destroy_torrent id app).1.stores.torrents ≡ some t
      → t.is_deleted ≡ true
  unfolding destroy_torrent
  destroy_torrent-deleted id app t = elim (Option-cases (lookup id app.stores.torrents)) [
    | inl missing ↦ rw (missing, destroy_torrent) (λ h. ground (arith, missing, h))
    | inr (u, there) ↦
        rw (there, destroy_torrent)
          (λ h. ground (
            arith,
            h,
            lookup-modify_same id id deleted app.stores.torrents u ((==_iff id id).1 refl) there,
          ))
  ]

  destroy_torrent-infohash2id :
      (id : ℕ) (app : App F)
      → (destroy_torrent id app).1.stores.infohash2id ≡ app.stores.infohash2id
  unfolding destroy_torrent
  destroy_torrent-infohash2id id app = elim (Option-cases (lookup id app.stores.torrents)) [
    | inl missing ↦ rw (missing, destroy_torrent) refl
    | inr (u, there) ↦ rw (there, destroy_torrent) refl
  ]

  -- After a `destroy` of a torrent, no announce whose info hash leads to it is answered with peers.
  pub destroy_torrent-announce :
      ⦃f : Float F⦄ (config : Config F) (w : World F) (r : Request) (id : ℕ) (app : App F)
      (out : List ℕ)
      → lookup r.queries.info_hash app.stores.infohash2id ≡ some id
      → (announce config w r (destroy_torrent id app).1).0 ≢ ok out
  destroy_torrent-announce config w r id app out known h =
      refused (announce-Allowed config w r (destroy_torrent id app).1 h)
    where
      refused : Allowed r (destroy_torrent id app).1.stores → ⊥
      refused a =
          let same = destroy_torrent-infohash2id id app in
          let known' = a.torrent_known in
          let id' : a.torrent_id ≡ id = ground (arith, rw same at known', known) in
          let e = destroy_torrent-deleted id app a.torrent (rw id' at a.torrent_there) in
          let d = a.not_deleted in ground (arith, e, d)
