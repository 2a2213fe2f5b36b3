-- ===== src/Announce/Credit.antt =====
-- The part of `announce` in src/announce.rs that credits the transfer: the factors of the
-- configuration, the group, the torrent and the user, freeleech and features.
use unit3d_announce.Prelude.{
  ℕ, ◌+◌, ◌*◌, ◌/◌, ◌%◌, ◌≤◌, ◌≡◌, Bool, true, ◌||◌, Option, none, some, min, max, arith,
  if◌then◌else◌,
}
use native.Mathlib.Nat.{mul-le-mul_right, mod-le}
use unit3d_announce.Prelude.Eq.{nat_eq}
use unit3d_announce.Prelude.Word.{u64_max}
use unit3d_announce.Prelude.Map.{contains_key}
use unit3d_announce.Config.{Config}
use unit3d_announce.Store.{Stores}
use unit3d_announce.Store.Torrent.{Torrent}
use unit3d_announce.Store.User.{User, Group}
use unit3d_announce.Queue.Updates.{pair_eq}

-- `if let Some(x) = option { factor = max(factor, x) }`, and the same with `min`.
unfoldable pub raised : Option ℕ → ℕ → ℕ
raised none factor = factor
raised (some x) factor = max factor x

unfoldable pub lowered : Option ℕ → ℕ → ℕ
lowered none factor = factor
lowered (some x) factor = min factor x

module _ {F : Type 0} (config : Config F) where
  unfoldable pub upload_factor : User F → Group → Torrent → ℕ
  unfolding raised
  upload_factor user group torrent =
      let factor = max config.upload_factor (max group.upload_factor torrent.upload_factor) in
      if user.is_lifetime
      then raised config.lifetime_donor_upload_factor_override factor
      else if user.is_donor
      then raised config.donor_upload_factor_override factor
      else factor

  unfoldable pub download_factor : User F → Group → Torrent → ℕ
  unfolding lowered
  download_factor user group torrent =
      let factor = min config.download_factor (min group.download_factor torrent.download_factor) in
      if user.is_lifetime
      then lowered config.lifetime_donor_download_factor_override factor
      else if user.is_donor
      then lowered config.donor_download_factor_override factor
      else factor

  -- Is the history immune to hit and run warnings?
  unfoldable pub is_immune : User F → Group → Bool
  is_immune user group =
      if user.is_lifetime
      then elim config.lifetime_donor_immunity_override [ none ↦ group.is_immune | some b ↦ b ]
      else if user.is_donor
      then elim config.donor_immunity_override [ none ↦ group.is_immune | some b ↦ b ]
      else group.is_immune

module _ {F : Type 0} (stores : Stores F) (user_id torrent_id : ℕ) where
  unfoldable pub is_freeleech : Bool
  is_freeleech =
      contains_key user_id stores.personal_freeleeches
      || contains_key (user_id, torrent_id) stores.freeleech_tokens
      || contains_key torrent_id stores.featured_torrents

  unfoldable pub final_download_factor : ℕ → ℕ
  unfolding is_freeleech
  final_download_factor factor = if is_freeleech then 0 else factor

  unfoldable pub final_upload_factor : ℕ → ℕ
  final_upload_factor factor =
      if contains_key torrent_id stores.featured_torrents then 200 else factor

-- `factor as u64 * delta / 100`, where the product wraps around.
unfoldable pub credited : ℕ → ℕ → ℕ
credited factor delta = factor * delta % (u64_max + 1) / 100

scale_le : (a b delta : ℕ) → a ≤ b → a * delta ≤ b * delta
scale_le a b delta h = mul-le-mul_right delta h

credited-le : (factor delta : ℕ) → factor ≤ 100 → credited factor delta ≤ delta
unfolding credited
credited-le factor delta h =
    omega (arith, mod-le (factor * delta) (u64_max + 1), scale_le factor 100 delta h)

credited-ge :
    (factor delta : ℕ) → 100 ≤ factor → factor * delta ≤ u64_max → delta ≤ credited factor delta
unfolding credited
credited-ge factor delta h b = omega (arith, scale_le 100 factor delta h)

module _ {F : Type 0} (config : Config F) (user : User F) (group : Group) (torrent : Torrent)
    (stores : Stores F) (user_id torrent_id : ℕ) where
  abbrev download : ℕ
  download =
      final_download_factor stores user_id torrent_id (download_factor config user group torrent)

  abbrev upload : ℕ
  upload = final_upload_factor stores user_id torrent_id (upload_factor config user group torrent)

  download-most :
      download ≤ min config.download_factor (min group.download_factor torrent.download_factor)
  unfolding download_factor lowered final_download_factor
  download-most = ground arith

  upload-least :
      max config.upload_factor (max group.upload_factor torrent.upload_factor) ≤ 200
      → max config.upload_factor (max group.upload_factor torrent.upload_factor) ≤ upload
  unfolding upload_factor raised final_upload_factor
  upload-least h = ground arith

  -- A download is credited with no more than was transferred where a factor of the configuration,
  -- the group or the torrent is at most 100 percent.
  pub credited-download :
      (delta : ℕ)
      → min config.download_factor (min group.download_factor torrent.download_factor) ≤ 100
      → credited download delta ≤ delta
  credited-download delta h = credited-le download delta (omega (arith, download-most, h))

  -- A download is credited with nothing where the user has a personal freeleech or a token for the
  -- torrent, or the torrent is featured.
  pub credited-freeleech :
      (delta : ℕ) → is_freeleech stores user_id torrent_id ≡ true → credited download delta ≡ 0
  unfolding final_download_factor credited
  credited-freeleech delta h = ground arith

  -- An upload is credited with no less than was transferred where a factor of the configuration,
  -- the group or the torrent is at least 100 percent, they are at most 200, and the product of the
  -- factor and the transfer fits in 64 bits.
  pub credited-upload :
      (delta : ℕ)
      → 100 ≤ max config.upload_factor (max group.upload_factor torrent.upload_factor)
      → max config.upload_factor (max group.upload_factor torrent.upload_factor) ≤ 200
      → upload * delta ≤ u64_max
      → delta ≤ credited upload delta
  credited-upload delta h top fits =
      credited-ge upload delta (omega (arith, h, upload-least top)) fits
