-- ===== src/Announce/Answer/Choice.antt =====
-- How the two draws of an answer divide the peers that src/announce.rs can list.
use mathlib.Core.List.{Perm}
use mathlib.Core.List.Perm
use unit3d_announce.Prelude.{Bool, not, List, [], ◌∷◌, ◌++◌, Bool-cases, inl, inr}
use unit3d_announce.Store.Peer.{Index, Peer, PeerStore}
use unit3d_announce.Announce.Answer.{filter}

module _ {ℓ} {A : Type ℓ} where
  middle : (x : A) (ys zs : List A) → Perm (ys ++ x ∷ zs) (x ∷ (ys ++ zs))
  middle x [] zs = Perm.refl (x ∷ zs)
  middle x (y ∷ ys) zs = Perm.trans (Perm.cons y (middle x ys zs)) (Perm.swap x y (ys ++ zs))

  -- The second and the third of four parts trade places.
  pub interchange :
      (al bl cl dl : List A) → Perm ((al ++ bl) ++ (cl ++ dl)) ((al ++ cl) ++ (bl ++ dl))
  interchange [] bl [] dl = Perm.refl (bl ++ dl)
  interchange [] bl (c ∷ cl) dl =
      Perm.trans (middle c bl (cl ++ dl)) (Perm.cons c (interchange [] bl cl dl))
  interchange (a ∷ al) bl cl dl = Perm.cons a (interchange al bl cl dl)

-- The entries that pass a test and those that do not are all.
pub filter-Perm :
    (test : Index × Peer → Bool) (es : PeerStore)
    → Perm (filter test es ++ filter (λ e. not (test e)) es) es
unfolding filter
filter-Perm test [] = Perm.refl []
filter-Perm test (e ∷ es) = elim (Bool-cases (test e)) [
  | inl yes' ↦ rw yes' (Perm.cons e (filter-Perm test es))
  | inr no' ↦ rw no' (
      Perm.trans (middle e (filter test es) (filter (λ e. not (test e)) es))
        (Perm.cons e (filter-Perm test es)))
]
