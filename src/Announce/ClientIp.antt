-- ===== src/Announce/ClientIp.antt =====
-- `ClientIp::from_request_parts` of src/announce.rs: the address that a request comes from.
use unit3d_announce.Prelude.{
  ℕ, ◌≡◌, refl, true, Option, none, some, List, [], ◌∷◌, ◌++◌, arith, ◌==◌, Bool-cases, inl, inr,
}
use unit3d_announce.Prelude.Parse.{split}
use unit3d_announce.Model.{IpAddr}
use unit3d_announce.Config.{Config}
use unit3d_announce.Error.{AnnounceError}
use unit3d_announce.Error.Result.{Result, ok, ◌>>=◌, ok_or}
use unit3d_announce.Announce.Query.Positions.{Without}

-- `Iterator::last`
unfoldable pub last {ℓ} : {A : Type ℓ} → List A → Option A
last [] = none
last (x ∷ []) = some x
last (x ∷ y ∷ xs) = last (y ∷ xs)

-- `split(',').last()`; there is always a part.
unfoldable pub last_part : List ℕ → List ℕ
unfolding split last
last_part text =
    let (part, parts) = split b',' text in elim (last parts) [ none ↦ part | some found ↦ found ]

-- The values of a header are texts where `to_str` succeeds, and `parse_ip` trims and parses. The
-- connection may have no address.
unfoldable pub client_ip :
    {F : Type 0}
    → Config F
    → (List ℕ → Option IpAddr)
    → (List ℕ → List (Option (List ℕ)))
    → Option IpAddr
    → Result IpAddr
unfolding last last_part
client_ip config parse_ip get_all connecting = elim config.reverse_proxy_client_ip_header_name [
  | some header ↦ do
    value ← ok_or AnnounceError.internal_tracker_error (last (get_all header))
    text ← ok_or AnnounceError.internal_tracker_error value
    ok_or AnnounceError.internal_tracker_error (parse_ip (last_part text))
  | none ↦ ok_or AnnounceError.internal_tracker_error connecting
]

last-append {ℓ} : {A : Type ℓ} (xs : List A) (x : A) → last (xs ++ (x ∷ [])) ≡ some x
unfolding last
last-append [] x = refl
last-append (y ∷ []) x = refl
last-append (y ∷ z ∷ xs) x = last-append (z ∷ xs) x

split_none : (c : ℕ) (s : List ℕ) → Without c s → split c s ≡ (s, [])
unfolding split
split_none c [] h = refl
split_none c (x ∷ s) h = rw (h.0, split_none c s h.1) refl

-- The parts of a text to which a part is appended.
split-append :
    (c : ℕ) (s own : List ℕ)
    → Without c own
    → split c (s ++ (c ∷ own)) ≡ ((split c s).0, (split c s).1 ++ (own ∷ []))
unfolding split
split-append c [] own h =
    let hit : (c == c) ≡ true = ground arith in rw (hit, split_none c own h) refl
split-append c (x ∷ s) own h = elim (Bool-cases (x == c)) [
  | inl hit ↦ rw (hit, split-append c s own h) refl
  | inr miss ↦ rw (miss, split-append c s own h) refl
]

last_part-append : (s own : List ℕ) → Without b',' own → last_part (s ++ (b',' ∷ own)) ≡ own
unfolding last_part
last_part-append s own h =
    rw (split-append b',' s own h, last-append (split b',' s).1 own, last_part) refl

-- Behind a proxy that appends the address to the last header, this address is taken, whatever the
-- client has sent: earlier headers, and a text in the same header.
pub client_ip-append :
    {F : Type 0} (config : Config F) (parse_ip : List ℕ → Option IpAddr)
    (get_all : List ℕ → List (Option (List ℕ))) (connecting : Option IpAddr)
    (header sent own : List ℕ) (before : List (Option (List ℕ))) (ip : IpAddr)
    → config.reverse_proxy_client_ip_header_name ≡ some header
    → get_all header ≡ before ++ (some (sent ++ (b',' ∷ own)) ∷ [])
    → Without b',' own
    → parse_ip own ≡ some ip
    → client_ip config parse_ip get_all connecting ≡ ok ip
unfolding client_ip
client_ip-append config parse_ip get_all connecting header sent own before ip e h w p =
    rw
      (
        e,
        client_ip,
        h,
        last-append before (some (sent ++ (b',' ∷ own))),
        last_part-append sent own w,
        p,
      )
      refl
