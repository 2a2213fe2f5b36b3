-- ===== src/Error/Result.antt =====
-- The results of the handler `announce` in src/announce.rs.
use unit3d_announce.Prelude.{arith, ◌≡◌, refl, ◌⊎◌, inl, inr, Option, none, some}
use unit3d_announce.Error.{AnnounceError}

-- The handler returns a value, returns an error of the announce, or panics.
pub data Result {ℓ} (A : Type ℓ) : Type ℓ where
  ok : A → Result A
  err : AnnounceError → Result A
  panic : Result A

infixl 5 ◌>>=◌
abbrev pub ◌>>=◌ {ℓ κ} : {A : Type ℓ} {B : Type κ} → Result A → (A → Result B) → Result B
panic >>= next = panic
err e >>= next = err e
ok x >>= next = next x

-- `ok_or`
abbrev pub ok_or {ℓ} : {A : Type ℓ} → AnnounceError → Option A → Result A
ok_or e none = err e
ok_or e (some x) = ok x

pub Result-cases {ℓ} :
    {A : Type ℓ} (x : Result A)
    → ((a : A) × (x ≡ ok a)) ⊎ (((e : AnnounceError) × (x ≡ err e)) ⊎ (x ≡ panic))
Result-cases (ok a) = inl (a, refl)
Result-cases (err e) = inr (inl (e, refl))
Result-cases panic = inr (inr refl)

-- A chain that returns a value has a first step that does.
pub >>=-eq-ok {ℓ κ} :
    {A : Type ℓ} {B : Type κ} {out : B} (step : Result A) (next : A → Result B)
    → (step >>= next) ≡ ok out
    → (mid : A) × (step ≡ ok mid) × (next mid ≡ ok out)
>>=-eq-ok panic next h = absurd (ground arith)
>>=-eq-ok (err e) next h = absurd (ground arith)
>>=-eq-ok (ok mid) next h = (mid, refl, h)
