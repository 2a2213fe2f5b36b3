-- ===== src/Prelude/Outcome.antt =====
-- What a fallible Rust function does: it returns a value, returns an error, or panics. The errors
-- of `anyhow` carry a message that no caller reads, so they are one value here.
use mathlib.Core.Path.{subst}
use unit3d_announce.Prelude.{
  ℕ, ◌≡◌, refl, ◌⊎◌, inl, inr, Option, none, some, List, get_elem?, arith,
}

pub data Outcome {ℓ} (A : Type ℓ) : Type ℓ where
  ok : A → Outcome A
  bail : Outcome A
  panic : Outcome A

infixl 5 ◌>>=◌
abbrev pub ◌>>=◌ {ℓ κ} : {A : Type ℓ} {B : Type κ} → Outcome A → (A → Outcome B) → Outcome B
panic >>= next = panic
bail >>= next = bail
ok x >>= next = next x

-- `unreachable!()` and `unwrap()` on the missing case.
abbrev pub expect {ℓ} : {A : Type ℓ} → Option A → Outcome A
expect none = panic
expect (some x) = ok x

-- `xs[i]`, which panics out of bounds.
abbrev pub index {ℓ} : {A : Type ℓ} → List A → ℕ → Outcome A
index xs i = expect (get_elem? xs i)

pub Outcome-cases {ℓ} :
    {A : Type ℓ} (x : Outcome A) → ((a : A) × (x ≡ ok a)) ⊎ ((x ≡ bail) ⊎ (x ≡ panic))
Outcome-cases (ok a) = inl (a, refl)
Outcome-cases bail = inr (inl refl)
Outcome-cases panic = inr (inr refl)

-- A chain that returns a value has a first step that does.
pub >>=-eq-ok {ℓ κ} :
    {A : Type ℓ} {B : Type κ} {out : B} (step : Outcome A) (next : A → Outcome B)
    → (step >>= next) ≡ ok out
    → (mid : A) × (step ≡ ok mid) × (next mid ≡ ok out)
>>=-eq-ok panic next h = absurd (ground arith)
>>=-eq-ok bail next h = absurd (ground arith)
>>=-eq-ok (ok mid) next h = (mid, refl, h)

-- What holds of the value that is returned, if one is.
pub data Holds {A : Type 0} (P : A → Type 0) : Outcome A → Type 0 where
  returned : (x : A) → P x → Holds P (ok x)
  failed : Holds P bail
  died : Holds P panic

pub then-Holds :
    {A B : Type 0} {P : A → Type 0} {Q : B → Type 0} {next : A → Outcome B} (step : Outcome A)
    → Holds P step
    → ((x : A) → P x → Holds Q (next x))
    → Holds Q (step >>= next)
then-Holds step (Holds.returned x p) h = h x p
then-Holds step Holds.failed h = Holds.failed
then-Holds step Holds.died h = Holds.died

-- A step of which nothing is said.
pub after-Holds :
    {A B : Type 0} {Q : B → Type 0} {next : A → Outcome B} (step : Outcome A)
    → ((x : A) → Holds Q (next x))
    → Holds Q (step >>= next)
after-Holds (ok x) h = h x
after-Holds bail h = Holds.failed
after-Holds panic h = Holds.died

pub Holds-ok :
    {A : Type 0} {P : A → Type 0} (out : Outcome A) (x : A) → Holds P out → out ≡ ok x → P x
Holds-ok {P = P} _ x (Holds.returned y p) h = subst P (ground arith) p
Holds-ok _ x Holds.failed h = absurd (ground arith)
Holds-ok _ x Holds.died h = absurd (ground arith)
