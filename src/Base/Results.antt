-- ===== src/Base/Results.antt =====
-- A Go function that returns a value and an error.
use mathlib.Core.Path.{◌≡◌, refl}
use mathlib.Core.Logic.{◌⊎◌, inl, inr}

pub data Result {ℓ κ} (E : Type κ) (A : Type ℓ) : Type (ℓ ⊔ κ) where
  ok : A → Result E A
  err : E → Result E A

infixl 5 ◌>>=◌
abbrev pub ◌>>=◌ {κ ℓ μ} :
    {F : Type κ} {V : Type ℓ} {W : Type μ} → Result F V → (V → Result F W) → Result F W
err why >>= next = err why
ok v >>= next = next v

-- A chain that succeeds went through a first value.
pub >>=_inverse {κ ℓ μ} :
    {F : Type κ} {V : Type ℓ} {W : Type μ} {w : W} (first : Result F V) (next : V → Result F W)
    → (first >>= next) ≡ ok w
    → (v : V) × (first ≡ ok v) × (next v ≡ ok w)
>>=_inverse (err why) next done = absurd (cc done)
>>=_inverse (ok v) next done = (v, refl, done)

pub Result-cases {ℓ κ} :
    {E : Type κ} {A : Type ℓ} (m : Result E A) → ((a : A) × (m ≡ ok a)) ⊎ ((e : E) × (m ≡ err e))
Result-cases (ok a) = inl (a, refl)
Result-cases (err e) = inr (e, refl)
