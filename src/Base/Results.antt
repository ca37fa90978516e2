-- ===== src/Base/Results.antt =====
-- Calls that can fail: Go's `(value, error)`.
use mathlib.Core.Path.{◌≡◌, refl, ap}
use mathlib.Core.Logic.{◌⊎◌, inl, inr}

pub data Result {ℓ κ} (E : Type κ) (A : Type ℓ) : Type (ℓ ⊔ κ) where
  ok : A → Result E A
  err : E → Result E A

pub Result-cases {ℓ κ} :
    {E : Type κ} {A : Type ℓ} (r : Result E A) → ((a : A) × (r ≡ ok a)) ⊎ ((e : E) × (r ≡ err e))
Result-cases (ok a) = inl (a, refl)
Result-cases (err e) = inr (e, refl)

module _ {E A : Type 0} where
  ok_value : A → Result E A → A
  ok_value x (ok a) = a
  ok_value x (err e) = x

  pub ok-injective : {x y : A} → Path (Result E A) (ok x) (ok y) → x ≡ y
  unfolding ok_value
  ok-injective {x} h = ap (ok_value x) h
