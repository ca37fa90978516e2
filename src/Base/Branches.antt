-- ===== src/Base/Branches.antt =====
-- What holds of both branches of a test holds of the test.
use mathlib.Core.Path.{◌≡◌, refl}
use mathlib.Core.Bool.{Bool, true, false}
use villa_straylight.Base.Tests.{if◌then◌else◌}

module _ {A : Type 0} (P : A → Type 0) where
  pub if_both : (b : Bool) {x y : A} → P x → P y → P (if b then x else y)
  if_both true h k = h
  if_both false h k = k

  -- Each branch with the outcome of its test.
  pub if_cases :
      (b : Bool) {x y : A} → (b ≡ true → P x) → (b ≡ false → P y) → P (if b then x else y)
  if_cases true h k = h refl
  if_cases false h k = k refl
