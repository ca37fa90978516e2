-- ===== src/StackApply/Changes.antt =====
-- internal/stackapply/transact.go, `Change`: what the changes of the swap verbs have in common, and a
-- switch together with what such a change has checked.
use villa_straylight.Base.{◌≡◌, subst, true, false, Option, none, some, arith}
use villa_straylight.Config.{VillaConfig}
use villa_straylight.StackApply.{Outcome, TxDeps, Change}
use villa_straylight.StackApply.Transact.{transact}
use villa_straylight.StackApply.Cutover.{IsSwitch, transact-IsSwitch}

module _ {R W : Type 0} where
  -- A stop claims no switch; a target satisfies `P`.
  abbrev pub Sound : (VillaConfig → W → Type 0) → (VillaConfig × Option Outcome) × R × W → Type 0
  Sound P ((next, some stop), r, w) = stop.switched ≡ false
  Sound P ((next, none), r, w) = P next w

  pub Sound-stop :
      (P : VillaConfig → W → Type 0) (x : (VillaConfig × Option Outcome) × R × W) (stop : Outcome)
      → Sound P x
      → x.0.1 ≡ some stop
      → stop.switched ≡ false
  Sound-stop P ((next, none), r, w) stop h e = absurd (ground (arith, e))
  Sound-stop P ((next, some s), r, w) stop h e = ground (arith, h, e)

module _ {Lock W R : Type 0} (d : TxDeps Lock W) where
  -- A switch of the frame, with what holds of the target that it went to.
  abbrev pub SwitchTo :
      Change R W → (VillaConfig → W → VillaConfig → Type 0) → R → W → Outcome × R × W → Type 0
  SwitchTo change P r w x = (s : IsSwitch d change r w x.0 x.2) × P s.prior s.w2 s.next

  pub switch-to :
      (change : Change R W) (P : VillaConfig → W → VillaConfig → Type 0)
      → ((prior : VillaConfig) (r : R) (w : W)
          → Sound (λ next v. P prior w next) (change prior r w))
      → (r : R) (w : W) → (transact d change r w).0.switched ≡ true
      → SwitchTo change P r w (transact d change r w)
  switch-to change P sound r w h =
      let s =
        transact-IsSwitch d change
          (λ c r w stop e. Sound-stop (λ next v. P c w next) (change c r w) stop (sound c r w) e) r
          w h in
      (s, subst (Sound (λ next v. P s.prior s.w2 next)) s.targets (sound s.prior r s.w2))
