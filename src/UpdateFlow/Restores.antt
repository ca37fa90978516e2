-- ===== src/UpdateFlow/Restores.antt =====
-- internal/updateflow/updateflow.go, `rollback`: what is back when the rollback is complete.
use villa_straylight.Base.{
  ◌≡◌, ◌∙◌, String, true, false, Option, none, some, List, arith, is_some, refl, Bool, ◌⊎◌, inl,
  inr,
}
use villa_straylight.Subsystem.{Kind}
use villa_straylight.PinState.{DataSnapshot, taken}
use villa_straylight.UpdateFlow.{Error, Capture, Proof, Deps, Outcome, SubsystemResult}
use villa_straylight.UpdateFlow.Steps.{
  call_if_wired, prove_rollback, reopen, rollback_pins, rollback_data, rollback, fresh_budget,
}

module _ {W P D : Type 0} (pins_of : W → P) (data_of : W → D) (p₀ : P) (d₀ : D) where
  -- The pins are `p₀` and the data volume is `d₀`.
  pub record Back (w : W) : Type 0 where
    pub pins : pins_of w ≡ p₀
    pub volume : data_of w ≡ d₀

module _ {Ctx W P D : Type 0} (d : Deps Ctx W) (pins_of : W → P) (data_of : W → D) (k : Kind)
    (cap : Capture) (p₀ : P) (d₀ : D) where
  -- What a rollback of `k` to the capture `cap`, of pins `p₀` and data `d₀`, relies on.
  pub record Recovers : Type 0 where
    pub pins_back :
        (c : Ctx) (rs : List String) (v : W)
        → (d.restore c k cap rs v).0 ≡ none
        → pins_of (d.restore c k cap rs v).1 ≡ p₀
    pub volume_kept :
        (c : Ctx) (rs : List String) (v : W) → data_of (d.restore c k cap rs v).1 ≡ data_of v
    pub start_pins :
        (c : Ctx) (w : W) → pins_of w ≡ p₀ → pins_of (call_if_wired d.start c k w).1 ≡ p₀
    pub start_volume :
        (c : Ctx) (w : W) → pins_of w ≡ p₀ → data_of (call_if_wired d.start c k w).1 ≡ data_of w
    pub prove_pins :
        (f : Ctx → Kind → W → Proof × W)
        → d.prove_restored ≡ some f
        → (c : Ctx) (w : W) → pins_of (f c k w).1 ≡ pins_of w
    pub prove_volume :
        (f : Ctx → Kind → W → Proof × W)
        → d.prove_restored ≡ some f
        → (c : Ctx) (w : W) → data_of (f c k w).1 ≡ data_of w
    pub volume_back :
        (g : Ctx → Kind → DataSnapshot → W → Option Error × W)
        → d.restore_data ≡ some g
        → (c : Ctx) (v : W) → (g c k cap.snapshot v).0 ≡ none
        → data_of (g c k cap.snapshot v).1 ≡ d₀

  module _ (r : Recovers) (c : Ctx) (sr : SubsystemResult) (cause : Option Error)
      (is_k : sr.subsystem ≡ k) where
    prove_rollback-Back :
        (o : Option (Ctx → Kind → W → Proof × W))
        → d.prove_restored ≡ o
        → (w : W) → Back pins_of data_of p₀ d₀ w
        → Back pins_of data_of p₀ d₀ (prove_rollback o c sr cause w).1
    unfolding prove_rollback
    prove_rollback-Back none s w h = h
    prove_rollback-Back (some f) s w h = rw is_k (record {
      pins = r.prove_pins f s c w ∙ h.pins;
      volume = r.prove_volume f s c w ∙ h.volume;
    })

    reopen-Back :
        (w : W)
        → Back pins_of data_of p₀ d₀ w
        → (reopen d c sr cause true w).0.rollback_incomplete ≡ false
        → Back pins_of data_of p₀ d₀ (reopen d c sr cause true w).1
    unfolding reopen
    reopen-Back w h e = ground (
      arith,
      r.start_pins c w,
      r.start_volume c w,
      prove_rollback-Back d.prove_restored refl (call_if_wired d.start c k w).1,
    )

    rollback_pins-Back :
        (rs : List String) (b : Bool) (w : W)
        → data_of w ≡ d₀
        → (rollback_pins d c sr cap rs cause b w).0.rollback_incomplete ≡ false
        → Back pins_of data_of p₀ d₀ (rollback_pins d c sr cap rs cause b w).1
    unfolding rollback_pins reopen
    rollback_pins-Back rs true w h e =
        ground
          (arith, r.pins_back c rs w, r.volume_kept c rs w, reopen-Back (d.restore c k cap rs w).1)
    rollback_pins-Back rs false w h e = ground (
      arith,
      r.pins_back c rs w,
      r.volume_kept c rs w,
      prove_rollback-Back d.prove_restored refl (d.restore c k cap rs w).1,
    )

    rollback_data-Back :
        (rs : List String) (w : W) (o : Option (Ctx → Kind → DataSnapshot → W → Option Error × W))
        → d.restore_data ≡ o
        → (is_some o ≡ true) ⊎ (data_of w ≡ d₀)
        → (rollback_data d c sr cap rs cause o w).0.rollback_incomplete ≡ false
        → Back pins_of data_of p₀ d₀ (rollback_data d c sr cap rs cause o w).1
    unfolding rollback_data
    rollback_data-Back rs w none s wired e = ground (arith, rollback_pins-Back rs false w)
    rollback_data-Back rs w (some g) s wired e =
        let v = (call_if_wired d.stop c k w).1 in
        ground (arith, r.volume_back g s c v, rollback_pins-Back rs true (g c k cap.snapshot v).1)

  -- The data can be imported, or is `d₀` in every state.
  abbrev pub IsCovered : Type 0
  IsCovered =
      (taken cap.snapshot ≡ true) × (is_some d.restore_data ≡ true) ⊎ ((w : W) → data_of w ≡ d₀)

  -- A complete rollback has the pins back and the data back, whether the snapshot had to be
  -- imported or the data was never touched.
  pub rollback-Back :
      (r : Recovers) (c : Ctx) (sr : SubsystemResult) (rs : List String) (p : Proof)
      (outcome : Outcome) (cause : Option Error) (step : String) (w : W)
      → sr.subsystem ≡ k
      → IsCovered
      → (rollback d c sr cap rs p outcome cause step w).0.rollback_incomplete ≡ false
      → Back pins_of data_of p₀ d₀ (rollback d c sr cap rs p outcome cause step w).1
  unfolding rollback
  rollback-Back r c sr rs p outcome cause step w is_k covered e =
      let c' : Ctx = fresh_budget d c sr.subsystem in
      let sr' : SubsystemResult = record sr {
        outcome = outcome;
        proof = p;
        err = cause;
        failed_step = step;
      } in
      elim covered [
        | inl t ↦ ground (arith, rollback_data-Back r c' sr' cause is_k rs w d.restore_data refl)
        | inr t ↦ ground (
          arith,
          t w,
          rollback_data-Back r c' sr' cause is_k rs w d.restore_data refl,
          rollback_pins-Back r c' sr' cause is_k rs false w,
        )
      ]
