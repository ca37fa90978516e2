-- ===== src/UpdateFlow/NoChange.antt =====
-- internal/updateflow/updateflow.go, `runOne`: an update that does not commit leaves the host as it
-- was, on a host whose seams do what their comments say.
use villa_straylight.Base.{
  ◌≡◌, ◌∙◌, refl, true, false, Option, none, some, arith, is_some, inl, inr, ok, err, Result,
}
use villa_straylight.Subsystem.{Kind, owns_persistent_state}
use villa_straylight.PinState.{DataSnapshot}
use villa_straylight.UpdateFlow.{
  Error, Capture, Deps, SubsystemResult, Target, is_committed, new_result,
}
use villa_straylight.UpdateFlow.Steps.{call_if_wired, with_budget}
use villa_straylight.UpdateFlow.Run.{
  pull_pins, mutate_stopped, after_snapshot, snapshot_stopped, run_window, run_stateful_mutation,
  run_stateless_mutation, pull_and_mutate, after_capture, run_one,
}
use villa_straylight.UpdateFlow.Host.{Lawful}
use villa_straylight.UpdateFlow.Restores.{Recovers, Back}
use villa_straylight.UpdateFlow.Mutated.{moved-Back, stateless-Back}

module _ {Ctx W P D : Type 0} (d : Deps Ctx W) (pins_of : W → P) (data_of : W → D) (t : Target)
    (w₀ : W) (h : Lawful d pins_of data_of t.subsystem w₀) where
  -- The laws of the host, read for one capture taken where the pins are those of `w₀`.
  recovers :
      (w : W) (cap : Capture)
      → (d.capture_state t.subsystem w).0 ≡ ok cap
      → pins_of w ≡ pins_of w₀
      → (s : DataSnapshot)
      → ((g : Ctx → Kind → DataSnapshot → W → Option Error × W)
          → d.restore_data ≡ some g
          → (c : Ctx) (v : W) → (g c t.subsystem s v).0 ≡ none
          → data_of (g c t.subsystem s v).1 ≡ data_of w₀)
      → Recovers d pins_of data_of t.subsystem
          (record cap { snapshot = s })
          (pins_of w₀)
          (data_of w₀)
  recovers w cap captured same s back = record {
    pins_back = λ c rs v e. h.restore_pins w cap captured s c rs v e ∙ same;
    volume_kept = λ c rs v. h.restore_volume c (record cap { snapshot = s }) rs v;
    start_pins = λ c v e. (h.start_same c v e).pins ∙ e;
    start_volume = λ c v e. (h.start_same c v e).volume;
    prove_pins = λ f e c v. (h.prove_restored_same f e c v).pins;
    prove_volume = λ f e c v. (h.prove_restored_same f e c v).volume;
    volume_back = back;
  }

  module _ (w₁ : W) (cap : Capture) (captured : (d.capture_state t.subsystem w₁).0 ≡ ok cap)
      (same : pins_of w₁ ≡ pins_of w₀) (c : Ctx) (sr : SubsystemResult)
      (is_k : sr.subsystem ≡ t.subsystem) where
    module _ (f : Ctx → Kind → W → Result Error DataSnapshot × W) (is_f : d.snapshot_data ≡ some f)
        (wired : is_some d.restore_data ≡ true) (w : W)
        (b : Back pins_of data_of (pins_of w₀) (data_of w₀) w) where
      taken-Back :
          (s : DataSnapshot)
          → (f c t.subsystem w).0 ≡ ok s
          → let r =
              mutate_stopped d c
                (record sr { snapshot = s })
                (record cap { snapshot = s })
                t
                (f c t.subsystem w).1 in
            is_committed r.0.outcome ≡ false
            → r.0.rollback_incomplete ≡ false
            → Back pins_of data_of (pins_of w₀) (data_of w₀) r.1
      taken-Back s e u =
          moved-Back d pins_of data_of t (pins_of w₀) (data_of w₀) (record cap { snapshot = s })
            (recovers w₁ cap captured same s (λ g is_g c' v ok_g.
              h.restore_data_replaces f is_f g is_g c w s e c' v ok_g ∙ b.volume))
            (inl (h.snapshot_taken f is_f c w s e, wired)) c (record sr { snapshot = s }) is_k
            (f c t.subsystem w).1 u

      started-Back :
          Back pins_of data_of
            (pins_of w₀)
            (data_of w₀)
            (call_if_wired d.start c t.subsystem (f c t.subsystem w).1).1
      started-Back =
          let kept = h.snapshot_same f is_f c w in
          let started = h.start_same c (f c t.subsystem w).1 (kept.pins ∙ b.pins) in
          record {
            pins = started.pins ∙ (kept.pins ∙ b.pins);
            volume = started.volume ∙ (kept.volume ∙ b.volume);
          }

      after-Back :
          (r : Result Error DataSnapshot)
          → (f c t.subsystem w).0 ≡ r
          → let o = after_snapshot d c sr cap t r (f c t.subsystem w).1 in
            is_committed o.0.outcome ≡ false
            → o.0.rollback_incomplete ≡ false
            → Back pins_of data_of (pins_of w₀) (data_of w₀) o.1
      unfolding after_snapshot
      after-Back (ok s) q u e = taken-Back s q u e
      after-Back (err x) q u e = started-Back

      snapshot-Back :
          is_committed (snapshot_stopped d c sr cap t f w).0.outcome ≡ false
          → (snapshot_stopped d c sr cap t f w).0.rollback_incomplete ≡ false
          → Back pins_of data_of (pins_of w₀) (data_of w₀) (snapshot_stopped d c sr cap t f w).1
      unfolding snapshot_stopped
      snapshot-Back u e = after-Back (f c t.subsystem w).0 refl u e

    window-Back :
        (f : Ctx → Kind → W → Result Error DataSnapshot × W) (w : W)
        → d.snapshot_data ≡ some f
        → Back pins_of data_of (pins_of w₀) (data_of w₀) w
        → is_some d.restore_data ≡ true
        → is_committed (run_window d c sr cap t f w).0.outcome ≡ false
        → (run_window d c sr cap t f w).0.rollback_incomplete ≡ false
        → Back pins_of data_of (pins_of w₀) (data_of w₀) (run_window d c sr cap t f w).1
    unfolding run_window
    window-Back f w is_f b wired u e =
        let w' = (call_if_wired d.stop c t.subsystem w).1 in
        let stopped = h.stop_same c w in
        let b' : Back pins_of data_of (pins_of w₀) (data_of w₀) w' = record {
          pins = stopped.pins ∙ b.pins;
          volume = stopped.volume ∙ b.volume;
        } in
        ground (arith, snapshot-Back f is_f wired w' b', h.start_same c w' (stopped.pins ∙ b.pins))

    stateful-Back :
        (o : Option (Ctx → Kind → W → Result Error DataSnapshot × W))
        → d.snapshot_data ≡ o
        → (w : W) → Back pins_of data_of (pins_of w₀) (data_of w₀) w
        → is_committed (run_stateful_mutation d c sr cap t o w).0.outcome ≡ false
        → (run_stateful_mutation d c sr cap t o w).0.rollback_incomplete ≡ false
        → Back pins_of data_of (pins_of w₀) (data_of w₀) (run_stateful_mutation d c sr cap t o w).1
    unfolding run_stateful_mutation
    stateful-Back none q w b u e = b
    stateful-Back (some f) q w b u e = ground (arith, window-Back f w q b)

    -- A stateless subsystem has no data to change.
    imageless-Back :
        (w : W)
        → owns_persistent_state t.subsystem ≡ false
        → is_committed (run_stateless_mutation d c sr cap t w).0.outcome ≡ false
        → (run_stateless_mutation d c sr cap t w).0.rollback_incomplete ≡ false
        → Back pins_of data_of (pins_of w₀) (data_of w₀) (run_stateless_mutation d c sr cap t w).1
    imageless-Back w none_owned =
        stateless-Back d pins_of data_of t (pins_of w₀) (data_of w₀) cap
          (recovers w₁ cap captured same cap.snapshot (λ g q c' v e. h.no_data none_owned _ _))
          (inr (λ v. h.no_data none_owned v w₀)) c sr is_k w

    pulled-Back :
        (w : W)
        → Back pins_of data_of (pins_of w₀) (data_of w₀) w
        → is_committed (pull_and_mutate d c sr cap t w).0.outcome ≡ false
        → (pull_and_mutate d c sr cap t w).0.rollback_incomplete ≡ false
        → Back pins_of data_of (pins_of w₀) (data_of w₀) (pull_and_mutate d c sr cap t w).1
    unfolding pull_and_mutate
    pulled-Back w b u e =
        let w' = (pull_pins d.pull c t.pins w).1 in
        let pulled = h.pull_same c t.pins w in
        let b' : Back pins_of data_of (pins_of w₀) (data_of w₀) w' = record {
          pins = pulled.pins ∙ b.pins;
          volume = pulled.volume ∙ b.volume;
        } in
        ground (arith, imageless-Back w', stateful-Back d.snapshot_data refl w' b')

  -- The captured branch of `run_one`, the capture's result a variable.
  captured-Back :
      (c : Ctx) (sr : SubsystemResult) (w₁ : W) (r : Result Error Capture)
      → (d.capture_state t.subsystem w₁).0 ≡ r
      → sr.subsystem ≡ t.subsystem
      → Back pins_of data_of (pins_of w₀) (data_of w₀) w₁
      → is_committed (after_capture d c sr t r (d.capture_state t.subsystem w₁).1).0.outcome ≡ false
      → (after_capture d c sr t r (d.capture_state t.subsystem w₁).1).0.rollback_incomplete ≡ false
      → Back pins_of data_of
          (pins_of w₀)
          (data_of w₀)
          (after_capture d c sr t r (d.capture_state t.subsystem w₁).1).1
  unfolding after_capture
  captured-Back c sr w₁ r q is_k b =
      let kept = h.capture_same w₁ in
      let b' : Back pins_of data_of (pins_of w₀) (data_of w₀) (d.capture_state t.subsystem w₁).1 =
        record { pins = kept.pins ∙ b.pins; volume = kept.volume ∙ b.volume } in
      go r q b'
    where
      go :
          (r : Result Error Capture)
          → (d.capture_state t.subsystem w₁).0 ≡ r
          → Back pins_of data_of (pins_of w₀) (data_of w₀) (d.capture_state t.subsystem w₁).1
          → is_committed (after_capture d c sr t r (d.capture_state t.subsystem w₁).1).0.outcome
            ≡ false
          → (after_capture d c sr t r (d.capture_state t.subsystem w₁).1).0.rollback_incomplete
            ≡ false
          → Back pins_of data_of
              (pins_of w₀)
              (data_of w₀)
              (after_capture d c sr t r (d.capture_state t.subsystem w₁).1).1
      go (err x) q b' u e = b'
      go (ok cap) q b' u e =
          pulled-Back w₁ cap q b.pins c sr is_k (d.capture_state t.subsystem w₁).1 b' u e

  -- One subsystem's update that does not commit, and whose rollback, if it needed one, was
  -- complete, leaves the pins and the data of the host as they were, where the host's seams do what
  -- their comments promise.
  pub run_one-no_change :
      (c : Ctx)
      → is_committed (run_one d c t w₀).0.outcome ≡ false
      → (run_one d c t w₀).0.rollback_incomplete ≡ false
      → (pins_of (run_one d c t w₀).1 ≡ pins_of w₀) × (data_of (run_one d c t w₀).1 ≡ data_of w₀)
  unfolding run_one
  run_one-no_change c u e =
      let c' = with_budget d c t.subsystem in
      let w₁ = (d.prove_current c' t.subsystem w₀).1 in
      let proved = h.prove_current_same c' w₀ in
      let b : Back pins_of data_of (pins_of w₀) (data_of w₀) w₁ = record {
        pins = proved.pins;
        volume = proved.volume;
      } in
      ground (
        arith,
        captured-Back c' (new_result t.subsystem) w₁ (d.capture_state t.subsystem w₁).0 refl refl b,
      )
