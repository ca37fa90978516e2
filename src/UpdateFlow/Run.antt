-- ===== src/UpdateFlow/Run.antt =====
-- internal/updateflow/updateflow.go: the stopped window, one subsystem's transaction, and the run.
use villa_straylight.Base.{
  ℕ, suc, String, Bool, true, false, ◌&&◌, Option, none, some, List, [], ◌∷◌, Result, ok, err,
  if◌then◌else◌, is_empty, is_some,
}
use villa_straylight.Subsystem.{Kind, owns_persistent_state}
use villa_straylight.PinState.{Dict, DataSnapshot}
use villa_straylight.UpdateFlow.{
  refused_unhealthy, rolled_back_reject, not_tried, nothing_to_do, is_committed, halts, Error, new,
  Proof, is_pass, Target, Capture, Deps, SubsystemResult, new_result, RunResult,
}
use villa_straylight.UpdateFlow.Steps.{
  join_start_err, rejected, rejected_with, with_budget, call_if_wired, rollback,
  finish_after_mutation,
}

unfoldable pub refused : SubsystemResult → String → Option Error → Proof → SubsystemResult
refused sr step e p = record sr {
  outcome = refused_unhealthy;
  failed_step = step;
  err = e;
  proof = p;
}

-- A refusal inside the window: villa's own stop is undone, and a failed start is reported.
unfoldable pub refused_stopped :
    SubsystemResult → String → Error → Option Error → Proof → SubsystemResult
unfolding refused join_start_err
refused_stopped sr step cause start_err p =
    record (refused sr step (some (join_start_err cause start_err)) p) {
      rollback_incomplete = elim start_err [ none ↦ false | some e ↦ true ];
    }

unfoldable pub no_window : SubsystemResult → SubsystemResult
unfolding refused rejected
no_window sr =
    refused sr "snapshot"
      (some (new "no data-snapshot seam is wired for a subsystem that owns persistent state"))
      (rejected "villa cannot snapshot this subsystem's data, so it will not mutate it")

unfoldable pub pull_pins :
    {Ctx W : Type 0}
    → Option (Ctx → Dict String → W → Option Error × W)
    → Ctx
    → Dict String
    → W
    → Option Error × W
pull_pins none c pins w = (none, w)
pull_pins (some pull) c pins w = pull c pins w

module _ {Ctx W : Type 0} (d : Deps Ctx W) where
  -- The window from the mutation on: mutate, start, then the proof.
  unfoldable pub mutate_stopped : Ctx → SubsystemResult → Capture → Target → W → SubsystemResult × W
  unfolding rejected_with call_if_wired
  mutate_stopped c sr capture t w =
      let (restarted, e, w₁) = d.mutate c t.subsystem t.pins w in
      elim e [
        | some e ↦
            rollback d c sr capture restarted
              (rejected_with "the subsystem could not be moved to the new pins" e)
              rolled_back_reject (some e) "mutate" w₁
        | none ↦
            let (se, w₂) = call_if_wired d.start c t.subsystem w₁ in
            elim se [
              | some se ↦
                  rollback d c sr capture restarted
                    (rejected_with "the subsystem could not be started after the update" se)
                    rolled_back_reject (some se) "start" w₂
              | none ↦ finish_after_mutation d c sr capture restarted t w₂
            ]
      ]

  -- A snapshot that could not be taken refuses; one that was taken joins the rollback point.
  unfoldable pub after_snapshot :
      Ctx → SubsystemResult → Capture → Target → Result Error DataSnapshot → W → SubsystemResult × W
  unfolding refused_stopped rejected_with call_if_wired
  after_snapshot c sr capture t (err e) w =
      let (se, w') = call_if_wired d.start c t.subsystem w in
      (
        refused_stopped sr "snapshot" e se (
            rejected_with
              "the current data could not be captured for rollback, so nothing was changed" e),
        w',
      )
  after_snapshot c sr capture t (ok snapshot) w =
      mutate_stopped c (record sr { snapshot = snapshot }) (record capture { snapshot = snapshot })
        t w

  unfoldable pub snapshot_stopped :
      Ctx
      → SubsystemResult
      → Capture
      → Target
      → (Ctx → Kind → W → Result Error DataSnapshot × W)
      → W
      → SubsystemResult × W
  snapshot_stopped c sr capture t snapshot_data w =
      let (r, w') = snapshot_data c t.subsystem w in after_snapshot c sr capture t r w'

  unfoldable pub run_window :
      Ctx
      → SubsystemResult
      → Capture
      → Target
      → (Ctx → Kind → W → Result Error DataSnapshot × W)
      → W
      → SubsystemResult × W
  unfolding refused_stopped rejected call_if_wired
  run_window c sr capture t snapshot_data w =
      let (e, w₁) = call_if_wired d.stop c t.subsystem w in
      elim e [
        | some e ↦
            let (se, w₂) = call_if_wired d.start c t.subsystem w₁ in
            (
              refused_stopped sr "stop" e se (
                  rejected
                    "the subsystem could not be stopped, so its data could not be snapshotted and nothing was changed"),
              w₂,
            )
        | none ↦ snapshot_stopped c sr capture t snapshot_data w₁
      ]

  -- All four seams of the window are required together.
  unfoldable pub run_stateful_mutation :
      Ctx
      → SubsystemResult
      → Capture
      → Target
      → Option (Ctx → Kind → W → Result Error DataSnapshot × W)
      → W
      → SubsystemResult × W
  unfolding no_window
  run_stateful_mutation c sr capture t none w = (no_window sr, w)
  run_stateful_mutation c sr capture t (some snapshot_data) w =
      if is_some d.stop && is_some d.start && is_some d.restore_data
      then run_window c sr capture t snapshot_data w
      else (no_window sr, w)

  unfoldable pub run_stateless_mutation :
      Ctx → SubsystemResult → Capture → Target → W → SubsystemResult × W
  unfolding rejected_with
  run_stateless_mutation c sr capture t w =
      let (restarted, e, w₁) = d.mutate c t.subsystem t.pins w in
      elim e [
        | some e ↦
            rollback d c sr capture restarted
              (rejected_with "the subsystem could not be moved to the new pins" e)
              rolled_back_reject (some e) "mutate" w₁
        | none ↦ finish_after_mutation d c sr capture restarted t w₁
      ]

  -- From the pull on: the pins are fetched, and the subsystem is moved.
  unfoldable pub pull_and_mutate :
      Ctx → SubsystemResult → Capture → Target → W → SubsystemResult × W
  unfolding pull_pins refused rejected
  pull_and_mutate c sr capture t w =
      let (e, w₁) = pull_pins d.pull c t.pins w in
      elim e [
        | some e ↦ (
          refused sr "pull" (some e)
              (rejected "the new pins could not be fetched, so nothing was changed"),
          w₁,
        )
        | none ↦
            if owns_persistent_state t.subsystem
            then run_stateful_mutation c sr capture t d.snapshot_data w₁
            else run_stateless_mutation c sr capture t w₁
      ]

  -- A capture that failed refuses: there would be nothing to go back to.
  unfoldable pub after_capture :
      Ctx → SubsystemResult → Target → Result Error Capture → W → SubsystemResult × W
  unfolding refused rejected
  after_capture c sr t (err e) w = (
    refused sr "capture" (some e)
        (rejected "the rollback point could not be captured, so nothing was changed"),
    w,
  )
  after_capture c sr t (ok capture) w = pull_and_mutate c sr capture t w

  unfoldable pub run_one : Ctx → Target → W → SubsystemResult × W
  unfolding with_budget new_result is_pass
  run_one ctx t w =
      let sr = new_result t.subsystem in
      if is_empty t.pins
      then (record sr { outcome = nothing_to_do }, w)
      else (let c = with_budget d ctx t.subsystem in
          let (p, w₁) = d.prove_current c t.subsystem w in
          if is_pass p
          then (let (r, w₂) = d.capture_state t.subsystem w₁ in after_capture c sr t r w₂)
          else (record sr { outcome = refused_unhealthy; proof = p }, w₁))

  -- The loop of `Run`, from a given `Halted` on.
  unfoldable pub run_from : Ctx → Bool → List Target → W → RunResult × W
  unfolding new_result halts
  run_from c halted [] w = (record { subsystems = []; halted = halted }, w)
  run_from c true (t ∷ ts) w =
      let (rest, w') = run_from c true ts w in
      (
        record rest {
          subsystems = record (new_result t.subsystem) { outcome = not_tried } ∷ rest.subsystems;
        },
        w',
      )
  run_from c false (t ∷ ts) w =
      let (sr, w₁) = run_one c t w in
      let (rest, w₂) = run_from c (halts sr.outcome) ts w₁ in
      (record rest { subsystems = sr ∷ rest.subsystems }, w₂)

  unfoldable pub run : Ctx → List Target → W → RunResult × W
  run c ts w = run_from c false ts w

count_committed : List SubsystemResult → ℕ
count_committed [] = 0
count_committed (s ∷ rest) =
    let n = count_committed rest in if is_committed s.outcome then suc n else n

unfoldable pub committed_count : RunResult → ℕ
unfolding count_committed is_committed
committed_count r = count_committed r.subsystems
