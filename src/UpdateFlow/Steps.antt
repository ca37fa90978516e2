-- ===== src/UpdateFlow/Steps.antt =====
-- internal/updateflow/updateflow.go: the transaction of one subsystem, its window and its rollback.
use villa_straylight.Base.{String, Bool, true, false, Option, none, some, List, if◌then◌else◌}
use villa_straylight.Subsystem.{Kind}
use villa_straylight.PinState.{DataSnapshot, Previous, taken}
use villa_straylight.UpdateFlow.{
  Outcome, committed, rolled_back_fail, rolled_back_reject, fail, reject, text, text_with, Error,
  wrap, wrap_detail, join, join_err, Proof, is_pass, Target, Capture, Deps, SubsystemResult,
}

-- `joinStartErr`
unfoldable pub join_start_err : Error → Option Error → Error
join_start_err cause none = cause
join_start_err cause (some e) = join cause (
    wrap
      "THE SERVICES ARE STILL STOPPED: villa stopped them to take the snapshot and could not start them again"
      e)

unfoldable pub rejected : String → Proof
rejected t = record { status = reject; detail = text t }

unfoldable pub rejected_with : String → Error → Proof
rejected_with t e = record { status = reject; detail = text_with t e }

-- A result of a failed rollback step, `errors.Join(cause, …)`.
unfoldable pub incomplete : SubsystemResult → Option Error → Error → SubsystemResult
unfolding join_err
incomplete sr cause e = record sr { rollback_incomplete = true; err = some (join_err cause e) }

-- A later failure is joined to the error that is there.
unfoldable pub also_failed : SubsystemResult → String → Option Error → SubsystemResult
unfolding join_err
also_failed sr t none = sr
also_failed sr t (some e) = record sr { err = some (join_err sr.err (wrap t e)) }

module _ {Ctx W : Type 0} where
  -- A seam that the source calls only if it is not nil.
  unfoldable pub call_if_wired :
      Option (Ctx → Kind → W → Option Error × W) → Ctx → Kind → W → Option Error × W
  call_if_wired none c k w = (none, w)
  call_if_wired (some f) c k w = f c k w

  -- The re-proof that ends `rollback`.
  unfoldable pub prove_rollback :
      Option (Ctx → Kind → W → Proof × W)
      → Ctx
      → SubsystemResult
      → Option Error
      → W
      → SubsystemResult × W
  unfolding is_pass incomplete
  prove_rollback none c sr cause w = (sr, w)
  prove_rollback (some prove) c sr cause w =
      let (p, w') = prove c sr.subsystem w in
      (
        if is_pass p
            then sr
            else incomplete sr cause
                (wrap_detail "the restored state could not be proven" p.detail),
        w',
      )

module _ {Ctx W : Type 0} (d : Deps Ctx W) where
  unfoldable pub with_budget : Ctx → Kind → Ctx
  with_budget c k = elim d.budget [ none ↦ c | some budget ↦ budget c k ]

  -- The rollback's own budget, detached from the deadline that may have just expired.
  unfoldable pub fresh_budget : Ctx → Kind → Ctx
  fresh_budget c k = elim d.budget [ none ↦ c | some budget ↦ budget (d.without_cancel c) k ]

  -- `rollback` once the pins and units are back: the window is closed before the re-proof.
  unfoldable pub reopen : Ctx → SubsystemResult → Option Error → Bool → W → SubsystemResult × W
  unfolding call_if_wired incomplete
  reopen c sr cause false w = prove_rollback d.prove_restored c sr cause w
  reopen c sr cause true w =
      let (e, w') = call_if_wired d.start c sr.subsystem w in
      elim e [
        | none ↦ prove_rollback d.prove_restored c sr cause w'
        | some e ↦ (
          incomplete sr cause
              (wrap "the data and pin were restored but the subsystem could not be started" e),
          w',
        )
      ]

  -- `rollback` from the restore of the pins and units on.
  unfoldable pub rollback_pins :
      Ctx → SubsystemResult → Capture → List String → Option Error → Bool → W → SubsystemResult × W
  unfolding call_if_wired incomplete also_failed
  rollback_pins c sr capture restarted cause restored_data w =
      let (e, w') = d.restore c sr.subsystem capture restarted w in
      elim e [
        | none ↦ reopen c sr cause restored_data w'
        | some e ↦
            let failed = incomplete sr cause (wrap "rollback failed" e) in
            if restored_data
            then (let (se, w'') = call_if_wired d.start c sr.subsystem w' in
                (also_failed failed "the services could not be started again" se, w''))
            else (failed, w')
      ]

  -- `rollback` of the data half: stop, import, then the pins.
  unfoldable pub rollback_data :
      Ctx
      → SubsystemResult
      → Capture
      → List String
      → Option Error
      → Option (Ctx → Kind → DataSnapshot → W → Option Error × W)
      → W
      → SubsystemResult × W
  unfolding call_if_wired incomplete also_failed
  rollback_data c sr capture restarted cause none w =
      rollback_pins c sr capture restarted cause false w
  rollback_data c sr capture restarted cause (some restore_data) w =
      let (e, w₁) = call_if_wired d.stop c sr.subsystem w in
      elim e [
        | some e ↦ (
          incomplete sr cause (
              wrap
                "the subsystem could not be stopped to restore its data, so the data was left as the update made it"
                e),
          w₁,
        )
        | none ↦
            let (re, w₂) = restore_data c sr.subsystem capture.snapshot w₁ in
            elim re [
              | none ↦ rollback_pins c sr capture restarted cause true w₂
              | some re ↦
                  let (se, w₃) = call_if_wired d.start c sr.subsystem w₂ in
                  (
                    also_failed
                        (incomplete sr cause (wrap "the data volume could not be restored" re))
                        "the services could not be started again" se,
                    w₃,
                  )
            ]
      ]

  unfoldable pub rollback :
      Ctx
      → SubsystemResult
      → Capture
      → List String
      → Proof
      → Outcome
      → Option Error
      → String
      → W
      → SubsystemResult × W
  unfolding fresh_budget
  rollback c sr capture restarted p outcome cause step w =
      let sr' : SubsystemResult = record sr {
        outcome = outcome;
        proof = p;
        err = cause;
        failed_step = step;
      } in
      let c' = fresh_budget c sr.subsystem in
      if taken capture.snapshot
      then rollback_data c' sr' capture restarted cause d.restore_data w
      else rollback_pins c' sr' capture restarted cause false w

  unfoldable pub captured_at : W → String × W
  captured_at w = elim d.now [ none ↦ ("", w) | some now ↦ now w ]

  -- The commit that ends `finishAfterMutation`.
  unfoldable pub commit_pins : SubsystemResult → Capture → Target → Proof → W → SubsystemResult × W
  unfolding captured_at
  commit_pins sr capture t p w =
      let (at, w₁) = captured_at w in
      let previous : Previous = record {
        refs = capture.refs;
        units = capture.units;
        config = capture.config;
        snapshot = capture.snapshot;
        captured_at = at;
      } in
      let (e, w₂) = d.commit t.subsystem t.pins previous w₁ in
      let done : SubsystemResult = record sr {
        outcome = committed;
        proof = p;
        committed = t.pins;
        previous = capture.refs;
      } in
      (
        elim e [
          | some e ↦ record done { err = some e; failed_step = "commit" }
          | none ↦ record done { superseded_snapshot = capture.prior_snapshot }
        ],
        w₂,
      )

  -- A pass commits; a fail and everything else roll back.
  unfoldable pub rollback_outcome : Proof → Outcome
  rollback_outcome p = elim p.status [ fail ↦ rolled_back_fail | _ ↦ rolled_back_reject ]

  unfoldable pub finish_after_mutation :
      Ctx → SubsystemResult → Capture → List String → Target → W → SubsystemResult × W
  unfolding is_pass rollback_outcome
  finish_after_mutation c sr capture restarted t w =
      let (p, w') = d.prove_new c t.subsystem w in
      if is_pass p
      then commit_pins sr capture t p w'
      else rollback c sr capture restarted p (rollback_outcome p) none "prove" w'
