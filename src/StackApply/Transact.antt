-- ===== src/StackApply/Transact.antt =====
-- internal/stackapply/transact.go, `Transact`: the swap transaction frame.
use villa_straylight.Base.{
  String, true, Option, none, some, List, [], ◌∷◌, ◌++◌, Result, ok, err, is_empty, if◌then◌else◌,
}
use villa_straylight.Config.{VillaConfig}
use villa_straylight.PinState.{Dict}
use villa_straylight.StackApply.{
  Error, Applied, Verdict, no_verdict, passes, Reason, text, incomplete, Outcome, no_outcome,
  TxDeps, Change,
}
use villa_straylight.StackApply.Restart.{restart_changed}

-- The note of a rollback step that failed.
unfoldable pub note_failure : String → Option Error → List (String × Error)
note_failure step none = []
note_failure step (some e) = (step, e) ∷ []

unfoldable pub note_incomplete : List (String × Error) → Reason → Reason
note_incomplete [] reason = reason
note_incomplete (f ∷ fails) reason = incomplete (f ∷ fails)

module _ {Lock W : Type 0} (d : TxDeps Lock W) where
  -- The loop of `rollback` over the services to restart.
  unfoldable pub restart_all : List String → W → List (String × Error) × W
  restart_all [] w = ([], w)
  restart_all (svc ∷ rest) w =
      let (failure, v) = d.restart svc w in
      let (fails, u) = restart_all rest v in (note_failure svc failure ++ fails, u)

  -- The four steps of `rollback`, each tried whatever the others did.
  unfoldable pub undo : VillaConfig → Dict String → List String → W → List (String × Error) × W
  undo prior units restarted w =
      let (e1, w1) = d.restore units w in
      let (e2, w2) = d.save_config prior w1 in
      let (e3, w3) = d.daemon_reload w2 in
      let (fails, w4) = restart_all restarted w3 in
      (
        note_failure "RestoreUnits" e1
            ++ (note_failure "SaveConfig(prior)" e2 ++ (note_failure "DaemonReload" e3 ++ fails)),
        w4,
      )

  -- `rollback`
  unfoldable pub rollback :
      VillaConfig
      → Dict String
      → List String
      → String
      → String
      → Option Error
      → Verdict
      → W
      → Outcome × W
  rollback prior units restarted step reason cause verdict w =
      let (fails, v) = undo prior units restarted w in
      (
        record no_outcome {
          rolled_back = true;
          failed_step = step;
          reason = note_incomplete fails (text reason);
          err = cause;
          prove = verdict;
        },
        v,
      )

  unfoldable pub after_prove : VillaConfig → Dict String → List String → Verdict × W → Outcome × W
  after_prove prior units restarted (verdict, w) =
      if passes verdict
      then (record no_outcome { switched = true; prove = verdict }, w)
      else rollback prior units restarted "prove" verdict.detail none verdict w

  unfoldable pub after_restart :
      VillaConfig
      → Dict String
      → VillaConfig
      → List String
      → (List String × Option Error) × W
      → Outcome × W
  after_restart prior units next stopped ((cutover, some e), w) =
      rollback prior units (stopped ++ cutover) "restart" "" (some e) no_verdict w
  after_restart prior units next stopped ((cutover, none), w) =
      after_prove prior units (stopped ++ cutover) (d.prove next.backend w)

  unfoldable pub after_apply :
      VillaConfig → Dict String → VillaConfig → (Applied × Option Error) × W → Outcome × W
  after_apply prior units next ((applied, some e), w) =
      rollback prior units applied.stopped "write" "" (some e) no_verdict w
  after_apply prior units next ((applied, none), w) =
      if is_empty applied.changed
      then (record no_outcome { no_op = true }, w)
      else after_restart prior units next applied.stopped
          (restart_changed d.is_active d.restart applied (d.service ∷ []) w)

  unfoldable pub after_save :
      VillaConfig → Dict String → VillaConfig → Option Error × W → Outcome × W
  after_save prior units next (some e, w) = rollback prior units [] "save" "" (some e) no_verdict w
  after_save prior units next (none, w) = after_apply prior units next (d.apply next w)

  unfoldable pub after_capture :
      VillaConfig → VillaConfig → Result Error (Dict String) × W → Outcome × W
  after_capture prior next (err e, w) =
      (record no_outcome { refused = true; failed_step = "capture"; err = some e }, w)
  after_capture prior next (ok units, w) = after_save prior units next (d.save_config next w)

  module _ {R : Type 0} where
    unfoldable pub after_change :
        VillaConfig → (VillaConfig × Option Outcome) × R × W → Outcome × R × W
    after_change prior ((next, some stop), r, w) = (stop, r, w)
    after_change prior ((next, none), r, w) =
        let (o, v) = after_capture prior next (d.capture prior w) in (o, r, v)

    unfoldable pub after_load : Change R W → R → Result Error VillaConfig × W → Outcome × R × W
    after_load change r (err e, w) =
        (record no_outcome { failed_step = "load config"; err = some e }, r, w)
    after_load change r (ok prior, w) = after_change prior (change prior r w)

    -- The deferred release comes last on every path.
    unfoldable pub after_lock : Change R W → R → Result Error Lock × W → Outcome × R × W
    after_lock change r (err e, w) =
        (record no_outcome { failed_step = "lock"; err = some e }, r, w)
    after_lock change r (ok lock, w) =
        let (o, s, v) = after_load change r (d.load_config w) in (o, s, d.release lock v)

    unfoldable pub transact : Change R W → R → W → Outcome × R × W
    transact change r w = after_lock change r (d.lock w)
