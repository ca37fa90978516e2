-- ===== src/UpdateFlow/Refusal.antt =====
-- internal/updateflow/updateflow.go: a refusal has called no seam that changes the host.
use villa_straylight.Base.{
  ◌≡◌, refl, String, Bool, true, false, Option, none, some, List, [], ◌∷◌, arith, ok, err, Result,
}
use villa_straylight.Subsystem.{Kind}
use villa_straylight.PinState.{DataSnapshot}
use villa_straylight.UpdateFlow.{
  Error, Capture, Deps, Outcome, refused_unhealthy, SubsystemResult, Target, new_result,
}
use villa_straylight.UpdateFlow.Steps.{
  call_if_wired, commit_pins, finish_after_mutation, rollback_outcome, with_budget,
}
use villa_straylight.UpdateFlow.Run.{
  mutate_stopped, after_snapshot, snapshot_stopped, run_window, run_stateful_mutation,
  run_stateless_mutation, pull_and_mutate, after_capture, run_one,
}
use villa_straylight.UpdateFlow.Traced.{
  Event, traced, mutate, restore, restore_data, commit, logged_export, logged_snapshot,
}
use villa_straylight.UpdateFlow.Protocol.{outcome-rollback}

unfoldable pub is_refused : Outcome → Bool
is_refused refused_unhealthy = true
is_refused _ = false

-- A call that changes pins, units, data or the record was made.
unfoldable pub changed : List Event → Bool
changed [] = false
changed (e ∷ l) =
    let rest = changed l in
    elim e.op [ mutate ↦ true | restore ↦ true | restore_data ↦ true | commit ↦ true | _ ↦ rest ]

module _ {Ctx W : Type 0} (d : Deps Ctx W) (c : Ctx) where
  finish-not-refused :
      (sr : SubsystemResult) (cap : Capture) (rs : List String) (t : Target) (w : W)
      → is_refused (finish_after_mutation d c sr cap rs t w).0.outcome ≡ false
  unfolding finish_after_mutation commit_pins is_refused
  finish-not-refused sr cap rs t w =
      let (p, w') = d.prove_new c t.subsystem w in
      ground (arith, outcome-rollback d c sr cap rs p (rollback_outcome d p) none "prove" w')

  stopped-not-refused :
      (sr : SubsystemResult) (cap : Capture) (t : Target) (w : W)
      → is_refused (mutate_stopped d c sr cap t w).0.outcome ≡ false
  unfolding mutate_stopped is_refused
  stopped-not-refused sr cap t w = grind (arith, finish-not-refused, outcome-rollback d)

  stateless-not-refused :
      (sr : SubsystemResult) (cap : Capture) (t : Target) (w : W)
      → is_refused (run_stateless_mutation d c sr cap t w).0.outcome ≡ false
  unfolding run_stateless_mutation is_refused
  stateless-not-refused sr cap t w = grind (arith, finish-not-refused, outcome-rollback d)

module _ {Ctx W : Type 0} (d : Deps Ctx W) (c : Ctx) (t : Target) where
  -- A refused result has the changes of the log `l` and no others.
  abbrev Unchanged : SubsystemResult × (W × List Event) → List Event → Type 0
  Unchanged r l = is_refused r.0.outcome ≡ true → changed r.1.1 ≡ changed l

  after_snapshot-Unchanged :
      (sr : SubsystemResult) (cap : Capture) (r : Result Error DataSnapshot) (s : W × List Event)
      → Unchanged (after_snapshot (traced d) c sr cap t r s) s.1
  unfolding after_snapshot changed call_if_wired
  after_snapshot-Unchanged sr cap (ok x) s h =
      let no_refusal =
        stopped-not-refused (traced d) c (record sr { snapshot = x }) (record cap { snapshot = x })
          t s in
      absurd (ground arith)
  after_snapshot-Unchanged sr cap (err e) s h = ground arith

  window-Unchanged :
      (sr : SubsystemResult) (cap : Capture) (f : Ctx → Kind → W → Result Error DataSnapshot × W)
      (s : W × List Event)
      → Unchanged (run_window (traced d) c sr cap t (logged_export f) s) s.1
  unfolding run_window snapshot_stopped changed call_if_wired is_refused
  window-Unchanged sr cap f s h = grind (arith, after_snapshot-Unchanged)

  stateful-Unchanged :
      (sr : SubsystemResult) (cap : Capture)
      (o : Option (Ctx → Kind → W → Result Error DataSnapshot × W)) (s : W × List Event)
      → Unchanged (run_stateful_mutation (traced d) c sr cap t (logged_snapshot o) s) s.1
  unfolding run_stateful_mutation
  stateful-Unchanged sr cap none s h = refl
  stateful-Unchanged sr cap (some f) s h = grind (arith, window-Unchanged)

  pulled-Unchanged :
      (sr : SubsystemResult) (cap : Capture) (s : W × List Event)
      → Unchanged (pull_and_mutate (traced d) c sr cap t s) s.1
  unfolding pull_and_mutate changed
  pulled-Unchanged sr cap s h =
      grind (arith, stateful-Unchanged, stateless-not-refused (traced d) c)

  after_capture-Unchanged :
      (sr : SubsystemResult) (r : Result Error Capture) (s : W × List Event)
      → Unchanged (after_capture (traced d) c sr t r s) s.1
  unfolding after_capture
  after_capture-Unchanged sr (ok cap) s h = pulled-Unchanged sr cap s h
  after_capture-Unchanged sr (err e) s h = refl

module _ {Ctx W : Type 0} (d : Deps Ctx W) (t : Target) where
  -- A refusal, whether of an unhealthy subsystem or of a capture, pull, stop or snapshot that
  -- failed, has called neither the mutation nor a restore nor the commit.
  pub run_one-refused :
      (c : Ctx) (w : W)
      → is_refused (run_one (traced d) c t (w, [])).0.outcome ≡ true
      → changed (run_one (traced d) c t (w, [])).1.1 ≡ false
  unfolding run_one changed
  run_one-refused c w h =
      let c' = with_budget (traced d) c t.subsystem in
      let s = ((traced d).prove_current c' t.subsystem (w, [])).1 in
      let (r, s') = (traced d).capture_state t.subsystem s in
      ground (arith, after_capture-Unchanged d c' t (new_result t.subsystem) r s')
