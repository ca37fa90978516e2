-- ===== src/UpdateFlow/Sequence.antt =====
-- internal/updateflow/updateflow.go, `Run`: one subsystem at a time, halting on the first failure.
use villa_straylight.Base.{
  ◌≡◌, ◌⊎◌, refl, String, Bool, true, false, ◌||◌, Option, none, some, List, [], ◌∷◌, map, arith,
  Result, ok, err,
}
use villa_straylight.Subsystem.{Kind}
use villa_straylight.PinState.{DataSnapshot}
use villa_straylight.UpdateFlow.{
  Error, Capture, Outcome, committed, nothing_to_do, not_tried, Deps, SubsystemResult, Target,
  halts, is_committed, new_result,
}
use villa_straylight.UpdateFlow.Steps.{
  commit_pins, finish_after_mutation, rollback_outcome, with_budget,
}
use villa_straylight.UpdateFlow.Run.{
  mutate_stopped, after_snapshot, snapshot_stopped, run_window, run_stateful_mutation,
  run_stateless_mutation, pull_and_mutate, after_capture, run_one, run_from, run,
}
use villa_straylight.UpdateFlow.Protocol.{outcome-rollback}

-- The outcome is a commit, or one that halts the run.
abbrev pub is_settled : Outcome → Bool
is_settled o = is_committed o || halts o

module _ {Ctx W : Type 0} (d : Deps Ctx W) (c : Ctx) where
  finish-settled :
      (sr : SubsystemResult) (cap : Capture) (rs : List String) (t : Target) (w : W)
      → is_settled (finish_after_mutation d c sr cap rs t w).0.outcome ≡ true
  unfolding finish_after_mutation commit_pins is_committed halts
  finish-settled sr cap rs t w =
      let (p, w') = d.prove_new c t.subsystem w in
      ground (arith, outcome-rollback d c sr cap rs p (rollback_outcome d p) none "prove" w')

  stopped-settled :
      (sr : SubsystemResult) (cap : Capture) (t : Target) (w : W)
      → is_settled (mutate_stopped d c sr cap t w).0.outcome ≡ true
  unfolding mutate_stopped is_committed halts
  stopped-settled sr cap t w = grind (arith, finish-settled, outcome-rollback d)

  stateless-settled :
      (sr : SubsystemResult) (cap : Capture) (t : Target) (w : W)
      → is_settled (run_stateless_mutation d c sr cap t w).0.outcome ≡ true
  unfolding run_stateless_mutation is_committed halts
  stateless-settled sr cap t w = grind (arith, finish-settled, outcome-rollback d)

  after_snapshot-settled :
      (sr : SubsystemResult) (cap : Capture) (t : Target) (r : Result Error DataSnapshot) (w : W)
      → is_settled (after_snapshot d c sr cap t r w).0.outcome ≡ true
  unfolding after_snapshot halts is_committed
  after_snapshot-settled sr cap t (ok x) w =
      stopped-settled (record sr { snapshot = x }) (record cap { snapshot = x }) t w
  after_snapshot-settled sr cap t (err e) w = refl

  stateful-settled :
      (sr : SubsystemResult) (cap : Capture) (t : Target)
      (o : Option (Ctx → Kind → W → Result Error DataSnapshot × W)) (w : W)
      → is_settled (run_stateful_mutation d c sr cap t o w).0.outcome ≡ true
  unfolding run_stateful_mutation run_window snapshot_stopped halts is_committed
  stateful-settled sr cap t none w = refl
  stateful-settled sr cap t (some f) w = grind (arith, after_snapshot-settled)

  pulled-settled :
      (sr : SubsystemResult) (cap : Capture) (t : Target) (w : W)
      → is_settled (pull_and_mutate d c sr cap t w).0.outcome ≡ true
  unfolding pull_and_mutate halts is_committed
  pulled-settled sr cap t w = grind (arith, stateful-settled, stateless-settled)

  after_capture-settled :
      (sr : SubsystemResult) (t : Target) (r : Result Error Capture) (w : W)
      → is_settled (after_capture d c sr t r w).0.outcome ≡ true
  unfolding after_capture halts is_committed
  after_capture-settled sr t (ok cap) w = pulled-settled sr cap t w
  after_capture-settled sr t (err e) w = refl

module _ {Ctx W : Type 0} (d : Deps Ctx W) (c : Ctx) where
  run_one-settled :
      (t : Target) (w : W)
      → (is_settled (run_one d c t w).0.outcome ≡ true)
        ⊎ ((run_one d c t w).0.outcome ≡ nothing_to_do)
  unfolding run_one halts is_committed
  run_one-settled t w =
      let c' = with_budget d c t.subsystem in
      let (r, w') = d.capture_state t.subsystem (d.prove_current c' t.subsystem w).1 in
      ground (arith, after_capture-settled d c' (new_result t.subsystem) t r w')

  -- A run, told from the plan: subsystems that are committed or have nothing to do, each starting
  -- on the host that the one before left, then at most one that halts, then the untried ones. The
  -- host after a halt is the one that the halting subsystem left.
  pub data Runs : List Target → W → List SubsystemResult → W → Bool → Type 0 where
    done : (w : W) → Runs [] w [] w false
    tried :
        (t : Target) (w : W) {ts : List Target} {rs : List SubsystemResult} {w' : W} {b : Bool}
        → ((run_one d c t w).0.outcome ≡ committed) ⊎ ((run_one d c t w).0.outcome ≡ nothing_to_do)
        → Runs ts (run_one d c t w).1 rs w' b
        → Runs (t ∷ ts) w ((run_one d c t w).0 ∷ rs) w' b
    halt :
        (t : Target) (w : W) (ts : List Target)
        → halts (run_one d c t w).0.outcome ≡ true
        → Runs
            (t ∷ ts)
            w
            ((run_one d c t w).0
              ∷ map (λ u. record (new_result u.subsystem) { outcome = not_tried }) ts)
            (run_one d c t w).1
            true

  -- The results of the untried, and the host that they leave alone.
  abbrev not_tried_results : List Target → List SubsystemResult
  not_tried_results ts = map (λ u. record (new_result u.subsystem) { outcome = not_tried }) ts

  run_from-halted :
      (ts : List Target) (w : W)
      → run_from d c true ts w ≡ (record { subsystems = not_tried_results ts; halted = true }, w)
  unfolding run_from
  run_from-halted [] w = refl
  run_from-halted (t ∷ ts) w = rw (run_from-halted ts w)

  goes_on :
      (o : Outcome)
      → (is_settled o ≡ true) ⊎ (o ≡ nothing_to_do)
      → halts o ≡ false
      → (o ≡ committed) ⊎ (o ≡ nothing_to_do)
  unfolding halts is_committed
  goes_on o s h = ground arith

  run_from-Runs :
      (ts : List Target) (w : W)
      → let r = run_from d c false ts w in Runs ts w r.0.subsystems r.1 r.0.halted
  unfolding run_from
  run_from-Runs [] w = done w
  run_from-Runs (t ∷ ts) w = go (halts (run_one d c t w).0.outcome) refl (run_from-Runs ts)
    where
      go :
          (b : Bool)
          → halts (run_one d c t w).0.outcome ≡ b
          → ((v : W) → let r = run_from d c false ts v in Runs ts v r.0.subsystems r.1 r.0.halted)
          → let r = run_from d c b ts (run_one d c t w).1 in
            Runs (t ∷ ts) w ((run_one d c t w).0 ∷ r.0.subsystems) r.1 r.0.halted
      go true h ih = rw (run_from-halted ts (run_one d c t w).1) (halt t w ts h)
      go false h ih =
          tried t w (goes_on (run_one d c t w).0.outcome (run_one-settled t w) h)
            (ih (run_one d c t w).1)

  -- A run takes the targets in order, each on the state that the one before left, until one halts
  -- it; it lists all that follow as not tried and calls no seam for them, and its flag says whether
  -- one halted it.
  pub run-Runs :
      (ts : List Target) (w : W)
      → Runs ts w (run d c ts w).0.subsystems (run d c ts w).1 (run d c ts w).0.halted
  unfolding run
  run-Runs ts w = run_from-Runs ts w
