-- ===== src/UpdateFlow/Protocol.antt =====
-- internal/updateflow/updateflow.go: the order of the seams on the way to a commit.
use villa_straylight.Base.{
  ◌≡◌, refl, String, Bool, true, false, Option, none, some, List, ◌∷◌, arith, is_some, ok, err,
  Result,
}
use villa_straylight.Subsystem.{Kind, owns_persistent_state}
use villa_straylight.PinState.{DataSnapshot}
use villa_straylight.UpdateFlow.{
  Error, Capture, Proof, Deps, Outcome, SubsystemResult, Target, is_committed, new_result,
}
use villa_straylight.UpdateFlow.Steps.{
  call_if_wired, prove_rollback, reopen, rollback_pins, rollback_data, captured_at, commit_pins,
  finish_after_mutation, rollback, rollback_outcome, with_budget,
}
use villa_straylight.UpdateFlow.Run.{
  mutate_stopped, after_snapshot, snapshot_stopped, run_window, run_stateful_mutation,
  run_stateless_mutation, pull_and_mutate, after_capture, run_one,
}
use villa_straylight.UpdateFlow.Traced.{
  Event, event, traced, prove_current, capture, pull, mutate, stop, snapshot, start, prove_new,
  commit, succeeds, is_ok, logged_export, logged_snapshot,
}

module _ {Ctx W : Type 0} (d : Deps Ctx W) where
  -- A rollback keeps the outcome that it is given.
  outcome-prove_rollback :
      (o : Option (Ctx → Kind → W → Proof × W)) (c : Ctx) (sr : SubsystemResult)
      (cause : Option Error) (w : W)
      → (prove_rollback o c sr cause w).0.outcome ≡ sr.outcome
  unfolding prove_rollback
  outcome-prove_rollback none c sr cause w = refl
  outcome-prove_rollback (some f) c sr cause w = ground arith

  outcome-rollback_pins :
      (c : Ctx) (sr : SubsystemResult) (cap : Capture) (rs : List String) (cause : Option Error)
      (b : Bool) (w : W)
      → (rollback_pins d c sr cap rs cause b w).0.outcome ≡ sr.outcome
  unfolding rollback_pins reopen
  outcome-rollback_pins c sr cap rs cause true w = grind (arith, outcome-prove_rollback)
  outcome-rollback_pins c sr cap rs cause false w = grind (arith, outcome-prove_rollback)

  outcome-rollback_data :
      (c : Ctx) (sr : SubsystemResult) (cap : Capture) (rs : List String) (cause : Option Error)
      (o : Option (Ctx → Kind → DataSnapshot → W → Option Error × W)) (w : W)
      → (rollback_data d c sr cap rs cause o w).0.outcome ≡ sr.outcome
  unfolding rollback_data
  outcome-rollback_data c sr cap rs cause none w = outcome-rollback_pins c sr cap rs cause false w
  outcome-rollback_data c sr cap rs cause (some f) w = grind (arith, outcome-rollback_pins)

  pub outcome-rollback :
      (c : Ctx) (sr : SubsystemResult) (cap : Capture) (rs : List String) (p : Proof)
      (outcome : Outcome) (cause : Option Error) (step : String) (w : W)
      → (rollback d c sr cap rs p outcome cause step w).0.outcome ≡ outcome
  unfolding rollback
  outcome-rollback c sr cap rs p outcome cause step w =
      grind (arith, outcome-rollback_data, outcome-rollback_pins)

-- The log that a committed result ends, over the calls of `l` before the proof.
abbrev pub Logged : {W : Type 0} → SubsystemResult × (W × List Event) → List Event → Type 0
Logged r l =
    is_committed r.0.outcome ≡ true
    → r.1.1 ≡ event commit (succeeds r.0.err) ∷ event prove_new true ∷ l

module _ {Ctx W : Type 0} (d : Deps Ctx W) where
  -- Reading the clock is no call of a seam of the log.
  pub log-captured_at : (s : W × List Event) → (captured_at (traced d) s).1.1 ≡ s.1
  unfolding captured_at
  log-captured_at s = ground arith

  commit_pins-log :
      (sr : SubsystemResult) (cap : Capture) (t : Target) (p : Proof) (s : W × List Event)
      → sr.err ≡ none
      → let r = commit_pins (traced d) sr cap t p s in r.1.1 ≡ event commit (succeeds r.0.err) ∷ s.1
  unfolding commit_pins
  commit_pins-log sr cap t p s fresh = ground (arith, log-captured_at s)

  module _ (c : Ctx) (sr : SubsystemResult) (t : Target) (fresh : sr.err ≡ none) where
    finish-committed :
        (cap : Capture) (rs : List String) (w : W) (l : List Event)
        → let r = finish_after_mutation (traced d) c sr cap rs t (w, l) in
          is_committed r.0.outcome ≡ true
          → r.1.1 ≡ event commit (succeeds r.0.err) ∷ event prove_new true ∷ l
    unfolding finish_after_mutation is_committed
    finish-committed cap rs w l h =
        let (p, w') = (traced d).prove_new c t.subsystem (w, l) in
        ground (
          arith,
          commit_pins-log sr cap t p w' fresh,
          outcome-rollback (traced d) c sr cap rs p (rollback_outcome (traced d) p) none "prove" w',
        )

  module _ (c : Ctx) (sr : SubsystemResult) (t : Target) (fresh : sr.err ≡ none) where
    mutate_stopped-committed :
        (cap : Capture) (w : W) (l : List Event)
        → is_some d.start ≡ true
        → Logged
            (mutate_stopped (traced d) c sr cap t (w, l))
            (event start true ∷ event mutate true ∷ l)
    unfolding mutate_stopped is_committed call_if_wired
    mutate_stopped-committed cap w l wired h =
        grind (arith, finish-committed c sr t fresh, outcome-rollback (traced d))

    stateless-committed :
        (cap : Capture) (w : W) (l : List Event)
        → Logged (run_stateless_mutation (traced d) c sr cap t (w, l)) (event mutate true ∷ l)
    unfolding run_stateless_mutation is_committed
    stateless-committed cap w l h =
        grind (arith, finish-committed c sr t fresh, outcome-rollback (traced d))

-- The calls of the window, the latest first.
abbrev window_log : List Event → List Event
window_log l = event start true ∷ event mutate true ∷ event snapshot true ∷ event stop true ∷ l

-- The calls between the capture and the proof of the new pins, the latest first.
abbrev pub moved_log : Bool → List Event → List Event
moved_log true l = window_log l
moved_log false l = event mutate true ∷ l

abbrev pub pulled_log : Bool → List Event → List Event
pulled_log true l = event pull true ∷ l
pulled_log false l = l

module _ {Ctx W : Type 0} (d : Deps Ctx W) (c : Ctx) (t : Target) where
  after_snapshot-committed :
      (sr : SubsystemResult) (cap : Capture) (r : Result Error DataSnapshot) (w : W)
      (l : List Event)
      → sr.err ≡ none
      → is_some d.start ≡ true
      → Logged
          (after_snapshot (traced d) c sr cap t r (w, event snapshot (is_ok r) ∷ l))
          (event start true ∷ event mutate true ∷ event snapshot true ∷ l)
  unfolding after_snapshot is_committed
  after_snapshot-committed sr cap (err e) w l fresh wired h = cc
  after_snapshot-committed sr cap (ok x) w l fresh wired h =
      mutate_stopped-committed d c (record sr { snapshot = x }) t fresh
        (record cap { snapshot = x }) w (event snapshot true ∷ l) wired h

  window-committed :
      (sr : SubsystemResult) (cap : Capture) (f : Ctx → Kind → W → Result Error DataSnapshot × W)
      (w : W) (l : List Event)
      → sr.err ≡ none
      → is_some d.start ≡ true
      → is_some d.stop ≡ true
      → Logged (run_window (traced d) c sr cap t (logged_export f) (w, l)) (window_log l)
  unfolding run_window snapshot_stopped is_committed call_if_wired
  window-committed sr cap f w l fresh wired wired' h = grind (arith, after_snapshot-committed)

  stateful-committed :
      (sr : SubsystemResult) (cap : Capture)
      (o : Option (Ctx → Kind → W → Result Error DataSnapshot × W)) (w : W) (l : List Event)
      → sr.err ≡ none
      → Logged
          (run_stateful_mutation (traced d) c sr cap t (logged_snapshot o) (w, l))
          (window_log l)
  unfolding run_stateful_mutation is_committed
  stateful-committed sr cap none w l fresh h = cc
  stateful-committed sr cap (some f) w l fresh h = grind (arith, window-committed)

  pulled-committed :
      (sr : SubsystemResult) (cap : Capture) (w : W) (l : List Event)
      → sr.err ≡ none
      → Logged
          (pull_and_mutate (traced d) c sr cap t (w, l))
          (moved_log (owns_persistent_state t.subsystem) (pulled_log (is_some d.pull) l))
  unfolding pull_and_mutate is_committed
  pulled-committed sr cap w l fresh h = grind (arith, stateful-committed, stateless-committed d c)

  after_capture-committed :
      (sr : SubsystemResult) (r : Result Error Capture) (w : W) (l : List Event)
      → sr.err ≡ none
      → Logged (after_capture (traced d) c sr t r (w, event capture (is_ok r) ∷ l)) (
          moved_log
            (owns_persistent_state t.subsystem)
            (pulled_log (is_some d.pull) (event capture true ∷ l)))
  unfolding after_capture is_committed
  after_capture-committed sr (err e) w l fresh h = cc
  after_capture-committed sr (ok cap) w l fresh h =
      pulled-committed sr cap w (event capture true ∷ l) fresh h

module _ {Ctx W : Type 0} (d : Deps Ctx W) (t : Target) where
  -- A subsystem is reported committed only after, in this order and each successfully: the proof
  -- of the current state, the capture, the pull if one is wired, the mutation, and the proof of the
  -- new state; for a stateful subsystem the mutation stands inside stop, snapshot and start. The
  -- commit itself is the last call, and its error is the result's.
  pub run_one-protocol :
      (c : Ctx) (w : W) (l : List Event)
      → is_committed (run_one (traced d) c t (w, l)).0.outcome ≡ true
      → (run_one (traced d) c t (w, l)).1.1
        ≡ event commit (succeeds (run_one (traced d) c t (w, l)).0.err)
          ∷ event prove_new true
          ∷ moved_log
              (owns_persistent_state t.subsystem)
              (pulled_log (is_some d.pull) (event capture true ∷ event prove_current true ∷ l))
  unfolding run_one is_committed
  run_one-protocol c w l h =
      let c' = with_budget (traced d) c t.subsystem in
      let w₁ = (d.prove_current c' t.subsystem w).1 in
      let r = d.capture_state t.subsystem w₁ in
      ground (
        arith,
        after_capture-committed d c' t (new_result t.subsystem) r.0 r.1
            (event prove_current true ∷ l) refl,
      )
