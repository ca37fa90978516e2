-- ===== src/UpdateFlow/Windows.antt =====
-- internal/updateflow/updateflow.go: the stopped window is closed on the way out.
use villa_straylight.Base.{
  ◌≡◌, refl, String, Bool, true, false, Option, none, some, List, [], ◌∷◌, arith, is_some, ok, err,
  Result, ◌&&◌, ◌||◌,
}
use villa_straylight.Subsystem.{Kind}
use villa_straylight.PinState.{DataSnapshot, taken}
use villa_straylight.UpdateFlow.{
  Error, Capture, Proof, Deps, Outcome, SubsystemResult, Target, new_result,
}
use villa_straylight.UpdateFlow.Steps.{
  call_if_wired, prove_rollback, reopen, rollback_pins, rollback_data, commit_pins,
  finish_after_mutation, rollback, rollback_outcome, with_budget,
}
use villa_straylight.UpdateFlow.Run.{
  pull_pins, mutate_stopped, after_snapshot, snapshot_stopped, run_window, run_stateful_mutation,
  run_stateless_mutation, pull_and_mutate, after_capture, run_one,
}
use villa_straylight.UpdateFlow.Traced.{
  Event, traced, stop, start, logged_export, logged_snapshot, logged_import, logged_proof,
}
use villa_straylight.UpdateFlow.Protocol.{log-captured_at}

-- No stop of the log is without a later start.
unfoldable pub serving : List Event → Bool
serving [] = true
serving (e ∷ l) = let rest = serving l in elim e.op [ start ↦ true | stop ↦ false | _ ↦ rest ]

-- The last call is a stop that failed.
unfoldable pub stop_failed : List Event → Bool
stop_failed [] = false
stop_failed (e ∷ l) = elim e.op [
  | stop ↦ elim e.succeeded [ true ↦ false | false ↦ true ]
  | _ ↦ false
]

-- The services were started again, or the rollback gave up at a stop that failed and says so.
abbrev pub is_closed : {W : Type 0} → SubsystemResult × (W × List Event) → Bool
is_closed r = serving r.1.1 || (stop_failed r.1.1 && r.0.rollback_incomplete)

module _ {Ctx W : Type 0} (d : Deps Ctx W) (wired : is_some d.start ≡ true) where
  prove_rollback-serving :
      (o : Option (Ctx → Kind → W → Proof × W)) (c : Ctx) (sr : SubsystemResult)
      (cause : Option Error) (s : W × List Event)
      → serving (prove_rollback (logged_proof o) c sr cause s).1.1 ≡ serving s.1
  unfolding prove_rollback serving
  prove_rollback-serving none c sr cause s = refl
  prove_rollback-serving (some f) c sr cause s = refl

  rollback_pins-serving :
      (c : Ctx) (sr : SubsystemResult) (cap : Capture) (rs : List String) (cause : Option Error)
      (b : Bool) (s : W × List Event)
      → (b || serving s.1) ≡ true
      → serving (rollback_pins (traced d) c sr cap rs cause b s).1.1 ≡ true
  unfolding rollback_pins reopen serving
  rollback_pins-serving c sr cap rs cause true s h =
      grind (arith, prove_rollback-serving d.prove_restored)
  rollback_pins-serving c sr cap rs cause false s h =
      grind (arith, prove_rollback-serving d.prove_restored)

  rollback_data-closed :
      (c : Ctx) (sr : SubsystemResult) (cap : Capture) (rs : List String) (cause : Option Error)
      (o : Option (Ctx → Kind → DataSnapshot → W → Option Error × W)) (s : W × List Event)
      → (is_some o || serving s.1) ≡ true
      → is_closed (rollback_data (traced d) c sr cap rs cause (logged_import o) s) ≡ true
  unfolding rollback_data serving stop_failed
  rollback_data-closed c sr cap rs cause none s h =
      rw (rollback_pins-serving c sr cap rs cause false s h)
  rollback_data-closed c sr cap rs cause (some f) s h = grind (arith, rollback_pins-serving)

  rollback-closed :
      (c : Ctx) (sr : SubsystemResult) (cap : Capture) (rs : List String) (p : Proof)
      (outcome : Outcome) (cause : Option Error) (step : String) (s : W × List Event)
      → ((taken cap.snapshot && is_some d.restore_data) || serving s.1) ≡ true
      → is_closed (rollback (traced d) c sr cap rs p outcome cause step s) ≡ true
  unfolding rollback
  rollback-closed c sr cap rs p outcome cause step s h =
      grind (arith, rollback_data-closed, rollback_pins-serving)

  commit-serving :
      (sr : SubsystemResult) (cap : Capture) (t : Target) (p : Proof) (s : W × List Event)
      → serving s.1 ≡ true
      → serving (commit_pins (traced d) sr cap t p s).1.1 ≡ true
  unfolding commit_pins serving
  commit-serving sr cap t p s h = ground (arith, log-captured_at d s)

  finish-closed :
      (c : Ctx) (sr : SubsystemResult) (cap : Capture) (rs : List String) (t : Target)
      (s : W × List Event)
      → serving s.1 ≡ true
      → is_closed (finish_after_mutation (traced d) c sr cap rs t s) ≡ true
  unfolding finish_after_mutation serving
  finish-closed c sr cap rs t s h =
      let (p, s') = (traced d).prove_new c t.subsystem s in
      ground (
        arith,
        commit-serving sr cap t p s',
        rollback-closed c sr cap rs p (rollback_outcome (traced d) p) none "prove" s',
      )

  mutate_stopped-closed :
      (c : Ctx) (sr : SubsystemResult) (cap : Capture) (t : Target) (s : W × List Event)
      → taken cap.snapshot ≡ true
      → is_some d.restore_data ≡ true
      → is_closed (mutate_stopped (traced d) c sr cap t s) ≡ true
  unfolding mutate_stopped serving call_if_wired
  mutate_stopped-closed c sr cap t s h k = grind (arith, finish-closed, rollback-closed)

  stateless-closed :
      (c : Ctx) (sr : SubsystemResult) (cap : Capture) (t : Target) (s : W × List Event)
      → serving s.1 ≡ true
      → is_closed (run_stateless_mutation (traced d) c sr cap t s) ≡ true
  unfolding run_stateless_mutation serving
  stateless-closed c sr cap t s h = grind (arith, finish-closed, rollback-closed)

  after_snapshot-closed :
      (c : Ctx) (sr : SubsystemResult) (cap : Capture) (t : Target) (r : Result Error DataSnapshot)
      (s : W × List Event)
      → ((x : DataSnapshot) → r ≡ ok x → taken x ≡ true)
      → is_some d.restore_data ≡ true
      → is_closed (after_snapshot (traced d) c sr cap t r s) ≡ true
  unfolding after_snapshot serving call_if_wired
  after_snapshot-closed c sr cap t (ok x) s h k =
      mutate_stopped-closed c (record sr { snapshot = x }) (record cap { snapshot = x }) t s
        (h x refl) k
  after_snapshot-closed c sr cap t (err e) s h k = ground arith

  window-closed :
      (c : Ctx) (sr : SubsystemResult) (cap : Capture) (t : Target)
      (f : Ctx → Kind → W → Result Error DataSnapshot × W) (s : W × List Event)
      → ((w : W) (x : DataSnapshot) → (f c t.subsystem w).0 ≡ ok x → taken x ≡ true)
      → is_some d.restore_data ≡ true
      → is_closed (run_window (traced d) c sr cap t (logged_export f) s) ≡ true
  unfolding run_window snapshot_stopped serving call_if_wired
  window-closed c sr cap t f s h k =
      let s' = (call_if_wired (traced d).stop c t.subsystem s).1 in
      let (r, s'') = logged_export f c t.subsystem s' in
      ground (arith, after_snapshot-closed c sr cap t r s'' (h s'.0))

  stateful-closed :
      (c : Ctx) (sr : SubsystemResult) (cap : Capture) (t : Target)
      (o : Option (Ctx → Kind → W → Result Error DataSnapshot × W)) (s : W × List Event)
      → ((f : Ctx → Kind → W → Result Error DataSnapshot × W)
          → o ≡ some f
          → (w : W) (x : DataSnapshot) → (f c t.subsystem w).0 ≡ ok x
          → taken x ≡ true)
      → serving s.1 ≡ true
      → is_closed (run_stateful_mutation (traced d) c sr cap t (logged_snapshot o) s) ≡ true
  unfolding run_stateful_mutation
  stateful-closed c sr cap t none s h l = rw l
  stateful-closed c sr cap t (some f) s h l =
      ground (arith, window-closed c sr cap t f s (h f refl))

  pulled-closed :
      (c : Ctx) (sr : SubsystemResult) (cap : Capture) (t : Target) (s : W × List Event)
      → ((f : Ctx → Kind → W → Result Error DataSnapshot × W)
          → d.snapshot_data ≡ some f
          → (w : W) (x : DataSnapshot) → (f c t.subsystem w).0 ≡ ok x
          → taken x ≡ true)
      → serving s.1 ≡ true
      → is_closed (pull_and_mutate (traced d) c sr cap t s) ≡ true
  unfolding pull_and_mutate serving
  pulled-closed c sr cap t s h l =
      let s' = (pull_pins (traced d).pull c t.pins s).1 in
      ground
        (arith, stateful-closed c sr cap t d.snapshot_data s' h, stateless-closed c sr cap t s')

  after_capture-closed :
      (c : Ctx) (sr : SubsystemResult) (t : Target) (r : Result Error Capture) (s : W × List Event)
      → ((f : Ctx → Kind → W → Result Error DataSnapshot × W)
          → d.snapshot_data ≡ some f
          → (w : W) (x : DataSnapshot) → (f c t.subsystem w).0 ≡ ok x
          → taken x ≡ true)
      → serving s.1 ≡ true
      → is_closed (after_capture (traced d) c sr t r s) ≡ true
  unfolding after_capture
  after_capture-closed c sr t (ok cap) s h l = pulled-closed c sr cap t s h l
  after_capture-closed c sr t (err e) s h l = rw l

  -- With a start wired and snapshots that are recorded when they succeed, one subsystem's update
  -- makes no stop without a later call of start, but where its last call is a stop that failed
  -- in a rollback; the result then says that the rollback is incomplete.
  pub run_one-closed :
      (c : Ctx) (t : Target) (w : W) (l : List Event)
      → ((f : Ctx → Kind → W → Result Error DataSnapshot × W)
          → d.snapshot_data ≡ some f
          → (c' : Ctx) (v : W) (x : DataSnapshot) → (f c' t.subsystem v).0 ≡ ok x
          → taken x ≡ true)
      → serving l ≡ true
      → is_closed (run_one (traced d) c t (w, l)) ≡ true
  unfolding run_one serving
  run_one-closed c t w l h k =
      let c' = with_budget (traced d) c t.subsystem in
      let s = ((traced d).prove_current c' t.subsystem (w, l)).1 in
      let (r, s') = (traced d).capture_state t.subsystem s in
      ground (arith, after_capture-closed c' (new_result t.subsystem) t r s' (λ f e. h f e c'))
