-- ===== src/UpdateFlow/Tests.antt =====
-- internal/updateflow/updateflow.go: a small host, runs of the transaction on it, and the theorems
-- at that host.
use villa_straylight.Base.{
  ◌≡◌, refl, String, Bool, true, false, Option, none, some, [], ◌∷◌, Result, ok, err, sym, ap,
  subst, if◌then◌else◌,
}
use villa_straylight.Subsystem.{Kind, chat, inference, owns_persistent_state, state_volume}
use villa_straylight.PinState.{no_snapshot, taken}
use villa_straylight.UpdateFlow.{
  Proof, ProofStatus, is_pass, new_result, halts, pass, fail, text, Error, seam, Target, Deps,
  rolled_back_fail, is_committed,
}
use villa_straylight.UpdateFlow.Steps.{
  rollback, rollback_data, rollback_pins, reopen, prove_rollback, commit_pins, fresh_budget,
  with_budget, call_if_wired, finish_after_mutation,
}
use villa_straylight.UpdateFlow.Run.{
  run_one, run, run_from, committed_count, after_capture, pull_and_mutate, run_stateful_mutation,
  run_stateless_mutation, run_window, snapshot_stopped, after_snapshot, mutate_stopped, pull_pins,
}
use mathlib.Core.Bool.{false≢true}
use mathlib.Core.Option.{some-injective}
use villa_straylight.UpdateFlow.Host.{Same, Lawful}
use villa_straylight.UpdateFlow.NoChange.{run_one-no_change}
use villa_straylight.UpdateFlow.Traced.{
  event, traced, prove_current, capture, prove_new, commit, succeeds,
}
use villa_straylight.UpdateFlow.Protocol.{run_one-protocol, moved_log, pulled_log}
use villa_straylight.UpdateFlow.Windows.{serving, stop_failed, is_closed, run_one-closed}
use villa_straylight.UpdateFlow.Refusal.{changed, is_refused, run_one-refused}
use villa_straylight.UpdateFlow.Sequence.{Runs, run-Runs}

ok-injective : {A : Type 0} {x y : A} → ◌≡◌ {A = Result Error A} (ok x) (ok y) → x ≡ y
ok-injective e = cc

record World : Type 0 where
  running : String
  volume : String

abbrev proof : ProofStatus → Proof
proof s = record { status = s; detail = text "" }

-- A host whose mutation migrates the data, with the answer of the proof of the new state, of the
-- mutation and of the capture.
abbrev host : ProofStatus → Option Error → Option Error → Deps Unit World
host answer mutate_error capture_error = record {
  prove_current = λ c k w. (proof pass, w);
  capture_state = λ k w. (
    elim capture_error [
      | some e ↦ err e
      | none ↦ ok (record {
        refs = [];
        units = [];
        config = w.running;
        snapshot = no_snapshot;
        prior_snapshot = no_snapshot;
      })
    ],
    w,
  );
  pull = none;
  mutate = λ c k refs w. ([], mutate_error, record { running = "new"; volume = "migrated" });
  stop = some (λ c k w. (none, w));
  snapshot_data =
      some
        (λ c k w. (ok (record { volume = w.volume; path = "tar"; bytes = 1; taken_at = "" }), w));
  start = some (λ c k w. (none, w));
  prove_new = λ c k w. (proof answer, w);
  restore = λ c k cap rs w. (none, record w { running = cap.config });
  restore_data = some (λ c k s w. (none, record w { volume = s.volume }));
  prove_restored = some (λ c k w. (proof pass, w));
  commit = λ k refs p w. (none, w);
  without_cancel = λ c. c;
  budget = none;
  now = none;
}

abbrev before : World
before = record { running = "old"; volume = "rows" }

abbrev to_new : Kind → Target
to_new k = record { subsystem = k; pins = ("webui", "new") ∷ [] }

abbrev good : Deps Unit World
good = host pass none none

abbrev broken : Deps Unit World
broken = host fail none none

abbrev uncapturable : Deps Unit World
uncapturable = host pass none (some (seam 1))

-- Every function of the transaction, to be opened at once.
steps : Unit {0}
unfolding run_one after_capture pull_and_mutate run_stateful_mutation run_stateless_mutation
    run_window snapshot_stopped after_snapshot mutate_stopped finish_after_mutation rollback
    rollback_data rollback_pins reopen prove_rollback commit_pins fresh_budget with_budget
    call_if_wired pull_pins run_from is_pass new_result halts owns_persistent_state state_volume
    taken is_committed serving stop_failed changed is_refused
steps = tt

broken_rolls_back :
    ((run_one broken tt (to_new chat) before).0.outcome ≡ rolled_back_fail)
    × ((run_one broken tt (to_new chat) before).1 ≡ before)
unfolding steps
broken_rolls_back = (refl, refl)

-- The services stay down when the mutation and then the stop of the rollback fail.
abbrev unstoppable : Deps Unit (World × Bool)
unstoppable = record {
  prove_current = λ c k w. (proof pass, w);
  capture_state = λ k w. (
    ok (record {
      refs = [];
      units = [];
      config = w.0.running;
      snapshot = no_snapshot;
      prior_snapshot = no_snapshot;
    }),
    w,
  );
  pull = none;
  mutate = λ c k refs w. ([], some (seam 2), w);
  stop = some (λ c k w. (if w.1 then some (seam 3) else none, (w.0, true)));
  snapshot_data =
      some
        (λ c k w. (ok (record { volume = w.0.volume; path = "tar"; bytes = 1; taken_at = "" }), w));
  start = some (λ c k w. (none, (w.0, false)));
  prove_new = λ c k w. (proof pass, w);
  restore = λ c k cap rs w. (none, w);
  restore_data = some (λ c k s w. (none, w));
  prove_restored = none;
  commit = λ k refs p w. (none, w);
  without_cancel = λ c. c;
  budget = none;
  now = none;
}

left_stopped :
    serving (run_one (traced unstoppable) tt (to_new chat) ((before, false), [])).1.1 ≡ false
unfolding steps
left_stopped = refl

run_halts : (run broken tt (to_new inference ∷ to_new chat ∷ []) before).0.halted ≡ true
unfolding steps run
run_halts = refl

committed_count-good :
    committed_count (run good tt (to_new chat ∷ to_new inference ∷ []) before).0 ≡ 2
unfolding steps run committed_count
committed_count-good = refl

-- The host that fails the proof keeps the promises of its seams.
broken_lawful : Lawful broken (λ w. w.running) (λ w. w.volume) chat before
unfolding call_if_wired pull_pins taken owns_persistent_state state_volume
broken_lawful = record {
  prove_current_same = λ c w. record { pins = refl; volume = refl };
  capture_same = λ w. record { pins = refl; volume = refl };
  pull_same = λ c refs w. record { pins = refl; volume = refl };
  stop_same = λ c w. record { pins = refl; volume = refl };
  snapshot_same = λ f e c w.
      subst (λ g. Same (λ (x : World). x.running) (λ (x : World). x.volume) w (g c chat w).1)
        (some-injective _ _ e) (record { pins = refl; volume = refl });
  start_same = λ c w e. record { pins = refl; volume = refl };
  no_data = λ h. absurd (false≢true (sym h));
  snapshot_taken = λ f e c w s q.
      subst (λ g. (g c chat w).0 ≡ ok s → taken s ≡ true) (some-injective _ _ e)
        (λ q'. ap taken (sym (ok-injective q'))) q;
  restore_pins = λ w cap e s c rs v r. ap (λ x. x.config) (sym (ok-injective e));
  restore_volume = λ c cap rs v. refl;
  restore_data_replaces = λ f e g e' c w s q c' v r.
      subst (λ h. (h c' chat s v).1.volume ≡ w.volume) (some-injective _ _ e')
        (subst (λ h. (h c chat w).0 ≡ ok s → s.volume ≡ w.volume) (some-injective _ _ e)
          (λ q'. ap (λ x. x.volume) (sym (ok-injective q'))) q);
  prove_restored_same = λ f e c w.
      subst (λ g. Same (λ (x : World). x.running) (λ (x : World). x.volume) w (g c chat w).1)
        (some-injective _ _ e) (record { pins = refl; volume = refl });
}

run_one-no_change_example :
    ((run_one broken tt (to_new chat) before).1.running ≡ "old")
    × ((run_one broken tt (to_new chat) before).1.volume ≡ "rows")
run_one-no_change_example =
    run_one-no_change broken (λ w. w.running) (λ w. w.volume) (to_new chat) before broken_lawful tt
      (unfold steps in refl) (unfold steps in refl)

run_one-protocol_example :
    (run_one (traced good) tt (to_new chat) (before, [])).1.1
    ≡ event commit (succeeds (run_one (traced good) tt (to_new chat) (before, [])).0.err)
      ∷ event prove_new true
      ∷ moved_log
          (owns_persistent_state chat)
          (pulled_log false (event capture true ∷ event prove_current true ∷ []))
run_one-protocol_example = run_one-protocol good (to_new chat) tt before [] (unfold steps in refl)

run_one-closed_example :
    is_closed (run_one (traced unstoppable) tt (to_new chat) ((before, false), [])) ≡ true
unfolding serving taken
run_one-closed_example =
    run_one-closed unstoppable refl tt (to_new chat) (before, false) []
      (λ f e c v x q.
        subst (λ g. (g c chat v).0 ≡ ok x → taken x ≡ true) (some-injective _ _ e)
          (λ q'. ap taken (sym (ok-injective q'))) q)
      refl

run_one-refused_example :
    changed (run_one (traced uncapturable) tt (to_new chat) (before, [])).1.1 ≡ false
run_one-refused_example =
    run_one-refused uncapturable (to_new chat) tt before (unfold steps in refl)

run-Runs_example :
    Runs broken tt
      (to_new inference ∷ to_new chat ∷ [])
      before
      (run broken tt (to_new inference ∷ to_new chat ∷ []) before).0.subsystems
      (run broken tt (to_new inference ∷ to_new chat ∷ []) before).1
      (run broken tt (to_new inference ∷ to_new chat ∷ []) before).0.halted
run-Runs_example = run-Runs broken tt (to_new inference ∷ to_new chat ∷ []) before
