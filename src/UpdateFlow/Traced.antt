-- ===== src/UpdateFlow/Traced.antt =====
-- internal/updateflow/updateflow.go: the host with a log of the seams that were called, the latest
-- first, each with whether it succeeded. The theorems on order are read off this log.
use villa_straylight.Base.{
  Bool, true, false, Option, none, some, List, ◌∷◌, Result, ok, err, String,
}
use villa_straylight.Subsystem.{Kind}
use villa_straylight.PinState.{Dict, DataSnapshot}
use villa_straylight.UpdateFlow.{Error, Proof, Deps, is_pass}

pub data Op : Type 0 where
  prove_current capture pull mutate stop snapshot start prove_new : Op
  restore restore_data prove_restored commit : Op

pub record Event : Type 0 where
  pub op : Op
  pub succeeded : Bool

abbrev pub event : Op → Bool → Event
event o b = record { op = o; succeeded = b }

abbrev pub succeeds : Option Error → Bool
succeeds none = true
succeeds (some e) = false

abbrev pub is_ok : {A : Type 0} → Result Error A → Bool
is_ok (ok a) = true
is_ok (err e) = false

module _ {W A : Type 0} where
  abbrev logged : Op → (A → Bool) → A × W → List Event → A × (W × List Event)
  logged o s r l = (r.0, (r.1, event o (s r.0) ∷ l))

module _ {W : Type 0} where
  abbrev logged_now : Option (W → String × W) → Option (W × List Event → String × (W × List Event))
  logged_now none = none
  logged_now (some f) = some (λ s. let (at, w) = f s.0 in (at, (w, s.1)))

module _ {Ctx W : Type 0} where
  abbrev logged_call :
      Op
      → Option (Ctx → Kind → W → Option Error × W)
      → Option (Ctx → Kind → W × List Event → Option Error × (W × List Event))
  logged_call o none = none
  logged_call o (some f) = some (λ c k s. logged o succeeds (f c k s.0) s.1)

  abbrev logged_pull :
      Option (Ctx → Dict String → W → Option Error × W)
      → Option (Ctx → Dict String → W × List Event → Option Error × (W × List Event))
  logged_pull none = none
  logged_pull (some f) = some (λ c refs s. logged pull succeeds (f c refs s.0) s.1)

  abbrev pub logged_export :
      (Ctx → Kind → W → Result Error DataSnapshot × W)
      → Ctx
      → Kind
      → W × List Event
      → Result Error DataSnapshot × (W × List Event)
  logged_export f c k s = logged snapshot is_ok (f c k s.0) s.1

  abbrev pub logged_snapshot :
      Option (Ctx → Kind → W → Result Error DataSnapshot × W)
      → Option (Ctx → Kind → W × List Event → Result Error DataSnapshot × (W × List Event))
  logged_snapshot none = none
  logged_snapshot (some f) = some (logged_export f)

  abbrev pub logged_import :
      Option (Ctx → Kind → DataSnapshot → W → Option Error × W)
      → Option (Ctx → Kind → DataSnapshot → W × List Event → Option Error × (W × List Event))
  logged_import none = none
  logged_import (some f) = some (λ c k x s. logged restore_data succeeds (f c k x s.0) s.1)

  abbrev pub logged_proof :
      Option (Ctx → Kind → W → Proof × W)
      → Option (Ctx → Kind → W × List Event → Proof × (W × List Event))
  logged_proof none = none
  logged_proof (some f) = some (λ c k s. logged prove_restored is_pass (f c k s.0) s.1)

  -- `d`, with the log beside its state.
  abbrev pub traced : Deps Ctx W → Deps Ctx (W × List Event)
  traced d = record {
    prove_current = λ c k s. logged prove_current is_pass (d.prove_current c k s.0) s.1;
    capture_state = λ k s. logged capture is_ok (d.capture_state k s.0) s.1;
    pull = logged_pull d.pull;
    mutate = λ c k refs s.
        let (rs, e, w) = d.mutate c k refs s.0 in (rs, e, (w, event mutate (succeeds e) ∷ s.1));
    stop = logged_call stop d.stop;
    snapshot_data = logged_snapshot d.snapshot_data;
    start = logged_call start d.start;
    prove_new = λ c k s. logged prove_new is_pass (d.prove_new c k s.0) s.1;
    restore = λ c k cap rs s. logged restore succeeds (d.restore c k cap rs s.0) s.1;
    restore_data = logged_import d.restore_data;
    prove_restored = logged_proof d.prove_restored;
    commit = λ k refs p s. logged commit succeeds (d.commit k refs p s.0) s.1;
    without_cancel = d.without_cancel;
    budget = d.budget;
    now = logged_now d.now;
  }
