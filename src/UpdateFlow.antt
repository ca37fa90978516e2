-- ===== src/UpdateFlow.antt =====
-- internal/updateflow/updateflow.go: the data of the update transaction. A seam of `Deps` is a
-- function of the host's state `W`, which it returns changed; `Ctx` is Go's `context.Context`.
pub mod Steps
pub mod Run
pub mod Host
pub mod Restores
mod Mutated
pub mod NoChange
pub mod Traced
pub mod Protocol
pub mod Windows
pub mod Refusal
pub mod Sequence
mod Tests
use villa_straylight.Base.{ℕ, String, Bool, true, false, Option, none, some, List, [], Result}
use villa_straylight.Subsystem.{Kind}
use villa_straylight.PinState.{Dict, DataSnapshot, Previous, no_snapshot}

-- `unset` is the zero value "".
pub data Outcome : Type 0 where
  unset committed refused_unhealthy rolled_back_fail rolled_back_reject not_tried : Outcome
  nothing_to_do : Outcome

unfoldable pub is_committed : Outcome → Bool
is_committed committed = true
is_committed _ = false

unfoldable pub halts : Outcome → Bool
halts refused_unhealthy = true
halts rolled_back_fail = true
halts rolled_back_reject = true
halts _ = false

pub data ProofStatus : Type 0 where
  unset pass fail reject : ProofStatus

-- A detail is a text, or a text with the error that `%v` prints. An error is a seam's, the
-- package's own, a `%w` wrapping by its text, or `errors.Join`, which drops a nil argument.
mutual
  pub data Detail : Type 0 where
    text : String → Detail
    text_with : String → Error → Detail

  pub data Error : Type 0 where
    seam : ℕ → Error
    new : String → Error
    wrap : String → Error → Error
    wrap_detail : String → Detail → Error
    join : Error → Error → Error
    join_one : Error → Error

unfoldable pub join_err : Option Error → Error → Error
join_err none e = join_one e
join_err (some c) e = join c e

pub record Proof : Type 0 where
  pub status : ProofStatus
  pub detail : Detail

abbrev pub no_proof : Proof
no_proof = record { status = ProofStatus.unset; detail = text "" }

unfoldable pub is_pass : Proof → Bool
is_pass p = elim p.status [ pass ↦ true | _ ↦ false ]

pub record Target : Type 0 where
  pub subsystem : Kind
  pub pins : Dict String

pub record Capture : Type 0 where
  pub refs : Dict String
  pub units : Dict String
  pub config : String
  pub snapshot : DataSnapshot
  pub prior_snapshot : DataSnapshot

-- The seams. An `Option` one may be nil in the source.
pub record Deps (Ctx W : Type 0) : Type 0 where
  pub prove_current : Ctx → Kind → W → Proof × W
  pub capture_state : Kind → W → Result Error Capture × W
  pub pull : Option (Ctx → Dict String → W → Option Error × W)
  pub mutate : Ctx → Kind → Dict String → W → List String × Option Error × W
  pub stop : Option (Ctx → Kind → W → Option Error × W)
  pub snapshot_data : Option (Ctx → Kind → W → Result Error DataSnapshot × W)
  pub start : Option (Ctx → Kind → W → Option Error × W)
  pub prove_new : Ctx → Kind → W → Proof × W
  pub restore : Ctx → Kind → Capture → List String → W → Option Error × W
  pub restore_data : Option (Ctx → Kind → DataSnapshot → W → Option Error × W)
  pub prove_restored : Option (Ctx → Kind → W → Proof × W)
  pub commit : Kind → Dict String → Previous → W → Option Error × W
  -- `context.WithoutCancel`, and the budget; its cancel only releases a timer.
  pub without_cancel : Ctx → Ctx
  pub budget : Option (Ctx → Kind → Ctx)
  pub now : Option (W → String × W)

pub record SubsystemResult : Type 0 where
  pub subsystem : Kind
  pub outcome : Outcome
  pub proof : Proof
  pub committed : Dict String
  pub previous : Dict String
  pub snapshot : DataSnapshot
  pub superseded_snapshot : DataSnapshot
  pub rollback_incomplete : Bool
  pub err : Option Error
  pub failed_step : String

unfoldable pub new_result : Kind → SubsystemResult
new_result k = record {
  subsystem = k;
  outcome = Outcome.unset;
  proof = no_proof;
  committed = [];
  previous = [];
  snapshot = no_snapshot;
  superseded_snapshot = no_snapshot;
  rollback_incomplete = false;
  err = none;
  failed_step = "";
}

pub record RunResult : Type 0 where
  pub subsystems : List SubsystemResult
  pub halted : Bool
