-- ===== src/StackApply.antt =====
-- internal/stackapply: the unit files and services of a stack, and the seams through which a config
-- is applied to it. Each seam returns the host's state `W` changed.
pub mod Write
pub mod Reports
pub mod Removal
pub mod Restart
pub mod Transact
pub mod Host
pub mod Cutover
pub mod Changes
pub mod Restarted
pub mod Rule
pub mod Example
mod Tests
pub mod Restores
use Prim.Native.String.{len, slice, ◌++◌ as str_append}
use villa_straylight.Base.{
  ℕ, ◌-◌, String, Bool, true, false, ◌&&◌, ◌||◌, Option, none, some, List, [], ◌∷◌, Result, leb,
  str_eq, if◌then◌else◌, is_empty,
}
use villa_straylight.Config.{VillaConfig}
use villa_straylight.PinState.{Dict}

-- A seam's error, or one that `%w` wraps by its text.
pub data Error : Type 0 where
  seam : ℕ → Error
  wrap : String → Error → Error

-- `orchestrate.Unit`
pub record UnitFile : Type 0 where
  pub name : String
  pub text : String

-- `orchestrate.Plan`
pub record UnitPlan : Type 0 where
  pub changed : List UnitFile
  pub unchanged : List UnitFile
  pub removed : List UnitFile

pub record Applied : Type 0 where
  pub changed : List UnitFile
  pub removed : List UnitFile
  pub stopped : List String

abbrev pub nothing_applied : Applied
nothing_applied = record { changed = []; removed = []; stopped = [] }

unfoldable pub is_nothing : Applied → Bool
is_nothing a = is_empty a.changed && is_empty a.removed

-- `strings.CutSuffix`
unfoldable pub cut_suffix : String → String → Option String
cut_suffix s t =
    let at = len s - len t in
    if leb (len t) (len s) && str_eq (slice s at (len s)) t then some (slice s 0 at) else none

-- The service of a unit file, where it is one.
unfoldable pub service : String → Option String
unfolding cut_suffix
service unit = elim (cut_suffix unit ".container") [
  | none ↦ none
  | some name ↦ some (str_append name ".service")
]

unfoldable pub is_up : String → Bool
is_up state = str_eq state "active" || str_eq state "activating" || str_eq state "reloading"

-- `prove.Verdict`
pub record Verdict : Type 0 where
  pub status : String
  pub detail : String

abbrev pub no_verdict : Verdict
no_verdict = record { status = ""; detail = "" }

unfoldable pub passes : Verdict → Bool
passes v = str_eq v.status "pass"

-- A reason is a text, or the rollback steps that failed, each with its error.
pub data Reason : Type 0 where
  text : String → Reason
  incomplete : List (String × Error) → Reason

pub record Outcome : Type 0 where
  pub refused : Bool
  pub switched : Bool
  pub rolled_back : Bool
  pub no_op : Bool
  pub reason : Reason
  pub err : Option Error
  pub failed_step : String
  pub prove : Verdict

abbrev pub no_outcome : Outcome
no_outcome = record {
  refused = false;
  switched = false;
  rolled_back = false;
  no_op = false;
  reason = text "";
  err = none;
  failed_step = "";
  prove = no_verdict;
}

-- `stacklock.Lock` is a parameter.
pub record TxDeps (Lock W : Type 0) : Type 0 where
  pub lock : W → Result Error Lock × W
  pub release : Lock → W → W
  pub load_config : W → Result Error VillaConfig × W
  pub save_config : VillaConfig → W → Option Error × W
  pub capture : VillaConfig → W → Result Error (Dict String) × W
  pub apply : VillaConfig → W → (Applied × Option Error) × W
  pub restore : Dict String → W → Option Error × W
  pub daemon_reload : W → Option Error × W
  pub is_active : String → W → Result Error String × W
  pub restart : String → W → Option Error × W
  pub prove : String → W → Verdict × W
  pub service : String

-- A change also updates the variables `R` that its closure captures.
abbrev pub Change : Type 0 → Type 0 → Type 0
Change R W = VillaConfig → R → W → (VillaConfig × Option Outcome) × R × W
