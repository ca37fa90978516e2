-- ===== src/TaskRun.antt =====
-- internal/taskrun/worker.go: how the worker drives one task through the sandbox's bridge. What the
-- bridge's channels deliver is a list of signals; the log, the narrations and the subscribers are
-- left out, and so is an error of the bridge that the worker only narrates.
pub mod Moves
pub mod Audit
pub mod Worker
pub mod Reasons
pub mod Stored
pub mod Sound
pub mod Grants
pub mod Granted
pub mod Parked
pub mod Signals
pub mod Live
pub mod Loops
pub mod Ends
pub mod Queue
pub mod Held
pub mod Calls
pub mod Orderly
pub mod Submitted
pub mod Reached
pub mod Example
mod Tests
use villa_straylight.Base.{ℕ, String, Bool, Option, List}
use villa_straylight.Config.{VillaConfig}
use villa_straylight.TaskStore.{Task, Unsupported}
use villa_straylight.TaskStore.Records.{Disk}

-- internal/crushapi
pub data GrantAnswer : Type 0 where
  allow allow_session deny : GrantAnswer

-- `command` is what `commandParam` lifts out of the parameters.
pub record PermissionRequest : Type 0 where
  pub id : String
  pub tool : List ℕ
  pub action : List ℕ
  pub path : List ℕ
  pub command : List ℕ

pub data Event : Type 0 where
  permission_request : Option PermissionRequest → Event
  file : Option (List ℕ) → Event
  run_complete : Event
  files_read : List (List ℕ) → Event
  bridge_ready : String → Event
  bridge_error : Event
  other_event : Event

-- What the worker's `select` receives. A cancellation is an interruption where it came from `Close`;
-- `closed` is the end of the event stream.
pub data Signal : Type 0 where
  cancelled : Bool → Signal
  answered : GrantAnswer → String → Signal
  received : Event → Signal
  closed : Signal

pub record DocumentReport : Type 0 where
  pub checked : Bool
  pub has_error : Bool
  pub claims : ℕ
  pub unsupported : List Unsupported

-- `Deps`, less the log and the killing of containers. A file is named by its workspace and path.
pub record Deps : Type 0 where
  pub load_config : Option VillaConfig
  pub render_args : VillaConfig → String → String → Option (List String)
  pub launches : List String → Bool
  pub sends_prompt : Bool
  pub read_file : String → List ℕ → Option String
  pub audit : List ℕ → String → List (List ℕ × String) → DocumentReport
  pub now : String
  pub registered : VillaConfig → String → Option String
  pub tools_on : VillaConfig → Bool
  pub sandbox_ready : Bool

-- `job`, with the store's directory and the answers sent so far, the latest first.
pub record Job : Type 0 where
  pub task : Task
  pub session_allow : Bool
  pub pending : Option ℕ
  pub pending_id : String
  pub is_complete : Bool
  pub files_read : List (List ℕ)
  pub seen : List (List ℕ)
  pub disk : Disk
  pub grants : List (String × GrantAnswer)
