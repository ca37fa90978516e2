-- ===== src/TaskStore.antt =====
-- internal/taskstore/state.go and the record of internal/taskstore/taskstore.go.
pub mod Records
pub mod Filed
pub mod Keeps
pub mod Runs
pub mod Interrupts
pub mod Recovery
mod Tests
use villa_straylight.Approval.{Mode}
use villa_straylight.Base.{ℕ, String, Bool, true, false, ◌||◌, Option, List, [], ◌∷◌, ◌==◌}

pub data State : Type 0 where
  queued running awaiting_approval done flagged failed refused cancelled interrupted : State

unfoldable pub state_number : State → ℕ
state_number queued = 0
state_number running = 1
state_number awaiting_approval = 2
state_number done = 3
state_number flagged = 4
state_number failed = 5
state_number refused = 6
state_number cancelled = 7
state_number interrupted = 8

-- Go's `==` of states.
unfoldable pub same_state : State → State → Bool
same_state s t = state_number s == state_number t

unfoldable pub transitions : State → List State
transitions queued = running ∷ refused ∷ cancelled ∷ interrupted ∷ []
transitions running = awaiting_approval ∷ done ∷ flagged ∷ failed ∷ cancelled ∷ interrupted ∷ []
transitions awaiting_approval = running ∷ failed ∷ cancelled ∷ interrupted ∷ []
transitions _ = []

unfoldable pub terminal : State → Bool
terminal queued = false
terminal running = false
terminal awaiting_approval = false
terminal _ = true

unfoldable pub occurs_state : State → List State → Bool
occurs_state s [] = false
occurs_state s (t ∷ ts) = same_state t s || occurs_state s ts

unfoldable pub can_transition : State → State → Bool
can_transition from to = elim (terminal from) [
  | true ↦ false
  | false ↦ occurs_state to (transitions from)
]

unfoldable pub exit_code : State → ℕ
exit_code done = 0
exit_code flagged = 2
exit_code _ = 1

-- A path, a tool and a command are the numbers of their characters, as in Approval.
pub record FileEvent : Type 0 where
  pub path : List ℕ
  pub action : String

-- An answer that is not given yet is "", as its time is.
pub record Approval : Type 0 where
  pub seq : ℕ
  pub tool : List ℕ
  pub action : List ℕ
  pub path : List ℕ
  pub command : List ℕ
  pub asked_at : String
  pub answer : String
  pub answered_at : String
  pub by : String

pub record Unsupported : Type 0 where
  pub claim : String
  pub reason : String

pub record GroundingDocument : Type 0 where
  pub path : List ℕ
  pub claims : ℕ
  pub unsupported : List Unsupported

pub record Grounding : Type 0 where
  pub checked : Bool
  pub documents : List GroundingDocument

pub record Task : Type 0 where
  pub id : String
  pub workspace : String
  pub instruction : String
  pub mode : Mode
  pub state : State
  pub exit : Option ℕ
  pub submitted_at : String
  pub started_at : String
  pub finished_at : String
  pub harness : String × String
  pub files : List FileEvent
  pub approvals : List Approval
  pub grounding : Grounding
  pub schema : ℕ
