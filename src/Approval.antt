-- ===== src/Approval.antt =====
-- internal/approval/approval.go: how a task's tool call is answered. A text is the list of its
-- characters' numbers; 47 is `/`, 46 is `.`, 45 is `-` and 32 the space.
pub mod Commands
pub mod Paths
pub mod Answers
pub mod Chains
mod Tests
use villa_straylight.Base.{ℕ, List}

pub data Action : Type 0 where
  read write execute list fetch download : Action
  other_action : List ℕ → Action

pub data Mode : Type 0 where
  ask_mode auto_mode : Mode
  other_mode : List ℕ → Mode

pub data Decision : Type 0 where
  unset allow ask deny : Decision

pub record Request : Type 0 where
  pub action : Action
  pub tool : List ℕ
  pub path : List ℕ
  pub command : List ℕ
  pub workspace : List ℕ
