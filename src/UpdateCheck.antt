-- ===== src/UpdateCheck.antt =====
-- internal/updatecheck/check.go: the report of a check for updates. The JSON names and the schema
-- version are left out; a message is its text's data.
pub mod Rows
pub mod Checks
pub mod Counts
pub mod Moves
mod Tests
use Prim.Native.Char.{code}
use Prim.Native.String.{len, slice, ◌++◌ as str_append}
use text.Mathlib.Text.{find?}
use villa_straylight.Base.{
  ℕ, suc, ◌+◌, String, Bool, true, false, not, ◌&&◌, ◌||◌, Option, none, some, List, [], ◌∷◌, ◌++◌,
  is_empty, select, ltb, ◌==◌, str_eq, map, if◌then◌else◌,
}
use villa_straylight.Config.{VillaConfig}
use villa_straylight.Subsystem.{Kind, kind_name, config_key, every, on, same_kind, inference}
use villa_straylight.Pins.{
  Shape, shape_name, Pin, Entry, entries_for, rolling_digest, version_tag, checksummed_asset,
}
use villa_straylight.PinResolve.{Resolved, is_diverged, Resolver, resolve}
use villa_straylight.Manifest
use villa_straylight.Manifest.Verify.{
  Outcome, accepted, refused, absent, Reason, no_reason, Message, Verdict,
}

pub data Result : Type 0 where
  checked could_not_check : Result

pub data Change : Type 0 where
  unset_change no_change rebuilt new_version : Change

-- `unset_state` is the zero value "".
pub data SubsystemState : Type 0 where
  unset_state current update_available skipped : SubsystemState

pub record Component : Type 0 where
  pub name : String
  pub pin_shape : String
  pub vetted : String
  pub effective : String
  pub available : String
  pub change : Change

pub record Subsystem : Type 0 where
  pub name : String
  pub state : SubsystemState
  pub skip_reason : String
  pub components : List Component

pub record ManifestInfo : Type 0 where
  pub state : Outcome
  pub reason : Reason
  pub serial : ℕ
  pub valid_until : String

pub record Summary : Type 0 where
  pub updatable : ℕ
  pub current : ℕ
  pub skipped : ℕ

pub record VillaRelease : Type 0 where
  pub current : String
  pub available : String
  pub change : Change
  pub applied_by_update : Bool

-- The line under the table, or the verdict's message.
pub data Line : Type 0 where
  no_line nothing_moves one_moves : Line
  many_move : ℕ → Line
  verdict_message : Message → Line

pub record Report : Type 0 where
  pub result : Result
  pub checked_at : String
  pub last_successful_check : String
  pub manifest : ManifestInfo
  pub subsystems : List Subsystem
  pub villa : Option VillaRelease
  pub summary : Option Summary
  pub message : Line
  pub diverged : List Component

pub record Input : Type 0 where
  pub cfg : VillaConfig
  pub resolver : Resolver
  pub verdict : Verdict
  pub checked_at : String
  pub last_successful_check : String
  pub villa_version : String
