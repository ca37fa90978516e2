-- ===== src/SnapshotPrune.antt =====
-- internal/snapshotprune/snapshotprune.go: which retained data snapshots may be removed. Go's
-- iteration order of a map is the order of its association list.
pub mod Removes
pub mod Surfaces
mod Tests
use Prim.Native.String.{◌++◌ as str_append}
use villa_straylight.Base.{
  ℕ, String, Bool, true, false, not, ◌||◌, Option, none, some, List, [], ◌∷◌, ◌++◌, str_eq,
  sort_texts, if◌then◌else◌,
}
use villa_straylight.Subsystem.{Kind, memory, every, kind_name}
use villa_straylight.PinState.{Dict, lookup, DataSnapshot, taken, Previous, State}

pub data Action : Type 0 where
  remove retain missing : Action

pub record Decision : Type 0 where
  pub subsystem : Kind
  pub path : String
  pub bytes : ℕ
  pub action : Action
  pub reason : String

pub record Input : Type 0 where
  pub state : State
  pub state_known : Bool
  pub superseded : DataSnapshot
  pub subsystem : Kind
  pub present : Option (String → Bool)

pub record Plan : Type 0 where
  pub decisions : List Decision
  pub blocked : Bool
  pub blocked_reason : String

-- `Plan.Removable`, on the decisions.
unfoldable pub removable_paths : List Decision → List String
removable_paths [] = []
removable_paths (d ∷ ds) =
    let rest = removable_paths ds in
    elim d.action [ remove ↦ d.path ∷ rest | retain ↦ rest | missing ↦ rest ]

unfoldable pub removable : Plan → List String
removable p = removable_paths p.decisions

-- `liveTargets`: what points at a path, a later entry over an earlier one.
unfoldable pub live_targets : Dict Previous → Dict String
live_targets [] = []
live_targets ((sub, p) ∷ m) =
    let later = live_targets m in
    if taken p.snapshot
    then later ++ (p.snapshot.path, str_append "the retained previous for " sub) ∷ []
    else later

-- Go's index of a map of texts.
unfoldable pub text_at : Option String → String
text_at none = ""
text_at (some t) = t

-- The decision on the superseded snapshot, by what points at it.
unfoldable pub judge : Kind → DataSnapshot → String → Decision
judge k s holder =
    if str_eq holder ""
    then record {
      subsystem = k;
      path = s.path;
      bytes = s.bytes;
      action = remove;
      reason =
          "it was displaced by the snapshot taken for this update, and no retained tuple points at it";
    }
    else record {
      subsystem = k;
      path = s.path;
      bytes = s.bytes;
      action = retain;
      reason = str_append "it is the rollback target " (str_append holder " points at");
    }

unfoldable pub superseded_decisions : Input → List Decision
superseded_decisions i =
    if taken i.superseded
    then judge i.subsystem i.superseded
        (text_at (lookup i.superseded.path (live_targets i.state.previous)))
      ∷ []
    else []

-- `subsystemByName`, whose zero kind is `memory`.
unfoldable pub first_named : String → List Kind → Kind
first_named name [] = memory
first_named name (k ∷ ks) =
    let rest = first_named name ks in if str_eq (kind_name k) name then k else rest

unfoldable pub subsystem_by_name : String → Kind
subsystem_by_name name = first_named name every

unfoldable pub missing_reason : String → String
missing_reason sub = str_append "recorded as the known-good data for " (
    str_append sub (
      str_append ", but it is no longer on disk — something removed it outside villa, so " (
        str_append sub
          " can no longer be rolled back to the data its previous pin was proven against")))

unfoldable pub missing_entry : (String → Bool) → String → Option Previous → List Decision
missing_entry present sub none = []
missing_entry present sub (some p) =
    if not (taken p.snapshot) || present p.snapshot.path
    then []
    else record {
      subsystem = subsystem_by_name sub;
      path = p.snapshot.path;
      bytes = p.snapshot.bytes;
      action = missing;
      reason = missing_reason sub;
    }
      ∷ []

unfoldable pub missing_entries : (String → Bool) → Dict Previous → List String → List Decision
missing_entries present m [] = []
missing_entries present m (sub ∷ subs) =
    missing_entry present sub (lookup sub m) ++ missing_entries present m subs

unfoldable pub keys : Dict Previous → List String
keys [] = []
keys ((k, p) ∷ m) = k ∷ keys m

unfoldable pub missing_checked : Dict Previous → Option (String → Bool) → List Decision
missing_checked m none = []
missing_checked m (some present) = missing_entries present m (sort_texts (keys m))

-- `missingDecisions`
unfoldable pub missing_decisions : Input → List Decision
missing_decisions i = missing_checked i.state.previous i.present

unfoldable pub decide : Input → Plan
decide i =
    if i.state_known
    then record {
      decisions = superseded_decisions i ++ missing_decisions i;
      blocked = false;
      blocked_reason = "";
    }
    else record {
      decisions = [];
      blocked = true;
      blocked_reason =
          "villa could not read its record of which snapshots are rollback targets, so it will not remove any. An unreadable record is not the same as an empty one, and only one of those makes a snapshot safe to delete.";
    }
