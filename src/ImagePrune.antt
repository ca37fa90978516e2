-- ===== src/ImagePrune.antt =====
-- internal/prune/prune.go: which superseded images `villa update` may remove. Go's iteration order of
-- a map is the order of its association list; the code sorts what it collects.
pub mod Removes
mod Tests
use Prim.Native.String.{◌++◌ as str_append}
use villa_straylight.Base.{
  ℕ, ◌-◌, String, Bool, true, false, not, ◌||◌, Option, none, some, List, [], ◌∷◌, ◌++◌, length,
  map, str_eq, occurs, sort_texts, if◌then◌else◌, is_empty,
}
use villa_straylight.Subsystem.{Kind, kind_name}
use villa_straylight.PinState.{Dict, values, Previous, Effective, State, previous_for, non_empty}

pub data Action : Type 0 where
  remove retain missing_previous : Action

-- The texts of the reasons, with what they are about: the first holder and how many more there are.
pub data Reason : Type 0 where
  unreferenced : Reason
  referenced_by : String → ℕ → Reason
  gone : Kind → Reason

pub record Decision : Type 0 where
  pub ref : String
  pub action : Action
  pub reason : Reason

pub record Input : Type 0 where
  pub state : State
  pub state_known : Bool
  pub superseded : Dict String
  pub subsystem : Kind
  pub present : Option (String → Bool)

pub record Plan : Type 0 where
  pub decisions : List Decision
  pub blocked : Bool
  pub blocked_reason : String

-- `Plan.Removable`, on the decisions.
unfoldable pub removable_refs : List Decision → List String
removable_refs [] = []
removable_refs (d ∷ ds) =
    let rest = removable_refs ds in
    elim d.action [ remove ↦ d.ref ∷ rest | retain ↦ rest | missing_previous ↦ rest ]

unfoldable pub removable : Plan → List String
removable p = removable_refs p.decisions

-- The loops of `referenceSet`: the holders of a reference. A set is a function of the reference.
unfoldable pub pin_holders : String → Dict Effective → List String
pin_holders ref [] = []
pin_holders ref ((id, e) ∷ m) =
    let rest = pin_holders ref m in
    if str_eq e.ref ref then str_append "the current pin for " id ∷ rest else rest

unfoldable pub ref_holders : String → String → Dict String → List String
ref_holders ref sub [] = []
ref_holders ref sub ((id, r) ∷ m) =
    let rest = ref_holders ref sub m in
    if str_eq r ref
    then str_append "the retained previous for "
        (str_append sub (str_append " (" (str_append id ")")))
      ∷ rest
    else rest

unfoldable pub previous_holders : String → Dict Previous → List String
previous_holders ref [] = []
previous_holders ref ((sub, p) ∷ m) = ref_holders ref sub p.refs ++ previous_holders ref m

-- `referenceSet`, which has no entry for the empty reference.
unfoldable pub reference_set : State → String → List String
reference_set s ref =
    if str_eq ref ""
    then []
    else sort_texts (pin_holders ref s.pins ++ previous_holders ref s.previous)

-- `describeHolders`, of a first holder and the others.
unfoldable pub describe_holders : String → List String → Reason
describe_holders h others = referenced_by h (length others)

-- The decision on one superseded reference, by its holders.
unfoldable pub judge : String → List String → Decision
judge ref [] = record { ref = ref; action = remove; reason = unreferenced }
judge ref (h ∷ others) = record { ref = ref; action = retain; reason = describe_holders h others }

unfoldable pub judge_all : (String → List String) → List String → List Decision
judge_all holders [] = []
judge_all holders (ref ∷ refs) = judge ref (holders ref) ∷ judge_all holders refs

-- The loop that drops empty and repeated references.
unfoldable pub distinct_refs : List String → List String → List String
distinct_refs seen [] = []
distinct_refs seen (ref ∷ refs) =
    let skipped = distinct_refs seen refs in
    let kept = distinct_refs (ref ∷ seen) refs in
    if str_eq ref "" || occurs ref seen then skipped else ref ∷ kept

unfoldable pub missing_refs : Kind → (String → Bool) → List String → List Decision
missing_refs k present [] = []
missing_refs k present (ref ∷ refs) =
    let rest = missing_refs k present refs in
    if present ref
    then rest
    else record { ref = ref; action = missing_previous; reason = gone k } ∷ rest

unfoldable pub missing_of : Kind → (String → Bool) → Option Previous → List Decision
missing_of k present none = []
missing_of k present (some prev) =
    missing_refs k present (sort_texts (non_empty (values prev.refs)))

unfoldable pub missing_checked : Input → Option (String → Bool) → List Decision
missing_checked i none = []
missing_checked i (some present) = missing_of i.subsystem present (previous_for i.state i.subsystem)

-- `missingPreviousDecisions`
unfoldable pub missing_previous_decisions : Input → List Decision
missing_previous_decisions i = missing_checked i i.present

unfoldable pub decide : Input → Plan
decide i =
    if i.state_known
    then record {
      decisions =
          judge_all (reference_set i.state) (sort_texts (distinct_refs [] (values i.superseded)))
          ++ missing_previous_decisions i;
      blocked = false;
      blocked_reason = "";
    }
    else record {
      decisions = [];
      blocked = true;
      blocked_reason =
          "villa could not read its record of which images are in use, so it will not remove any. An unreadable record is not the same as an empty one, and only one of those makes an image safe to delete.";
    }
