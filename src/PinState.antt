-- ===== src/PinState.antt =====
-- internal/pinstate/store.go: the recorded pins, the retained rollback targets and the accessors
-- that do not read an absent store as an empty one. The JSON reading is not modelled: `Load`
-- enters `referenced_refs` as its result.
use text.Mathlib.Text.{◌==◌}
use villa_straylight.Base.{
  ℕ, String, Bool, true, false, not, Option, none, some, List, [], ◌∷◌, ◌++◌, Result, ok, err,
  if◌then◌else◌, ltb, is_empty,
}
use villa_straylight.Subsystem.{Kind, kind_name}

-- Go's `map[string]V` as an association list with the first entry of a key in force.
abbrev pub Dict : Type 0 → Type 0
Dict V = List (String × V)

module _ {V : Type 0} where
  unfoldable pub lookup : String → Dict V → Option V
  lookup k [] = none
  lookup k ((j, v) ∷ m) = if j == k then some v else lookup k m

  unfoldable pub values : Dict V → List V
  values [] = []
  values ((k, v) ∷ m) = v ∷ values m

pub record DataSnapshot : Type 0 where
  pub volume : String
  pub path : String
  pub bytes : ℕ
  pub taken_at : String

abbrev pub no_snapshot : DataSnapshot
no_snapshot = record { volume = ""; path = ""; bytes = 0; taken_at = "" }

unfoldable pub taken : DataSnapshot → Bool
taken d = not (d.path == "")

pub record Previous : Type 0 where
  pub refs : Dict String
  pub units : Dict String
  pub config : String
  pub snapshot : DataSnapshot
  pub captured_at : String

pub record Effective : Type 0 where
  pub ref : String
  pub checksum : String
  pub updated_at : String

pub record State : Type 0 where
  pub schema_version : ℕ
  pub pins : Dict Effective
  pub previous : Dict Previous
  pub serial : ℕ
  pub checked_at : String

unfoldable pub effective_for : State → String → Option Effective
unfolding lookup
effective_for s id = lookup id s.pins

unfoldable pub previous_for : State → Kind → Option Previous
unfolding lookup
previous_for s k = lookup (kind_name k) s.previous

-- `vetted` is the serial compiled into the binary, `pins.Serial()`.
unfoldable pub serial_floor : ℕ → State → ℕ
serial_floor vetted s = if ltb vetted s.serial then s.serial else vetted

-- The non-empty texts of a list.
unfoldable pub non_empty : List String → List String
non_empty [] = []
non_empty (r ∷ rs) = let rest = non_empty rs in if r == "" then rest else r ∷ rest

unfoldable pub effective_refs : Dict Effective → List String
effective_refs [] = []
effective_refs ((id, e) ∷ m) = e.ref ∷ effective_refs m

unfoldable pub previous_refs : Dict Previous → List String
unfolding values
previous_refs [] = []
previous_refs ((sub, p) ∷ m) = values p.refs ++ previous_refs m

unfoldable pub state_refs : State → List String
unfolding non_empty effective_refs previous_refs
state_refs s = non_empty (effective_refs s.pins ++ previous_refs s.previous)

-- The set, whether it can be trusted, and the error of the read.
unfoldable pub referenced_refs : {E : Type 0} → Result E State → List String × Bool × Option E
referenced_refs (err e) = ([], false, some e)
referenced_refs (ok s) =
    let refs = state_refs s in if is_empty refs then (refs, false, none) else (refs, true, none)
