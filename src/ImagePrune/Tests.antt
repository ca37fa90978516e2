-- ===== src/ImagePrune/Tests.antt =====
-- internal/prune: the image that two subsystems share is retained, the other superseded one removed.
use villa_straylight.Base.{
  ◌≡◌, refl, Bool, true, false, some, [], ◌∷◌, occurs, insert_text, sort_texts,
}
use villa_straylight.Subsystem.{memory, kind_name}
use villa_straylight.PinState.{
  State, no_snapshot, values, state_refs, non_empty, effective_refs, previous_refs, previous_for,
  lookup,
}
use villa_straylight.ImagePrune.{
  Input, removable_refs, removable, pin_holders, ref_holders, previous_holders, reference_set,
  describe_holders, judge, judge_all, distinct_refs, missing_refs, missing_of, missing_checked,
  missing_previous_decisions, decide,
}
use villa_straylight.ImagePrune.Removes.{decide-removes}

abbrev stored : State
stored = record {
  schema_version = 1;
  pins = ("backend", record { ref = "vulkan@1"; checksum = ""; updated_at = "" }) ∷ [];
  previous =
      (
        "memory",
        record {
          refs = ("qdrant", "qdrant@1") ∷ [];
          units = [];
          config = "";
          snapshot = no_snapshot;
          captured_at = "";
        },
      )
      ∷ [];
  serial = 4;
  checked_at = "";
}

abbrev input : Bool → Input
input known = record {
  state = stored;
  state_known = known;
  superseded = ("embed", "vulkan@1") ∷ ("qdrant", "qdrant@0") ∷ ("again", "qdrant@0") ∷ [];
  subsystem = memory;
  present = some (λ ref. false);
}

pruning : Unit {0}
unfolding decide removable removable_refs missing_previous_decisions missing_checked missing_of
    missing_refs distinct_refs judge_all judge describe_holders reference_set previous_holders
    ref_holders pin_holders sort_texts insert_text values state_refs non_empty effective_refs
    previous_refs previous_for lookup kind_name
pruning = tt

removes_one : removable (decide (input true)) ≡ "qdrant@0" ∷ []
unfolding pruning
removes_one = refl

blocked : removable (decide (input false)) ≡ []
unfolding pruning
blocked = refl

decide-removes_example : occurs "vulkan@1" (removable (decide (input true))) ≡ false
unfolding values state_refs non_empty effective_refs previous_refs
decide-removes_example = decide-removes (input true) "vulkan@1"
