-- ===== src/SnapshotPrune/Tests.antt =====
-- internal/snapshotprune: a displaced snapshot goes unless it is still a rollback target.
use villa_straylight.Base.{
  ◌≡◌, refl, String, Bool, true, false, some, [], ◌∷◌, occurs, insert_text, sort_texts,
}
use villa_straylight.Subsystem.{chat, every, kind_name}
use villa_straylight.PinState.{State, Previous, DataSnapshot, taken, lookup}
use villa_straylight.SnapshotPrune.{
  Input, removable_paths, removable, live_targets, text_at, judge, superseded_decisions,
  first_named, subsystem_by_name, missing_reason, missing_entry, missing_entries, keys,
  missing_checked, missing_decisions, decide,
}
use villa_straylight.SnapshotPrune.Removes.{decide-removes_only}
use villa_straylight.SnapshotPrune.Surfaces.{missing_paths, decide-surfaces}

abbrev snapshot : String → DataSnapshot
snapshot path = record { volume = "data"; path = path; bytes = 10; taken_at = "" }

abbrev retained : Previous
retained = record {
  refs = [];
  units = [];
  config = "";
  snapshot = snapshot "new.tar";
  captured_at = "";
}

abbrev stored : State
stored = record {
  schema_version = 1;
  pins = [];
  previous = ("chat", retained) ∷ [];
  serial = 1;
  checked_at = "";
}

abbrev on_disk : String → Bool
on_disk path = false

abbrev displaced : String → Input
displaced path = record {
  state = stored;
  state_known = true;
  superseded = snapshot path;
  subsystem = chat;
  present = some on_disk;
}

pruning : Unit {0}
unfolding decide removable removable_paths superseded_decisions judge text_at live_targets lookup
    taken missing_decisions missing_checked missing_entries missing_entry missing_reason
    subsystem_by_name first_named every kind_name keys sort_texts insert_text
pruning = tt

keeps_live : removable (decide (displaced "new.tar")) ≡ []
unfolding pruning
keeps_live = refl

decide-removes_only_example : removable (decide (displaced "old.tar")) ≡ "old.tar" ∷ []
unfolding taken
decide-removes_only_example = decide-removes_only (displaced "old.tar")

is_retained : lookup "chat" stored.previous ≡ some retained
unfolding lookup
is_retained = refl

is_taken : taken retained.snapshot ≡ true
unfolding taken
is_taken = refl

decide-surfaces_example :
    occurs "new.tar" (missing_paths (decide (displaced "old.tar")).decisions) ≡ true
decide-surfaces_example =
    decide-surfaces (displaced "old.tar") on_disk "chat" retained refl refl is_retained is_taken
      refl
