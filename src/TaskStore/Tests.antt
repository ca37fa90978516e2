-- ===== src/TaskStore/Tests.antt =====
-- internal/taskstore: a directory with a queued task, one that is over and an unreadable record.
use villa_straylight.Base.{
  ◌≡◌, refl, ℕ, String, true, false, Option, none, some, [], ◌∷◌, ok, err, codes, str_eq,
}
use villa_straylight.Approval.{ask_mode}
use villa_straylight.TaskStore.{
  State, queued, running, flagged, cancelled, same_state, state_number, terminal, transitions,
  occurs_state, can_transition, exit_code, Task,
}
use villa_straylight.TaskStore.Records.{
  not_found, corrupt, illegal_edge, already_exists, write_failed, Disk, is_digit, is_hex,
  after_class, after_dash, then_class, is_end, valid_id, find_file, put_file, read_file, load,
  write_record, with_exit, create_checked, create, written, transition_from, transition, list_from,
  list, after_interrupt, recover_one, recover_from, ids_of, recover,
}
use villa_straylight.TaskStore.Filed.{Keeps, AllFiled}
use villa_straylight.TaskStore.Runs.{here, next, creates, moves, recovers, Reach-Keeps}
use villa_straylight.TaskStore.Interrupts.{IsDone}
use villa_straylight.TaskStore.Recovery.{recover-settles}

-- Every function of the store, to be opened at once.
store : Unit {0}
unfolding state_number same_state transitions terminal occurs_state can_transition exit_code
    is_digit is_hex after_class after_dash then_class is_end valid_id find_file put_file read_file
    load write_record with_exit create_checked create written transition_from transition list_from
    list after_interrupt recover_one recover_from ids_of recover codes
store = tt

abbrev task : String → State → Option ℕ → Task
task id s exit = record {
  id = id;
  workspace = "/home/op/notes";
  instruction = "Summarise the notes.";
  mode = ask_mode;
  state = s;
  exit = exit;
  submitted_at = "2026-09-10T12:01:15Z";
  started_at = "";
  finished_at = "";
  harness = ("", "");
  files = [];
  approvals = [];
  grounding = record { checked = false; documents = [] };
  schema = 1;
}

abbrev waiting : String
waiting = "20260910-120115-4f2a"

abbrev over : String
over = "20260910-110000-00ff"

abbrev broken : String
broken = "20260910-100000-beef"

abbrev fresh : String
fresh = "20260911-080000-1234"

abbrev disk : Disk
disk = record {
  records =
      (broken, none)
      ∷ (over, some (task over flagged (some 2)))
      ∷ (waiting, some (task waiting queued none))
      ∷ [];
  unwritable = λ id. str_eq id fresh;
}

disk-AllFiled : AllFiled disk
unfolding store
disk-AllFiled = (tt, ((refl, refl), ((refl, refl), tt)))

-- Hexadecimal digits are small, and nothing comes after them.
valid_ids :
    (valid_id waiting ≡ true)
    × (valid_id "20260910-120115-4F2A" ≡ false)
    × (valid_id "20260910-120115-4f2a1" ≡ false)
    × (valid_id "../20260910-120115-4f2a" ≡ false)
unfolding store
valid_ids = (refl, refl, refl, refl)

loads :
    (load waiting disk ≡ ok (task waiting queued none))
    × (load broken disk ≡ err corrupt)
    × (load fresh disk ≡ err not_found)
unfolding store
loads = (refl, refl, refl)

creations :
    ((create (task over queued none) disk).0 ≡ some already_exists)
    × ((create (task fresh queued none) disk).0 ≡ some write_failed)
    × ((create (task "20260911-080000-1235" queued none) disk).0 ≡ none)
unfolding store
creations = (refl, refl, refl)

refused_edge : transition over running (λ t. t) disk ≡ (err (illegal_edge flagged running), disk)
unfolding store
refused_edge = refl

legal_edge : (transition waiting cancelled (λ t. t) disk).0 ≡ ok (task waiting cancelled (some 1))
unfolding store
legal_edge = refl

-- The unreadable record is skipped, where a listing stops at it.
recovered :
    ((recover disk).ids ≡ waiting ∷ [])
    × ((recover disk).skipped ≡ (broken, corrupt) ∷ [])
    × (list disk ≡ err corrupt)
unfolding store
recovered = (refl, refl, refl)

abbrev late : Task
late = task "20260911-080000-1235" queued none

abbrev after_create : Disk
after_create = (create late disk).1

abbrev after_start : Disk
after_start = (transition waiting running (λ t. t) after_create).1

Reach-Keeps_example : Keeps disk (recover after_start).disk
Reach-Keeps_example = Reach-Keeps disk-AllFiled (
    next
      (next (next here (creates late disk refl))
        (moves waiting running (λ t. t) after_create (λ u. (refl, refl, refl))))
      (recovers after_start))

recover-settles_example :
    ((id : String) → IsDone id (recover disk).disk)
    × ((recover (recover disk).disk).ids ≡ [])
    × ((recover (recover disk).disk).disk ≡ (recover disk).disk)
recover-settles_example = recover-settles disk disk-AllFiled
