-- ===== src/TaskRun/Tests.antt =====
-- internal/taskrun: a task that asks to write a document and is checked after it.
use villa_straylight.Base.{
  ◌≡◌, refl, String, Bool, true, false, Option, none, some, List, [], ◌∷◌, ok, codes, is_space,
}
use villa_straylight.Approval.{ask_mode}
use villa_straylight.Approval.Answers.{row, table, or_ask, answer, decide_as, decide}
use villa_straylight.Approval.Commands.{
  is_deletion, chain_segments, segments_from, segment_deletes, runs_deletion, effective_command,
  effective_from, fields, tokens_from,
}
use villa_straylight.TaskStore.{
  State, awaiting_approval, done, failed, interrupted, same_state, state_number, terminal,
  transitions, occurs_state, can_transition, exit_code,
}
use villa_straylight.TaskStore.Records.{
  is_digit, is_hex, after_class, after_dash, then_class, is_end, valid_id, find_file, put_file,
  read_file, load, write_record, with_exit, written, transition_from, transition,
}
use villa_straylight.TaskStore.Filed.{AllFiled}
use villa_straylight.TaskRun.Example.{id, task, disk, deps}
use villa_straylight.TaskRun.{
  GrantAnswer, PermissionRequest, Event, permission_request, file, run_complete, files_read,
  bridge_ready, Signal, cancelled, answered, received, closed, Job,
}
use villa_straylight.TaskRun.Moves.{
  guest_rel, shadow, settled_with, grant, action_of, request_of, approval_of, grant_text, answer_at,
  is_session, add_file, finish_write, finish, move_to, finish_after_cancel, park, decide_by,
  decide_request, answer_parked, answer_pending,
}
use villa_straylight.TaskRun.Audit.{is_flagged, sources_of, report_on, audit_files, audit}
use villa_straylight.TaskRun.Worker.{
  cancellation, new_job, on_event, settle, loop, start, await_ready, launch, configure, run_loaded,
  run,
}
use villa_straylight.TaskRun.Granted.{AreExplained, grants_of, run-AreExplained}
use villa_straylight.TaskRun.Parked.{handled, answer_pending-lands}
use villa_straylight.TaskRun.Ends.{Ended, run-Ended}

-- Every function of the worker and of the store, to be opened at once.
worker : Unit {0}
unfolding state_number same_state transitions terminal occurs_state can_transition exit_code
    is_digit is_hex after_class after_dash then_class is_end valid_id find_file put_file read_file
    load write_record with_exit written transition_from transition codes is_space row table or_ask
    answer decide_as decide guest_rel shadow settled_with grant action_of request_of approval_of
    grant_text answer_at is_session add_file finish_write finish move_to finish_after_cancel park
    decide_by decide_request answer_parked answer_pending is_flagged sources_of report_on
    audit_files audit cancellation new_job on_event settle loop start await_ready launch configure
    run_loaded run is_deletion chain_segments segments_from segment_deletes runs_deletion
    effective_command effective_from fields tokens_from
worker = tt

abbrev request : String → String → PermissionRequest
request i action = record {
  id = i;
  tool = codes "write";
  action = codes action;
  path = codes "/workspace/summary.md";
  command = [];
}

-- The second request comes while the first is parked.
abbrev signals : List Signal
signals =
    received (bridge_ready "0.9")
    ∷ received (permission_request (some (request "p0" "read")))
    ∷ received (permission_request (some (request "p1" "write")))
    ∷ received (permission_request (some (request "p2" "write")))
    ∷ answered GrantAnswer.allow_session "operator"
    ∷ received (permission_request (some (request "p3" "write")))
    ∷ received (file (some (codes "/workspace/summary.md")))
    ∷ received run_complete
    ∷ received (files_read (codes "/workspace/notes.md" ∷ []))
    ∷ closed
    ∷ []

-- How a run ends: the state of the record.
abbrev end_of : Option (Job × Bool) → Option (State × Bool)
end_of none = none
end_of (some (j, over)) = some (j.task.state, over)

answers :
    grants_of (run deps id disk signals)
    ≡ ("p3", GrantAnswer.allow)
      ∷ ("p1", GrantAnswer.allow_session)
      ∷ ("p2", GrantAnswer.deny)
      ∷ ("p0", GrantAnswer.allow)
      ∷ []
unfolding worker
answers = refl

ends_done : end_of (run deps id disk signals) ≡ some (done, true)
unfolding worker
ends_done = refl

-- The stream ends while a request is parked, after the run was complete: the edge to `done` is
-- refused, and the task fails.
ends_parked :
    end_of (
      run deps id disk (
        received (bridge_ready "0.9")
        ∷ received (permission_request (some (request "p1" "write")))
        ∷ received run_complete
        ∷ closed
        ∷ []))
    ≡ some (failed, true)
unfolding worker
ends_parked = refl

ends_interrupted : end_of (run deps id disk (cancelled true ∷ [])) ≡ some (interrupted, true)
unfolding worker
ends_interrupted = refl

disk-AllFiled : AllFiled disk
unfolding worker
disk-AllFiled = ((refl, refl), tt)

loaded : load id disk ≡ ok task
unfolding worker
loaded = refl

run-AreExplained_example : AreExplained ask_mode signals (grants_of (run deps id disk signals))
run-AreExplained_example = run-AreExplained deps id disk task signals disk-AllFiled loaded

run-Ended_example : Ended id signals (run deps id disk signals)
run-Ended_example = run-Ended deps id disk task signals disk-AllFiled loaded refl refl tt

-- A task that waits for the answer to its first request.
abbrev parked : Job
parked = record {
  task = record task {
    state = awaiting_approval;
    approvals =
        approval_of "2026-09-10T12:02:00Z" (new_job task disk) (request "p1" "write") "" "" "" ∷ [];
  };
  session_allow = false;
  pending = some 0;
  pending_id = "p1";
  is_complete = false;
  files_read = [];
  seen = [];
  disk = disk;
  grants = [];
}

abbrev meantime : List Event
meantime =
    permission_request (some (request "p2" "write")) ∷ file (some (codes "/workspace/a.md")) ∷ []

answer_pending-lands_example :
    ((answer_pending deps (handled deps meantime parked) GrantAnswer.deny "operator").grants
      ≡ ("p1", GrantAnswer.deny) ∷ (handled deps meantime parked).grants)
    × ((answer_pending deps
          (handled deps meantime parked)
          GrantAnswer.deny
          "operator").task.approvals
        ≡ answer_at 0 deps.now (grant_text GrantAnswer.deny) "operator" parked.task.approvals)
    × ((answer_pending deps (handled deps meantime parked) GrantAnswer.deny "operator").pending
        ≡ none)
answer_pending-lands_example =
    answer_pending-lands deps parked 0 meantime GrantAnswer.deny "operator" refl
