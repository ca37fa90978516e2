-- ===== src/TaskRun/Queue/Tests.antt =====
-- internal/taskrun/taskrun.go: users and worker on one queue.
use villa_straylight.Base.{◌≡◌, ◌≢◌, refl, true, false, none, some, [], ◌∷◌, codes, ok, String}
use villa_straylight.TaskStore.{
  Task, cancelled, state_number, same_state, transitions, terminal, occurs_state, can_transition,
  exit_code,
}
use villa_straylight.TaskStore.Records.{
  is_digit, is_hex, after_class, after_dash, then_class, is_end, valid_id, find_file, put_file,
  read_file, load, write_record, with_exit, written, transition_from, transition,
}
use villa_straylight.TaskRun.{GrantAnswer}
use villa_straylight.TaskRun.Example.{id, disk, deps, task}
use villa_straylight.TaskRun.Queue.{
  loaded_id, Active, Submission, Runner, not_awaiting, returned, blocked, SubmitRequest, send,
  new_active, inactive_as, inactive, terminal_as, put_answer, answer_active, answer_current, answer,
  put_cancel, cancel_active, cancel_current, cancelled_as, close_current, cancel, mark, land,
  seen_as, may_create, create_write, finish_create, enqueue, cancel_record, judged, new_task,
  prepare_in, prepare_with, prepare_as, prepare, remove_first,
}
use villa_straylight.TaskRun.Calls.{
  answers, closes, call, looks, creates, enqueues, calls, stops, checks, takes, IsOrderly, Reach,
  here, next, AreApart,
}
use villa_straylight.TaskRun.Reached.{Reach-IsFine}

-- Every function of the calls and of the store, to be opened at once.
users : Unit {0}
unfolding state_number same_state transitions terminal occurs_state can_transition exit_code
    is_digit is_hex after_class after_dash then_class is_end valid_id find_file put_file read_file
    load write_record with_exit written transition_from transition codes send new_active inactive_as
    inactive terminal_as put_answer answer_active answer_current answer put_cancel cancel_active
    cancel_current cancelled_as loaded_id close_current cancel mark land seen_as may_create
    create_write finish_create enqueue cancel_record judged new_task prepare_in prepare_with
    prepare_as prepare remove_first call
users = tt

-- One task in the queue, and an idle worker.
abbrev idle : Runner
idle = record {
  queue = id ∷ [];
  flying = [];
  current = none;
  is_checked = false;
  is_stopped = false;
  disk = disk;
}

abbrev waiting : Active
waiting = record {
  id = id;
  answers = [];
  cancels = [];
  awaiting = true;
  cancelled = false;
  interrupted = false;
  parked = true;
}

-- The runner whose task has parked a request.
abbrev parked : Runner
parked = record idle { queue = []; current = some waiting }

abbrev answered : Runner
answered = record parked {
  current =
      some (record waiting { awaiting = false; answers = (GrantAnswer.allow, "dashboard") ∷ [] });
}

-- A second answer to the same request is refused.
answers_once :
    (answer id GrantAnswer.allow parked ≡ returned none answered)
    × (answer id GrantAnswer.deny answered ≡ returned (some not_awaiting) answered)
unfolding users
answers_once = (refl, refl)

abbrev wish : SubmitRequest
wish = record { workspace = "/home/op/notes"; instruction = "Count the notes."; mode = none }

abbrev second : String
second = "20260910-120116-0001"

-- The task of a submission, and its record.
abbrev counted : Task
counted = record task {
  id = second;
  instruction = "Count the notes.";
  submitted_at = "2026-09-10T12:02:00Z";
  schema = 0;
}

abbrev looked : Runner
looked = record idle { flying = record { task = counted; is_created = false } ∷ [] }

abbrev created : Runner
created = finish_create 0 (create_write counted disk) looked

abbrev queued_both : Runner
queued_both = enqueue 0 counted created

-- The submission's three parts: what it prepares, the record it writes and the queue it leaves.
submits_second :
    (prepare deps wish second ≡ ok counted)
    × (may_create counted idle.disk ≡ none)
    × (load second created.disk ≡ ok (record counted { schema = 1 }))
    × (queued_both.queue ≡ id ∷ second ∷ [])
    × (queued_both.flying ≡ [])
unfolding users
submits_second = (refl, refl, refl, refl, refl)

-- A queued task leaves the queue under the lock; its record is settled afterwards.
cancels_queued :
    (cancel id idle ≡ returned none (record idle { queue = [] }))
    × (load id (cancel_record deps id disk).1
        ≡ ok (record task {
          state = cancelled;
          exit = some 1;
          finished_at = "2026-09-10T12:02:00Z";
        }))
unfolding users
cancels_queued = (refl, refl)

abbrev ready : Runner
ready = record queued_both { is_checked = true }

-- A task that the worker takes after the runner was closed, with another behind it.
abbrev late : Runner
late = record queued_both { queue = second ∷ []; current = some (new_active id); is_stopped = true }

-- A task is submitted, the worker looking at `stop` before it is queued; and the runner is closed
-- between that look and the look at the queue: the worker takes a task all the same, and no
-- cancellation is sent for it.
unfoldable taken_late : Reach deps idle late
unfolding users
taken_late =
    let submission : Submission = record { task = counted; is_created = false } in
    let written : Submission = record { task = counted; is_created = true } in
    let s1 = next here (looks wish second idle counted refl refl) in
    let s2 = next s1 (creates looked 0 submission refl refl) in
    let s3 = next s2 (checks created refl) in
    let s4 = next s3 (enqueues (record created { is_checked = true }) 0 written refl refl) in
    let s5 = next s4 (stops ready) in
    let closed = record ready { is_stopped = true } in
    let s6 = next s5 (calls closes closed closed none refl) in
    next s6 (takes closed id (second ∷ []) refl refl refl)

taken_late-AreApart : AreApart taken_late
unfolding users taken_late
taken_late-AreApart = (((((((tt, (refl, refl)), tt), tt), tt), tt), tt), tt)

abbrev listed : Task
listed = record counted { instruction = "List the notes." }

abbrev racing : Runner
racing = record idle {
  flying =
      record { task = listed; is_created = false }
      ∷ record { task = counted; is_created = false }
      ∷ [];
}

abbrev written_over : Runner
written_over =
    let one = finish_create 1 (create_write counted disk) racing in
    finish_create 0 (create_write listed one.disk) one

-- Two submissions that draw one id and both look before either writes: the second's record takes the
-- place of the first's, and the id is queued twice.
submitted_twice :
    (r : Runner) × Reach deps idle r
    × (r.queue ≡ id ∷ second ∷ second ∷ [])
    × (load second r.disk ≡ ok (record listed { schema = 1 }))
unfolding users
submitted_twice =
    let list : SubmitRequest = record wish { instruction = "List the notes." } in
    let first : Submission = record { task = counted; is_created = false } in
    let last : Submission = record { task = listed; is_created = false } in
    let s1 = next here (looks wish second idle counted refl refl) in
    let s2 = next s1 (looks list second looked listed refl refl) in
    let s3 = next s2 (creates racing 1 first refl refl) in
    let one = finish_create 1 (create_write counted disk) racing in
    let s4 = next s3 (creates one 0 last refl refl) in
    let s5 = next s4 (enqueues written_over 1 (record first { is_created = true }) refl refl) in
    let two = enqueue 1 counted written_over in
    let s6 = next s5 (enqueues two 0 (record last { is_created = true }) refl refl) in
    (_, s6, refl, refl)

idle-IsOrderly : IsOrderly idle
unfolding users
idle-IsOrderly = record {
  distinct = (refl, tt);
  filed = (((task, refl, refl), refl), tt);
  apart = tt;
  flying = tt;
  fits = tt;
}

Reach-IsFine_example : (call (answers id GrantAnswer.deny) late ≢ blocked) × IsOrderly late
Reach-IsFine_example =
    Reach-IsFine deps (answers id GrantAnswer.deny) idle-IsOrderly taken_late taken_late-AreApart
