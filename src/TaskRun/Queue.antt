-- ===== src/TaskRun/Queue.antt =====
-- internal/taskrun/taskrun.go: the queue of tasks and the calls of its users, in the parts that the
-- runner's lock keeps apart: what a call does under the lock is one function, and what it reads and
-- writes in the store without the lock is another. Only the record that a refused call reads after the
-- lock, for the error it returns, is taken from the store as it was under the lock. A channel of
-- capacity one is a list, and a send to a full one blocks with the lock held.
mod Tests
use villa_straylight.Base.{
  ℕ, zero, suc, ◌≡◌, String, Bool, true, false, not, ◌&&◌, Option, none, some, List, [], ◌∷◌, ◌++◌,
  Result, ok, err, str_eq, occurs, if◌then◌else◌,
}
use villa_straylight.Approval.{Mode, ask_mode, auto_mode, other_mode}
use villa_straylight.Config.{VillaConfig}
use villa_straylight.TaskStore.{same_state, State, queued, refused, cancelled, terminal, Task}
use villa_straylight.TaskStore.Records.{
  Error, empty_id, already_exists, bad_initial, Disk, find_file, load, write_record, with_exit,
  transition,
}
use villa_straylight.TaskRun.{GrantAnswer, Deps}

-- `active`; `parked` says that the worker's `pending` is set.
pub record Active : Type 0 where
  pub id : String
  pub answers : List (GrantAnswer × String)
  pub cancels : List (Unit {0})
  pub awaiting : Bool
  pub cancelled : Bool
  pub interrupted : Bool
  pub parked : Bool

-- A task that `Submit` has not queued yet: `Create` has seen that there is no record of its id, and
-- has written one or not.
pub record Submission : Type 0 where
  pub task : Task
  pub is_created : Bool

-- `Runner`, with the store's directory and the submissions under way. `is_checked` says that the
-- worker has seen that the runner is not stopped and goes on to the queue.
pub record Runner : Type 0 where
  pub queue : List String
  pub flying : List Submission
  pub current : Option Active
  pub is_checked : Bool
  pub is_stopped : Bool
  pub disk : Disk

pub data Refusal : Type 0 where
  is_terminal not_awaiting : Refusal
  store_failed : Error → Refusal

pub data Call : Type 0 where
  returned : Option Refusal → Runner → Call
  blocked : Call

-- A mode that is not given is `none`.
pub record SubmitRequest : Type 0 where
  pub workspace : String
  pub instruction : String
  pub mode : Option Mode

pub data SubmitError : Type 0 where
  bad_mode empty_instruction no_config : SubmitError

unfoldable pub send : {A : Type 0} → List A → A → Option (List A)
send [] x = some (x ∷ [])
send (_ ∷ _) x = none

unfoldable pub new_active : String → Active
new_active id = record {
  id = id;
  answers = [];
  cancels = [];
  awaiting = false;
  cancelled = false;
  interrupted = false;
  parked = false;
}

unfoldable pub inactive_as : Result Error Task → Refusal
inactive_as (err e) = store_failed e
inactive_as (ok t) = if terminal t.state then is_terminal else not_awaiting

unfoldable pub inactive : String → Runner → Call
inactive id r = returned (some (inactive_as (load id r.disk))) r

unfoldable pub terminal_as : Result Error Task → Option Refusal
terminal_as (err e) = none
terminal_as (ok t) = if terminal t.state then some is_terminal else none

unfoldable pub put_answer : Option (List (GrantAnswer × String)) → Active → Runner → Call
put_answer none a r = blocked
put_answer (some xs) a r =
    returned none (record r { current = some (record a { awaiting = false; answers = xs }) })

unfoldable pub answer_active : Active → GrantAnswer → Runner → Call
answer_active a g r =
    if not a.awaiting
    then returned (some not_awaiting) r
    else put_answer (send a.answers (g, "dashboard")) a r

unfoldable pub answer_current : Option Active → String → GrantAnswer → Runner → Call
answer_current none id g r = inactive id r
answer_current (some a) id g r = if str_eq a.id id then answer_active a g r else inactive id r

-- `answer`, which `Approve` and `Deny` call.
unfoldable pub answer : String → GrantAnswer → Runner → Call
answer id g r = answer_current r.current id g r

unfoldable pub approve : String → Bool → Runner → Call
approve id all r = answer id (if all then GrantAnswer.allow_session else GrantAnswer.allow) r

unfoldable pub deny : String → Runner → Call
deny id r = answer id GrantAnswer.deny r

unfoldable pub put_cancel : Option (List (Unit {0})) → Active → Runner → Call
put_cancel none a r = blocked
put_cancel (some xs) a r = returned none (record r { current = some (record a { cancels = xs }) })

unfoldable pub cancel_active : Active → Runner → Call
cancel_active a r =
    if a.cancelled
    then returned (terminal_as (load a.id r.disk)) r
    else put_cancel (send a.cancels tt) (record a { cancelled = true }) r

unfoldable pub cancel_current : Option Active → String → Runner → Call
cancel_current none id r = inactive id r
cancel_current (some a) id r = if str_eq a.id id then cancel_active a r else inactive id r

unfoldable pub remove_first : String → List String → List String
remove_first id [] = []
remove_first id (x ∷ xs) = let rest = remove_first id xs in if str_eq x id then xs else x ∷ rest

-- `Cancel`, under the lock.
unfoldable pub cancel : String → Runner → Call
cancel id r =
    if occurs id r.queue
    then returned none (record r { queue = remove_first id r.queue })
    else cancel_current r.current id r

unfoldable pub cancelled_as : Result Error Task → Option Refusal
cancelled_as (err e) = some (store_failed e)
cancelled_as (ok t) = none

-- `Close`, under the lock, after `stop` was closed.
unfoldable pub close_current : Option Active → Runner → Call
close_current none r = returned none r
close_current (some a) r =
    if a.cancelled
    then returned none r
    else put_cancel (send a.cancels tt) (record a { cancelled = true; interrupted = true }) r

-- The id of what `Load` returns, the empty one with an error.
unfoldable pub loaded_id : Result Error Task → String
loaded_id (err e) = ""
loaded_id (ok t) = t.id

abbrev pub flying_ids : List Submission → List String
flying_ids [] = []
flying_ids (x ∷ xs) = x.task.id ∷ flying_ids xs

-- The record of the submission that stands at a position is written.
unfoldable pub mark : ℕ → List Submission → List Submission
mark n [] = []
mark zero (x ∷ xs) = record x { is_created = true } ∷ xs
mark (suc n) (x ∷ xs) = x ∷ mark n xs

-- The submission that stands at a position is over.
unfoldable pub land : ℕ → List Submission → List Submission
land n [] = []
land zero (x ∷ xs) = xs
land (suc n) (x ∷ xs) = x ∷ land n xs

unfoldable pub seen_as : Option (Option Task) → Option Error
seen_as none = none
seen_as (some file) = some already_exists

-- `Create` up to its write, which may come later than other calls' writes.
unfoldable pub may_create : Task → Disk → Option Error
may_create t d =
    if str_eq t.id ""
    then some empty_id
    else if not (same_state t.state queued) && not (same_state t.state refused)
    then some (bad_initial t.state)
    else seen_as (find_file t.id d.records)

-- The write of `Create`.
unfoldable pub create_write : Task → Disk → Option Error × Disk
create_write t d = write_record (with_exit t.state (record t { schema = 1 })) d

unfoldable pub finish_create : ℕ → Option Error × Disk → Runner → Runner
finish_create n (none, d) r = record r { disk = d; flying = mark n r.flying }
finish_create n (some e, d) r = record r { disk = d; flying = land n r.flying }

-- The end of `Submit`: a task that was created is queued, by the id that is read back, unless it is
-- refused.
unfoldable pub enqueue : ℕ → Task → Runner → Runner
enqueue n t r = record r {
  queue = if terminal t.state then r.queue else r.queue ++ loaded_id (load t.id r.disk) ∷ [];
  flying = land n r.flying;
}

module _ (deps : Deps) where
  -- What `Cancel` does after the lock for a task that was queued.
  unfoldable pub cancel_record : String → Disk → Option Refusal × Disk
  cancel_record id d =
      let w = transition id cancelled (λ t. record t { finished_at = deps.now }) d in
      (cancelled_as w.0, w.1)

  unfoldable pub new_task : String → SubmitRequest → Mode → Task
  new_task id req mode = record {
    id = id;
    workspace = req.workspace;
    instruction = req.instruction;
    mode = mode;
    state = queued;
    exit = none;
    submitted_at = deps.now;
    started_at = "";
    finished_at = "";
    harness = ("", "");
    files = [];
    approvals = [];
    grounding = record { checked = false; documents = [] };
    schema = 0;
  }

  -- The task that is refused or queued.
  unfoldable pub judged : VillaConfig → Option String → Task → Task
  judged cfg none t = record t { state = refused; finished_at = deps.now }
  judged cfg (some ws) t =
      if deps.tools_on cfg && deps.sandbox_ready
      then record t { workspace = ws }
      else record t { workspace = ws; state = refused; finished_at = deps.now }

  unfoldable pub prepare_in :
      Option VillaConfig → SubmitRequest → Mode → String → Result SubmitError Task
  prepare_in none req mode id = err no_config
  prepare_in (some cfg) req mode id =
      ok (judged cfg (deps.registered cfg req.workspace) (new_task id req mode))

  unfoldable pub prepare_with : SubmitRequest → Mode → String → Result SubmitError Task
  prepare_with req mode id =
      if str_eq req.instruction ""
      then err empty_instruction
      else prepare_in deps.load_config req mode id

  unfoldable pub prepare_as : Option Mode → SubmitRequest → String → Result SubmitError Task
  prepare_as none req id = prepare_with req ask_mode id
  prepare_as (some ask_mode) req id = prepare_with req ask_mode id
  prepare_as (some auto_mode) req id = prepare_with req auto_mode id
  prepare_as (some (other_mode m)) req id = err bad_mode

  -- `Submit` up to `Create`, with the id that `NewID` made.
  unfoldable pub prepare : SubmitRequest → String → Result SubmitError Task
  prepare req id = prepare_as req.mode req id
