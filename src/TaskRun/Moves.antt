-- ===== src/TaskRun/Moves.antt =====
-- internal/taskrun/worker.go: the changes of the record, and the answers to a permission request.
use villa_straylight.Base.{
  ℕ, zero, suc, ◌+◌, String, Bool, true, false, not, ◌&&◌, Option, none, some, List, [], ◌∷◌, ◌++◌,
  Result, ok, err, codes, has_prefix, same_codes, is_among, is_some, length, if◌then◌else◌,
}
use villa_straylight.Approval
use villa_straylight.Approval.{Decision, Request}
use villa_straylight.Approval.Answers.{decide}
use villa_straylight.Approval.Commands.{is_deletion}
use villa_straylight.TaskStore
use villa_straylight.TaskStore.{
  State, running, awaiting_approval, failed, interrupted, cancelled, same_state, Task, FileEvent,
}
use villa_straylight.TaskStore.Records.{Error, Disk, transition}
use villa_straylight.TaskRun.{GrantAnswer, PermissionRequest, Deps, Job}

abbrev drop_codes : ℕ → List ℕ → List ℕ
drop_codes zero cs = cs
drop_codes (suc n) [] = []
drop_codes (suc n) (c ∷ cs) = drop_codes n cs

-- `strings.TrimPrefix` with `guestWorkspace`.
unfoldable pub guest_rel : List ℕ → List ℕ
guest_rel path = if has_prefix path (codes "/workspace/") then drop_codes 11 path else path

-- The shadow that each transition writes into the record.
unfoldable pub shadow : Task → Task → Task
shadow s t = record t {
  harness = s.harness;
  files = s.files;
  approvals = s.approvals;
  grounding = s.grounding;
}

unfoldable pub settled_with : Job → Result Error Task × Disk → Job
settled_with j (ok t, d) = record j { task = t; disk = d }
settled_with j (err e, d) = record j { disk = d }

abbrev is_ok : Result Error Task × Disk → Bool
is_ok (ok t, d) = true
is_ok (err e, d) = false

unfoldable pub grant : String → GrantAnswer → Job → Job
grant id g j = record j { grants = (id, g) ∷ j.grants }

unfoldable pub action_of : List ℕ → Approval.Action
action_of a =
    if same_codes a (codes "read")
    then Approval.read
    else if same_codes a (codes "write")
    then Approval.write
    else if same_codes a (codes "execute")
    then Approval.execute
    else if same_codes a (codes "list")
    then Approval.list
    else if same_codes a (codes "fetch")
    then Approval.fetch
    else if same_codes a (codes "download")
    then Approval.download
    else Approval.other_action a

unfoldable pub request_of : PermissionRequest → Request
request_of p = record {
  action = action_of p.action;
  tool = p.tool;
  path = p.path;
  command = p.command;
  workspace = codes "/workspace";
}

unfoldable pub approval_of :
    String → Job → PermissionRequest → String → String → String → TaskStore.Approval
approval_of now j p answer answered by = record {
  seq = length j.task.approvals + 1;
  tool = p.tool;
  action = p.action;
  path = guest_rel p.path;
  command = p.command;
  asked_at = now;
  answer = answer;
  answered_at = answered;
  by = by;
}

abbrev with_approval : Job → TaskStore.Approval → Job
with_approval j a =
    let t = j.task in record j { task = record t { approvals = t.approvals ++ a ∷ [] } }

unfoldable pub grant_text : GrantAnswer → String
grant_text GrantAnswer.allow = "allow"
grant_text GrantAnswer.allow_session = "allow_session"
grant_text GrantAnswer.deny = "deny"

unfoldable pub answer_at :
    ℕ → String → String → String → List TaskStore.Approval → List TaskStore.Approval
answer_at n now answer by [] = []
answer_at zero now answer by (a ∷ as') =
    record a { answer = answer; answered_at = now; by = by } ∷ as'
answer_at (suc n) now answer by (a ∷ as') = a ∷ answer_at n now answer by as'

unfoldable pub is_session : GrantAnswer → Bool
is_session GrantAnswer.allow_session = true
is_session _ = false

unfoldable pub add_file : Job → List ℕ → Job
add_file j guest_path =
    let rel = guest_rel guest_path in
    let t = j.task in
    let is_new = not (is_among rel j.seen) in
    let action : String = if is_new then "created" else "modified" in
    let file : FileEvent = record { path = rel; action = action } in
    record j {
      seen = if is_new then rel ∷ j.seen else j.seen;
      task = record t { files = t.files ++ file ∷ [] };
    }

module _ (deps : Deps) where
  -- The write of a finished task.
  unfoldable pub finish_write : Job → State → Result Error Task × Disk
  finish_write j to =
      transition j.task.id to (λ t. record (shadow j.task t) { finished_at = deps.now }) j.disk

  -- `finish`: a refused edge is tried once more as a failure.
  unfoldable pub finish : Job → State → Job
  finish j to =
      let r = finish_write j to in
      let again = settled_with (settled_with j r) (finish_write (settled_with j r) failed) in
      if is_ok r then settled_with j r else if same_state to failed then settled_with j r else again

  -- `transition`
  unfoldable pub move_to : Job → State → (Task → Task) → Job
  move_to j to extra =
      let r = transition j.task.id to (λ t. extra (shadow j.task t)) j.disk in
      let again = finish (settled_with j r) failed in
      if is_ok r then settled_with j r else if same_state to failed then settled_with j r else again

  unfoldable pub finish_after_cancel : Bool → Job → Job
  finish_after_cancel is_interrupted j =
      finish j (if is_interrupted then interrupted else cancelled)

  -- A request that the operator is asked about.
  unfoldable pub park : Job → PermissionRequest → Job
  park j p =
      let asked = with_approval j (approval_of deps.now j p "" "" "") in
      move_to (record asked { pending = some (length j.task.approvals); pending_id = p.id })
        awaiting_approval (λ t. t)

  -- `decide`, by the answer of the table.
  unfoldable pub decide_by : Decision → Job → PermissionRequest → Job
  decide_by Decision.allow j p = grant p.id GrantAnswer.allow j
  decide_by Decision.deny j p = grant p.id GrantAnswer.deny j
  decide_by Decision.unset j p = j
  decide_by Decision.ask j p =
      if is_some j.pending
      then grant p.id GrantAnswer.deny j
      else if j.session_allow && not (is_deletion p.command)
      then grant p.id GrantAnswer.allow
          (with_approval j (approval_of deps.now j p "allow" deps.now "session"))
      else park j p

  unfoldable pub decide_request : Job → PermissionRequest → Job
  decide_request j p = decide_by (decide j.task.mode (request_of p)) j p

  -- `answerPending`, by the parked request.
  unfoldable pub answer_parked : Option ℕ → Job → GrantAnswer → String → Job
  answer_parked none j g by = j
  answer_parked (some n) j g by =
      let t = j.task in
      let noted : Job = record j {
        task = record t { approvals = answer_at n deps.now (grant_text g) by t.approvals };
        session_allow = if is_session g then true else j.session_allow;
      } in
      let sent = grant j.pending_id g noted in
      move_to (record sent { pending = none }) running (λ u. u)

  unfoldable pub answer_pending : Job → GrantAnswer → String → Job
  answer_pending j g by = answer_parked j.pending j g by
