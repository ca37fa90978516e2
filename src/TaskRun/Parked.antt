-- ===== src/TaskRun/Parked.antt =====
-- internal/taskrun/worker.go, `decide` and `answerPending`: the operator's answer goes to the request
-- that was parked, whatever comes in the meantime.
use villa_straylight.Base.{
  if_both, ◌≡◌, refl, sym, ◌∙◌, ap, ℕ, inl, inr, String, true, Option, none, some, List, [], ◌∷◌,
  Result, ok, err, ok-injective, arith, is_some, Bool-cases,
}
use villa_straylight.Approval.{Decision}
use villa_straylight.Approval.Answers.{decide}
use villa_straylight.TaskStore
use villa_straylight.TaskStore.{State, running, failed, same_state, terminal, can_transition, Task}
use villa_straylight.TaskStore.Records.{
  Error, Disk, load, write_record, with_exit, written, transition_from, transition,
}
use villa_straylight.TaskRun.{
  GrantAnswer, PermissionRequest, Event, permission_request, file, run_complete, files_read,
  bridge_ready, bridge_error, other_event, Deps, Job,
}
use villa_straylight.TaskRun.Moves.{
  shadow, settled_with, finish_write, finish, move_to, grant, request_of, decide_by, decide_request,
  grant_text, answer_at, answer_parked, answer_pending, add_file,
}
use villa_straylight.TaskRun.Worker.{on_event}

-- A change that succeeds leaves these approvals in the record.
abbrev HasApprovals : List TaskStore.Approval → Result Error Task × Disk → Type 0
HasApprovals as' r = (t : Task) → r.0 ≡ ok t → t.approvals ≡ as'

with_exit-approvals : (s : State) (t : Task) → (with_exit s t).approvals ≡ t.approvals
unfolding with_exit
with_exit-approvals s t = elim (Bool-cases (terminal s)) [
  | inl e ↦ rw (e) refl
  | inr e ↦ rw (e) refl
]

written-approvals : (t : Task) (r : Option Error × Disk) → HasApprovals t.approvals (written t r)
unfolding written
written-approvals t (none, d) w e = ap (λ u. u.approvals) (sym (ok-injective e))
written-approvals t (some x, d) w e = absurd (ground (arith, e))

transition_from-approvals :
    (r : Result Error Task) (to : State) (f : Task → Task) (d : Disk)
    → (as' : List TaskStore.Approval) → ((t : Task) → (f t).approvals ≡ as')
    → HasApprovals as' (transition_from r to f d)
unfolding transition_from
transition_from-approvals (err x) to f d as' keeps = λ w e. absurd (ground (arith, e))
transition_from-approvals (ok t) to f d as' keeps = elim (Bool-cases (can_transition t.state to)) [
  | inl c ↦
      let t' = with_exit to (f (record t { state = to })) in
      rw (c) (λ w e.
        written-approvals t' (write_record t' d) w e
        ∙ (with_exit-approvals to (f (record t { state = to })) ∙ keeps (record t { state = to })))
  | inr c ↦ rw (c) (λ w e. absurd (ground (arith, e)))
]

module _ (as' : List TaskStore.Approval) (gs : List (String × GrantAnswer)) (o : Option ℕ) where
  -- The approvals, the answers sent and the parked request of a job.
  record Is (j : Job) : Type 0 where
    approvals : j.task.approvals ≡ as'
    grants : j.grants ≡ gs
    pending : j.pending ≡ o

  settled-Is :
      (j : Job) (r : Result Error Task × Disk) → HasApprovals as' r → Is j → Is (settled_with j r)
  unfolding settled_with
  settled-Is j (ok t, d) h i = record {
    approvals = h t refl;
    grants = i.grants;
    pending = i.pending;
  }
  settled-Is j (err e, d) h i = record {
    approvals = i.approvals;
    grants = i.grants;
    pending = i.pending;
  }

  module _ (deps : Deps) where
    write-Is : (j : Job) (to : State) → Is j → Is (settled_with j (finish_write deps j to))
    unfolding finish_write transition
    write-Is j to i =
        let f : Task → Task = λ t. record (shadow j.task t) { finished_at = deps.now } in
        settled-Is j (transition_from (load j.task.id j.disk) to f j.disk)
          (transition_from-approvals (load j.task.id j.disk) to f j.disk as'
            (λ t. unfold shadow in i.approvals))
          i

    finish-Is : (j : Job) (to : State) → Is j → Is (finish deps j to)
    unfolding finish
    finish-Is j to i =
        let once = write-Is j to i in if_both Is _ once (if_both Is _ once (write-Is _ failed once))

    move_to-Is : (j : Job) (to : State) → Is j → Is (move_to deps j to (λ t. t))
    unfolding move_to transition
    move_to-Is j to i =
        let r = transition_from (load j.task.id j.disk) to (shadow j.task) j.disk in
        let once =
          settled-Is j r
            (transition_from-approvals (load j.task.id j.disk) to (shadow j.task) j.disk as'
              (λ t. unfold shadow in i.approvals))
            i in
        if_both Is _ once (if_both Is _ once (finish-Is (settled_with j r) failed once))

module _ (deps : Deps) where
  -- The events that the loop handles before the answer comes.
  abbrev pub handled : List Event → Job → Job
  handled [] j = j
  handled (e ∷ es) j = handled es (on_event deps e j)

  -- The parked request stays as it is.
  record Waits (j k : Job) : Type 0 where
    pending : k.pending ≡ j.pending
    pending_id : k.pending_id ≡ j.pending_id
    approvals : k.task.approvals ≡ j.task.approvals

  unchanged : (j : Job) → Waits j j
  unchanged j = record { pending = refl; pending_id = refl; approvals = refl }

  decide_by-Waits :
      (dn : Decision) (j : Job) (p : PermissionRequest) (n : ℕ)
      → j.pending ≡ some n
      → Waits j (decide_by deps dn j p)
  unfolding decide_by grant
  decide_by-Waits Decision.ask j p n e =
      let busy : is_some j.pending ≡ true = ap (λ o. is_some o) e in
      rw (busy) (record { pending = refl; pending_id = refl; approvals = refl })
  decide_by-Waits Decision.allow j p n e = record {
    pending = refl;
    pending_id = refl;
    approvals = refl;
  }
  decide_by-Waits Decision.deny j p n e = record {
    pending = refl;
    pending_id = refl;
    approvals = refl;
  }
  decide_by-Waits Decision.unset j p n e = unchanged j

  on_event-Waits : (e : Event) (j : Job) (n : ℕ) → j.pending ≡ some n → Waits j (on_event deps e j)
  unfolding on_event
  on_event-Waits (permission_request none) j n h = unchanged j
  on_event-Waits (permission_request (some p)) j n h =
      unfold decide_request in decide_by-Waits (decide j.task.mode (request_of p)) j p n h
  on_event-Waits (file none) j n h = unchanged j
  on_event-Waits (file (some path)) j n h =
      unfold add_file in record { pending = refl; pending_id = refl; approvals = refl }
  on_event-Waits run_complete j n h = record { pending = refl; pending_id = refl; approvals = refl }
  on_event-Waits (files_read fs) j n h = record {
    pending = refl;
    pending_id = refl;
    approvals = refl;
  }
  on_event-Waits (bridge_ready v) j n h = unchanged j
  on_event-Waits bridge_error j n h = unchanged j
  on_event-Waits other_event j n h = unchanged j

  handled-Waits : (es : List Event) (j : Job) (n : ℕ) → j.pending ≡ some n → Waits j (handled es j)
  handled-Waits [] j n h = unchanged j
  handled-Waits (e ∷ es) j n h =
      let w = on_event-Waits e j n h in
      let v = handled-Waits es (on_event deps e j) n (w.pending ∙ h) in
      record {
        pending = v.pending ∙ w.pending;
        pending_id = v.pending_id ∙ w.pending_id;
        approvals = v.approvals ∙ w.approvals;
      }

  -- While a request is parked, whatever events come, the operator's next answer is sent for that
  -- request and no other, is written into its row of the approvals, which are otherwise as they
  -- were, and leaves no request parked.
  pub answer_pending-lands :
      (j : Job) (n : ℕ) (es : List Event) (g : GrantAnswer) (by : String)
      → j.pending ≡ some n
      → ((answer_pending deps (handled es j) g by).grants
          ≡ (j.pending_id, g) ∷ (handled es j).grants)
        × ((answer_pending deps (handled es j) g by).task.approvals
            ≡ answer_at n deps.now (grant_text g) by j.task.approvals)
        × ((answer_pending deps (handled es j) g by).pending ≡ none)
  unfolding answer_pending answer_parked grant
  answer_pending-lands j n es g by h =
      let k = handled es j in
      let w = handled-Waits es j n h in
      let rows = ap (λ as'. answer_at n deps.now (grant_text g) by as') w.approvals in
      let sent = ap (λ i. (i, g) ∷ k.grants) w.pending_id in
      rw (w.pending ∙ h) (
        let m =
          move_to-Is (answer_at n deps.now (grant_text g) by j.task.approvals)
            ((j.pending_id, g) ∷ k.grants) none deps _ running
            (record { approvals = rows; grants = sent; pending = refl }) in
        (m.grants, m.approvals, m.pending))
