-- ===== src/TaskRun/Sound.antt =====
-- internal/taskrun/worker.go: what a run keeps true of its job, so that its answers are justified.
use villa_straylight.Base.{
  ℕ, Option, none, some, if_both, ◌≡◌, refl, sym, subst, String, List, Result, ok, err,
}
use villa_straylight.Approval.{Mode}
use villa_straylight.TaskStore.{State, failed, Task}
use villa_straylight.TaskStore.Records.{Error, Disk, load, transition_from, transition}
use villa_straylight.TaskRun.{PermissionRequest, Signal, Deps, Job}
use villa_straylight.TaskRun.Moves.{shadow, settled_with, finish_write, finish, move_to}
use villa_straylight.TaskRun.Reasons.{Standing, standing, Explains}
use villa_straylight.TaskRun.Stored.{IsOurs, IsStored, StaysOurs, transition-StaysOurs}

-- A request is parked just where one waits.
abbrev pub IsParked : Option ℕ → String → Option PermissionRequest → Type 0
IsParked none k none = Unit
IsParked (some n) k (some p) = p.id ≡ k
IsParked _ k _ = ⊥

module _ (mode : Mode) (id : String) where
  -- The job after the signals `h`, in terms of what they leave standing.
  pub record IsSound (h : List Signal) (st : Standing) (j : Job) : Type 0 where
    pub at : standing mode h ≡ st
    pub grants : Explains mode h j.grants
    pub ours : IsOurs mode id j.task
    pub stored : IsStored mode id j.disk
    pub session : j.session_allow ≡ st.1
    pub parked : IsParked j.pending j.pending_id st.0

  module _ (deps : Deps) (h : List Signal) (st : Standing) where
    settled-IsSound :
        (j : Job) (r : Result Error Task × Disk)
        → IsSound h st j
        → StaysOurs mode id r
        → IsSound h st (settled_with j r)
    unfolding settled_with
    settled-IsSound j (ok t, d) s k = record {
      at = s.at;
      grants = s.grants;
      ours = k.1 t refl;
      stored = k.0;
      session = s.session;
      parked = s.parked;
    }
    settled-IsSound j (err e, d) s k = record {
      at = s.at;
      grants = s.grants;
      ours = s.ours;
      stored = k.0;
      session = s.session;
      parked = s.parked;
    }

    job-StaysOurs :
        (j : Job) (to : State) (f : Task → Task)
        → IsSound h st j
        → ((t : Task) → ((f t).mode ≡ t.mode) × ((f t).id ≡ t.id))
        → StaysOurs mode id (transition j.task.id to f j.disk)
    unfolding transition
    job-StaysOurs j to f s keeps =
        subst (λ i. StaysOurs mode id (transition_from (load i j.disk) to f j.disk)) (sym s.ours.1)
          (transition-StaysOurs mode id (load id j.disk) to f j.disk refl keeps s.stored)

    finish_write-StaysOurs :
        (j : Job) (to : State) → IsSound h st j → StaysOurs mode id (finish_write deps j to)
    unfolding finish_write
    finish_write-StaysOurs j to s = job-StaysOurs j to _ s (λ t. unfold shadow in (refl, refl))

    pub finish-IsSound : (j : Job) (to : State) → IsSound h st j → IsSound h st (finish deps j to)
    unfolding finish
    finish-IsSound j to s =
        let once = settled-IsSound j (finish_write deps j to) s (finish_write-StaysOurs j to s) in
        let j' = settled_with j (finish_write deps j to) in
        let twice =
          settled-IsSound j' (finish_write deps j' failed) once
            (finish_write-StaysOurs j' failed once) in
        if_both (IsSound h st) _ once (if_both (IsSound h st) _ once twice)

    pub move_to-IsSound :
        (j : Job) (to : State) (f : Task → Task)
        → ((t : Task) → ((f t).mode ≡ t.mode) × ((f t).id ≡ t.id))
        → IsSound h st j
        → IsSound h st (move_to deps j to f)
    unfolding move_to
    move_to-IsSound j to f keeps s =
        let r = transition j.task.id to (λ t. f (shadow j.task t)) j.disk in
        let once = settled-IsSound j r s (
          job-StaysOurs j to (λ t. f (shadow j.task t)) s
            (λ t. let k = keeps (shadow j.task t) in unfold shadow in k)) in
        if_both (IsSound h st) _ once
          (if_both (IsSound h st) _ once (finish-IsSound (settled_with j r) failed once))

    -- A job that differs in nothing that matters here.
    pub with_task-IsSound :
        (j : Job) (t : Task)
        → IsOurs mode id t
        → IsSound h st j
        → IsSound h st (record j { task = t })
    with_task-IsSound j t o s = record {
      at = s.at;
      grants = s.grants;
      ours = o;
      stored = s.stored;
      session = s.session;
      parked = s.parked;
    }
