-- ===== src/TaskRun/Live.antt =====
-- internal/taskrun/worker.go: a record's changes of state succeed while it can be written.
use villa_straylight.Base.{
  List, ◌≡◌, refl, sym, ◌∙◌, subst, ap, ◌⊎◌, inl, inr, String, true, false, some, ok, err, arith,
  eq_iff, Bool-cases,
}
use villa_straylight.TaskStore.{State, failed, same_state, state_number, can_transition, Task}
use villa_straylight.TaskStore.Records.{
  illegal_edge, Disk, valid_id, find_file, put_file, read_file, load, write_record, with_exit,
  written, transition_from, transition,
}
use villa_straylight.TaskStore.Filed.{find-put}
use villa_straylight.TaskStore.Keeps.{with_exit-fields}
use villa_straylight.TaskRun.Signals.{Earned}
use villa_straylight.TaskRun.{Signal, Deps, Job}
use villa_straylight.TaskRun.Moves.{shadow, settled_with, finish_write, finish, move_to}

-- A readable and writable record in a state.
pub record IsAt (id : String) (s : State) (d : Disk) : Type 0 where
  pub stored : Task
  pub loads : load id d ≡ ok stored
  pub named : stored.id ≡ id
  pub state : stored.state ≡ s
  pub writable : d.unwritable id ≡ false

load-put_self :
    (id : String) (t t' : Task) (d : Disk)
    → load id d ≡ ok t
    → t'.id ≡ id
    → load id (record d { records = put_file t'.id t' d.records }) ≡ ok t'
unfolding load
load-put_self id t t' d e i = elim (Bool-cases (valid_id id)) [
  | inl v ↦
      let found : find_file id (put_file t'.id t' d.records) ≡ some (some t') =
        find-put t'.id id t' d.records ∙ rw ((eq_iff t'.id id).1 i) refl in
      rw (v, found) (unfold read_file in refl)
  | inr v ↦ absurd (ground (arith, e, v))
]

-- A legal edge is taken.
pub transition-takes :
    (id : String) (s to : State) (f : Task → Task) (d : Disk)
    → IsAt id s d
    → can_transition s to ≡ true
    → ((t : Task) → ((f t).id ≡ t.id) × ((f t).state ≡ t.state))
    → (t' : Task) × (e : Disk) × (transition id to f d ≡ (ok t', e)) × IsAt id to e × (t'.id ≡ id)
unfolding transition
transition-takes id s to f d a can keeps =
    let t = a.stored in
    let u = record t { state = to } in
    let t' = with_exit to (f u) in
    let fields = with_exit-fields to (f u) in
    let named = fields.0 ∙ ((keeps u).0 ∙ a.named) in
    let free = subst (λ j. d.unwritable j ≡ false) (sym named) a.writable in
    let e : Disk = record d { records = put_file t'.id t' d.records } in
    let legal = subst (λ x. can_transition x to ≡ true) (sym a.state) can in
    (
      t',
      e,
      rw (a.loads) (unfold transition_from write_record written in rw (legal, free) refl),
      record {
        stored = t';
        loads = load-put_self id t t' d a.loads named;
        named = named;
        state = fields.1 ∙ (keeps u).1;
        writable = a.writable;
      },
      named,
    )

-- An illegal edge changes nothing.
pub transition-refuses :
    (id : String) (s to : State) (f : Task → Task) (d : Disk)
    → IsAt id s d
    → can_transition s to ≡ false
    → transition id to f d ≡ (err (illegal_edge s to), d)
unfolding transition
transition-refuses id s to f d a can =
    let illegal = subst (λ x. can_transition x to ≡ false) (sym a.state) can in
    rw (a.loads) (unfold transition_from in rw (illegal, a.state) refl)

-- The record of a job.
pub record IsLive (id : String) (s : State) (j : Job) : Type 0 where
  pub at : IsAt id s j.disk
  pub ours : j.task.id ≡ id

abbrev pub IsOver : String → List Signal → Job → Type 0
IsOver id ss j = (t : Task) × (load id j.disk ≡ ok t) × Earned ss t.state

module _ (deps : Deps) (id : String) where
  -- What a transition of the job's record gives, under whatever name the job has for it.
  Takes : State → (Task → Task) → Job → Type 0
  Takes to f j =
      (t' : Task) × (e : Disk) × (transition j.task.id to f j.disk ≡ (ok t', e))
      × IsAt id to e
      × (t'.id ≡ id)

  job-Takes :
      (s to : State) (f : Task → Task) (j : Job)
      → IsLive id s j
      → can_transition s to ≡ true
      → ((t : Task) → ((f t).id ≡ t.id) × ((f t).state ≡ t.state))
      → Takes to f j
  unfolding Takes
  job-Takes s to f j l can keeps =
      subst
        (λ i.
          (t' : Task) × (e : Disk) × (transition i to f j.disk ≡ (ok t', e))
          × IsAt id to e
          × (t'.id ≡ id))
        (sym l.ours) (transition-takes id s to f j.disk l.at can keeps)

  job-refuses :
      (s to : State) (f : Task → Task) (j : Job)
      → IsLive id s j
      → can_transition s to ≡ false
      → transition j.task.id to f j.disk ≡ (err (illegal_edge s to), j.disk)
  job-refuses s to f j l can =
      subst (λ i. transition i to f j.disk ≡ (err (illegal_edge s to), j.disk)) (sym l.ours)
        (transition-refuses id s to f j.disk l.at can)

  finish_write-takes :
      (s to : State) (j : Job)
      → IsLive id s j
      → can_transition s to ≡ true
      → (t' : Task) × (e : Disk) × (finish_write deps j to ≡ (ok t', e)) × IsAt id to e
  unfolding finish_write Takes
  finish_write-takes s to j l can =
      let w =
        job-Takes s to (λ t. record (shadow j.task t) { finished_at = deps.now }) j l can
          (λ t. unfold shadow in (refl, refl)) in
      (w.0, w.1, w.2, w.3)

  same_state-failed : (s : State) → same_state s failed ≡ true → s ≡ failed
  unfolding same_state state_number
  same_state-failed failed h = refl
  same_state-failed _ h = absurd (ground (arith, h))

  pub finish-IsOver :
      (ss : List Signal) (s to : State) (j : Job)
      → IsLive id s j
      → Earned ss to
      → (can_transition s to ≡ true) ⊎ (can_transition s failed ≡ true)
      → IsOver id ss (finish deps j to)
  unfolding finish settled_with
  finish-IsOver ss s to j l over (inl can) =
      let w = finish_write-takes s to j l can in
      rw (w.2) (w.3.stored, w.3.loads, subst (Earned ss) (sym w.3.state) over)
  finish-IsOver ss s to j l over (inr can) = elim (Bool-cases (can_transition s to)) [
    | inl c ↦
        let w = finish_write-takes s to j l c in
        rw (w.2) (w.3.stored, w.3.loads, subst (Earned ss) (sym w.3.state) over)
    | inr c ↦
        let r : finish_write deps j to ≡ (err (illegal_edge s to), j.disk) =
          unfold finish_write in
          job-refuses s to (λ t. record (shadow j.task t) { finished_at = deps.now }) j l c in
        elim (Bool-cases (same_state to failed)) [
          | inl e ↦
              absurd (ground (arith, can, c, ap (λ x. can_transition s x) (same_state-failed to e)))
          | inr e ↦
              let j' = record j { disk = j.disk } in
              let w = finish_write-takes s failed j' (record { at = l.at; ours = l.ours }) can in
              rw (r, e) (rw (w.2) (w.3.stored, w.3.loads, subst (Earned ss) (sym w.3.state) tt))
        ]
  ]

  pub move_to-IsLive :
      (s to : State) (f : Task → Task) (j : Job)
      → IsLive id s j
      → can_transition s to ≡ true
      → ((t : Task) → ((f t).id ≡ t.id) × ((f t).state ≡ t.state))
      → IsLive id to (move_to deps j to f)
        × ((move_to deps j to f).pending ≡ j.pending)
        × ((move_to deps j to f).is_complete ≡ j.is_complete)
  unfolding move_to settled_with Takes
  move_to-IsLive s to f j l can keeps =
      let w =
        job-Takes s to (λ t. f (shadow j.task t)) j l can
          (λ t. let k = keeps (shadow j.task t) in unfold shadow in k) in
      rw (w.2) (record { at = w.3; ours = w.4 }, refl, refl)
