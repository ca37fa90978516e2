-- ===== src/TaskRun/Stored.antt =====
-- internal/taskrun/worker.go: whose record stands in the store while a task runs.
use villa_straylight.Base.{
  ◌≡◌, ◌∙◌, subst, inl, inr, String, Result, ok, err, ok-injective, arith, Bool-cases,
}
use villa_straylight.Approval.{Mode}
use villa_straylight.TaskStore.{State, can_transition, Task}
use villa_straylight.TaskStore.Records.{
  Error, Disk, load, write_record, with_exit, written, transition_from,
}
use villa_straylight.TaskStore.Keeps.{with_exit-fields}
use villa_straylight.TaskStore.Interrupts.{load-put}

module _ (mode : Mode) (id : String) where
  abbrev pub IsOurs : Task → Type 0
  IsOurs t = (t.mode ≡ mode) × (t.id ≡ id)

  abbrev pub IsStored : Disk → Type 0
  IsStored d = (t : Task) → load id d ≡ ok t → IsOurs t

  -- A change of the record that succeeds, and one that does not.
  abbrev pub StaysOurs : Result Error Task × Disk → Type 0
  StaysOurs r = IsStored r.1 × ((t : Task) → r.0 ≡ ok t → IsOurs t)

  write-StaysOurs :
      (t : Task) (d : Disk) → IsOurs t → IsStored d → StaysOurs (written t (write_record t d))
  unfolding write_record
  write-StaysOurs t d o h = elim (Bool-cases (d.unwritable t.id)) [
    | inl bad ↦ rw (bad) (unfold written in (h, λ w k. absurd (ground (arith, k))))
    | inr good ↦ rw (good) (
        unfold written in
        (
          λ w k. elim (load-put t id d w k) [
            | inl hit ↦ subst IsOurs hit o
            | inr miss ↦ h w miss.1
          ],
          λ w k. subst IsOurs (ok-injective k) o,
        ))
  ]

  pub transition-StaysOurs :
      (r : Result Error Task) (to : State) (f : Task → Task) (d : Disk)
      → load id d ≡ r
      → ((t : Task) → ((f t).mode ≡ t.mode) × ((f t).id ≡ t.id))
      → IsStored d
      → StaysOurs (transition_from r to f d)
  unfolding transition_from
  transition-StaysOurs (err x) to f d e keeps h = (h, λ w k. absurd (ground (arith, k)))
  transition-StaysOurs (ok t) to f d e keeps h =
      let u = record t { state = to } in
      let fields = with_exit-fields to (f u) in
      let o = h t e in
      elim (Bool-cases (can_transition t.state to)) [
        | inl c ↦ rw (c) (
            write-StaysOurs (with_exit to (f u)) d
              (fields.2 ∙ ((keeps u).0 ∙ o.0), fields.0 ∙ ((keeps u).1 ∙ o.1)) h)
        | inr c ↦ rw (c) (h, λ w k. absurd (ground (arith, k)))
      ]
