-- ===== src/TaskStore/Runs.antt =====
-- internal/taskstore/taskstore.go: any sequence of the operations on the records.
use villa_straylight.Base.{
  ◌≡◌, refl, inl, inr, String, Bool, none, List, [], ◌∷◌, Result, ok, err, Bool-cases,
}
use villa_straylight.TaskStore.{State, interrupted, terminal, Task}
use villa_straylight.TaskStore.Records.{
  Error, Disk, load, create, transition, Recovered, after_interrupt, recover_one, recover_from,
  ids_of, recover,
}
use villa_straylight.TaskStore.Filed.{Keeps, AllFiled, Keeps-refl, Keeps-trans}
use villa_straylight.TaskStore.Keeps.{IsPolite, create-Keeps, transition-Keeps}

after_interrupt-Keeps :
    (id : String) (r : Result Error Task × Disk) (rest : Disk → Recovered) (d : Disk)
    → Keeps d r.1
    → (AllFiled r.1 → Keeps r.1 (rest r.1).disk)
    → Keeps d (after_interrupt id r rest).disk
unfolding after_interrupt
after_interrupt-Keeps id (ok t, e) rest d k h = Keeps-trans d e _ k (h k.filed)
after_interrupt-Keeps id (err x, e) rest d k h = Keeps-trans d e _ k (h k.filed)

one-Keeps :
    (id : String) (r : Result Error Task) (d : Disk)
    → AllFiled d
    → (rest : Disk → Recovered) → ((e : Disk) → AllFiled e → Keeps e (rest e).disk)
    → Keeps d (recover_one id r d rest).disk
unfolding recover_one
one-Keeps id (err x) d h rest k = k d h
one-Keeps id (ok t) d h rest k = elim (Bool-cases (terminal t.state)) [
  | inl e ↦ rw (e) (k d h)
  | inr e ↦ rw (e) (
      after_interrupt-Keeps id (transition id interrupted (λ t'. t') d) rest d
        (transition-Keeps id interrupted (λ t'. t') d (λ u. (refl, refl, refl)) h)
        (k (transition id interrupted (λ t'. t') d).1))
]

-- The loop of `Recover`.
recover_from-Keeps : (ids : List String) (d : Disk) → AllFiled d → Keeps d (recover_from ids d).disk
unfolding recover_from
recover_from-Keeps [] d h = Keeps-refl d h
recover_from-Keeps (id ∷ ids) d h =
    one-Keeps id (load id d) d h (recover_from ids) (recover_from-Keeps ids)

-- One operation, or a change of what can be written.
pub data Step : Disk → Disk → Type 0 where
  creates : (t : Task) (d : Disk) → t.exit ≡ none → Step d (create t d).1
  moves :
      (id : String) (to : State) (f : Task → Task) (d : Disk)
      → IsPolite f
      → Step d (transition id to f d).1
  recovers : (d : Disk) → Step d (recover d).disk
  locks : (u : String → Bool) (d : Disk) → Step d (record d { unwritable = u })

pub data Reach (d : Disk) : Disk → Type 0 where
  here : Reach d d
  next : {e f : Disk} → Reach d e → Step e f → Reach d f

Step-Keeps : {d e : Disk} → Step d e → AllFiled d → Keeps d e
Step-Keeps (creates t d fresh) h = create-Keeps t d fresh h
Step-Keeps (moves id to f d polite) h = transition-Keeps id to f d polite h
Step-Keeps (recovers d) h = unfold recover in recover_from-Keeps (ids_of d.records) d h
Step-Keeps (locks u d) h = record { filed = h; settled = λ id t s. s }

-- A directory that is in order is taken through creations of tasks that have no exit code yet,
-- transitions whose change leaves the id, the state and the exit code alone, recoveries, and changes
-- of which records can be written. Whatever their sequence, each readable record stands under its own
-- id with an exit code just where its state is terminal, and a record whose state was terminal is
-- there unchanged.
pub Reach-Keeps : {d e : Disk} → AllFiled d → Reach d e → Keeps d e
Reach-Keeps {d} h here = Keeps-refl d h
Reach-Keeps h (next {e} {f} r st) =
    let k = Reach-Keeps h r in Keeps-trans _ e f k (Step-Keeps st k.filed)
