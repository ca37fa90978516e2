-- ===== src/TaskStore/Recovery.antt =====
-- internal/taskstore/taskstore.go, `Recover`: what it leaves behind, and that it is idempotent.
use villa_straylight.Base.{
  ◌≡◌, refl, sym, ◌∙◌, subst, inl, inr, String, true, false, Option, none, List, [], ◌∷◌, Result,
  ok, err, arith, str_eq, eq_iff, occurs, Bool-cases,
}
use villa_straylight.TaskStore.{interrupted, terminal, can_transition, Task}
use villa_straylight.TaskStore.Records.{
  Error, write_failed, illegal_edge, Disk, find_file, load, write_record, with_exit, written,
  transition_from, transition, Recovered, after_interrupt, recover_one, recover_from, ids_of,
  recover,
}
use villa_straylight.TaskStore.Filed.{AllFiled, find-IsFiled}
use villa_straylight.TaskStore.Keeps.{load-find, with_exit-fields}
use villa_straylight.TaskStore.Runs.{here, next, recovers, Reach-Keeps}
use villa_straylight.TaskStore.Interrupts.{
  IsDone, Interrupts-self, Interrupts-keeps, recover_one-Reads,
}

recover_from-IsDone :
    (ids : List String) (d : Disk)
    → AllFiled d
    → (j : String) → (occurs j ids ≡ false → IsDone j d)
    → IsDone j (recover_from ids d).disk
unfolding recover_from
recover_from-IsDone [] d h j k = k refl
recover_from-IsDone (id ∷ ids) d h j k =
    let step = recover_one-Reads id (load id d) d (recover_from ids) h refl in
    subst (IsDone j) (sym step.3) (
      recover_from-IsDone ids step.0 step.1 j (λ out. elim (Bool-cases (str_eq id j)) [
        | inl hit ↦
            subst (λ x. IsDone x step.0) ((eq_iff id j).0 hit) (Interrupts-self id d step.0 step.2)
        | inr other ↦ Interrupts-keeps id j d step.0 step.2 (k (rw other out))
      ]))

unlisted :
    (j : String) (fs : List (String × Option Task))
    → occurs j (ids_of fs) ≡ false
    → find_file j fs ≡ none
unfolding ids_of find_file
unlisted j [] h = refl
unlisted j ((k, file) ∷ fs) h = elim (Bool-cases (str_eq k j)) [
  | inl e ↦ absurd (ground (arith, h, e))
  | inr e ↦ rw (e) (unlisted j fs (ground (arith, h, e)))
]

recover-IsDone : (d : Disk) → AllFiled d → (j : String) → IsDone j (recover d).disk
unfolding recover
recover-IsDone d h j = recover_from-IsDone (ids_of d.records) d h j (λ out t k.
    let found = sym (unlisted j d.records out) ∙ load-find j d t k in
    absurd (ground (arith, found)))

-- A record that cannot be written is not interrupted.
transition-locked :
    (id : String) (t : Task) (d : Disk)
    → AllFiled d
    → load id d ≡ ok t
    → d.unwritable id ≡ true
    → (x : Error) × (transition_from (ok t) interrupted (λ t'. t') d ≡ (err x, d))
unfolding transition_from
transition-locked id t d h e locked =
    let filed = find-IsFiled id t d.records h (load-find id d t e) in
    let t' = with_exit interrupted (record t { state = interrupted }) in
    let same_id = (with_exit-fields interrupted (record t { state = interrupted })).0 ∙ filed.0 in
    let shut = subst (λ j. d.unwritable j ≡ true) (sym same_id) locked in
    elim (Bool-cases (can_transition t.state interrupted)) [
      | inl c ↦ (write_failed, rw (c) (unfold write_record written in rw (shut) refl))
      | inr c ↦ (illegal_edge t.state interrupted, rw (c) refl)
    ]

-- Where an id is done, the loop passes over it.
recover_one-idle :
    (id : String) (r : Result Error Task) (d : Disk) (rest : Disk → Recovered)
    → AllFiled d
    → load id d ≡ r
    → IsDone id d
    → ((rest d).ids ≡ []) × ((rest d).disk ≡ d)
    → ((recover_one id r d rest).ids ≡ []) × ((recover_one id r d rest).disk ≡ d)
unfolding recover_one
recover_one-idle id (err x) d rest h e done k = k
recover_one-idle id (ok t) d rest h e done k = elim (Bool-cases (terminal t.state)) [
  | inl over ↦ rw (over) k
  | inr live ↦ elim (done t e) [
    | inl over ↦ absurd (ground (arith, over, live))
    | inr locked ↦
        let refused = transition-locked id t d h e locked in
        let whole : transition id interrupted (λ t'. t') d ≡ (err refused.0, d) =
          unfold transition in rw (e) refused.1 in
        rw (live, whole) (unfold after_interrupt in k)
  ]
]

recover_from-idle :
    (ids : List String) (d : Disk)
    → AllFiled d
    → ((j : String) → IsDone j d)
    → ((recover_from ids d).ids ≡ []) × ((recover_from ids d).disk ≡ d)
unfolding recover_from
recover_from-idle [] d h k = (refl, refl)
recover_from-idle (id ∷ ids) d h k =
    recover_one-idle id (load id d) d (recover_from ids) h refl (k id) (recover_from-idle ids d h k)

-- After a recovery of a directory that is in order, each record that can be read is in a terminal
-- state, unless it could not be written; and a second recovery recovers nothing and changes nothing.
pub recover-settles :
    (d : Disk)
    → AllFiled d
    → ((id : String) → IsDone id (recover d).disk)
      × ((recover (recover d).disk).ids ≡ [])
      × ((recover (recover d).disk).disk ≡ (recover d).disk)
recover-settles d h =
    let e = (recover d).disk in
    let k = Reach-Keeps h (next here (recovers d)) in
    let idle = recover_from-idle (ids_of e.records) e k.filed (recover-IsDone d h) in
    (recover-IsDone d h, unfold recover in idle.0, unfold recover in idle.1)
