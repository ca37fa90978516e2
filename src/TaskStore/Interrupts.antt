-- ===== src/TaskStore/Interrupts.antt =====
-- internal/taskstore/taskstore.go: one round of `Recover`.
use villa_straylight.Base.{
  ◌≡◌, refl, sym, ◌∙◌, subst, ap, ◌⊎◌, inl, inr, String, true, false, not, some, Result, ok, err,
  ok-injective, arith, str_eq, eq_iff, Bool-cases, if◌then◌else◌,
}
use villa_straylight.TaskStore.{
  State, queued, running, awaiting_approval, interrupted, same_state, state_number, terminal,
  transitions, occurs_state, can_transition, Task,
}
use villa_straylight.TaskStore.Records.{
  Error, not_found, Disk, valid_id, put_file, read_file, load, write_record, with_exit,
  transition_from, transition, Recovered, after_interrupt, recover_one,
}
use villa_straylight.TaskStore.Filed.{AllFiled, find-put, find-IsFiled}
use villa_straylight.TaskStore.Keeps.{load-find, written_1, transition-Keeps, with_exit-fields}

-- Recovery has nothing left to do for an id: its record, if it can be read, is over or cannot be
-- written.
abbrev pub IsDone : String → Disk → Type 0
IsDone id d = (t : Task) → load id d ≡ ok t → (terminal t.state ≡ true) ⊎ (d.unwritable id ≡ true)

can-interrupt : (s : State) → terminal s ≡ false → can_transition s interrupted ≡ true
unfolding can_transition terminal transitions occurs_state same_state state_number
can-interrupt queued h = refl
can-interrupt running h = refl
can-interrupt awaiting_approval h = refl
can-interrupt _ h = absurd (ground (arith, h))

abbrev interrupt : String → Disk → Disk
interrupt id d = (transition id interrupted (λ t. t) d).1

-- The disk after a record was interrupted: as it was, or with the record put in its place.
pub data Interrupts (id : String) (d : Disk) (e : Disk) : Type 0 where
  same : e ≡ d → IsDone id d → Interrupts id d e
  put :
      (t : Task)
      → t.id ≡ id
      → terminal t.state ≡ true
      → e ≡ record d { records = put_file t.id t d.records }
      → Interrupts id d e

terminal_interrupted : terminal interrupted ≡ true
unfolding terminal
terminal_interrupted = refl

ended : (t w : Task) → t ≡ w → can_transition t.state interrupted ≡ false → terminal w.state ≡ true
ended t w q c = elim (Bool-cases (terminal w.state)) [
  | inl e ↦ e
  | inr e ↦ absurd (ground (arith, can-interrupt t.state (ap (λ x. terminal x.state) q ∙ e), c))
]

interrupted-from :
    (id : String) (r : Result Error Task) (d : Disk)
    → AllFiled d
    → load id d ≡ r
    → Interrupts id d (transition_from r interrupted (λ t. t) d).1
unfolding transition_from
interrupted-from id (err x) d h e = same refl (λ t k. absurd (ground (arith, sym e ∙ k)))
interrupted-from id (ok t) d h e =
    let filed = find-IsFiled id t d.records h (load-find id d t e) in
    let u = record t { state = interrupted } in
    let t' = with_exit interrupted u in
    let fields = with_exit-fields interrupted u in
    elim (Bool-cases (can_transition t.state interrupted)) [
      | inl c ↦
          rw (c, written_1 t' (write_record t' d))
            (elim (Bool-cases (d.unwritable t'.id)) [
              | inl bad ↦
                  unfold write_record in
                  rw (bad) (
                    same refl
                      (λ w k. inr (subst (λ j. d.unwritable j ≡ true) (fields.0 ∙ filed.0) bad)))
              | inr good ↦
                  unfold write_record in
                  rw (good)
                    (put t' (fields.0 ∙ filed.0) (ap terminal fields.1 ∙ terminal_interrupted) refl)
            ])
      | inr c ↦ rw (c) (same refl (λ w k. inl (ended t w (ok-injective (sym e ∙ k)) c)))
    ]

-- What is read after a record was put.
pub load-put :
    (t : Task) (j : String) (d : Disk) (w : Task)
    → load j (record d { records = put_file t.id t d.records }) ≡ ok w
    → (t ≡ w) ⊎ ((str_eq t.id j ≡ false) × (load j d ≡ ok w))
load-put t j d w k =
    let found = load-find j (record d { records = put_file t.id t d.records }) w k in
    elim (Bool-cases (str_eq t.id j)) [
      | inl hit ↦
          let now : some (some t) ≡ some (some w) =
            sym (find-put t.id j t d.records ∙ rw hit refl) ∙ found in
          inl (cc)
      | inr other ↦ inr (
        other,
        unfold load in
            subst (λ x. (if not (valid_id j) then err not_found else read_file x) ≡ ok w)
              (find-put t.id j t d.records ∙ rw other refl) k,
      )
    ]

pub Interrupts-self : (id : String) (d e : Disk) → Interrupts id d e → IsDone id e
Interrupts-self id d e (same q h) = subst (IsDone id) (sym q) h
Interrupts-self id d e (put t i over q) = subst (IsDone id) (sym q) (λ w k.
    elim (load-put t id d w k) [
      | inl hit ↦ inl (subst (λ x. terminal x.state ≡ true) hit over)
      | inr there ↦ absurd (ground (arith, (eq_iff t.id id).1 i, there.0))
    ])

pub Interrupts-keeps : (id j : String) (d e : Disk) → Interrupts id d e → IsDone j d → IsDone j e
Interrupts-keeps id j d e (same q _) h = subst (IsDone j) (sym q) h
Interrupts-keeps id j d e (put t i over q) h = subst (IsDone j) (sym q) (λ w k.
    elim (load-put t j d w k) [
      | inl hit ↦ inl (subst (λ x. terminal x.state ≡ true) hit over)
      | inr there ↦ h w there.1
    ])

-- One round of the loop.
abbrev pub Reads : String → (Disk → Recovered) → Disk → Recovered → Type 0
Reads id rest d r = (e : Disk) × AllFiled e × Interrupts id d e × (r.disk ≡ (rest e).disk)

after_interrupt-disk :
    (id : String) (r : Result Error Task × Disk) (rest : Disk → Recovered)
    → (after_interrupt id r rest).disk ≡ (rest r.1).disk
unfolding after_interrupt
after_interrupt-disk id (ok t, e) rest = refl
after_interrupt-disk id (err x, e) rest = refl

pub recover_one-Reads :
    (id : String) (r : Result Error Task) (d : Disk) (rest : Disk → Recovered)
    → AllFiled d
    → load id d ≡ r
    → Reads id rest d (recover_one id r d rest)
unfolding recover_one
recover_one-Reads id (err x) d rest h e =
    (d, h, same refl (λ t k. absurd (ground (arith, sym e ∙ k))), refl)
recover_one-Reads id (ok t) d rest h e = elim (Bool-cases (terminal t.state)) [
  | inl over ↦ rw (over) (
    d,
    h,
    same refl (λ w k. inl (subst (λ x. terminal x.state ≡ true) (ok-injective (sym e ∙ k)) over)),
    refl,
  )
  | inr live ↦ rw (live) (
    interrupt id d,
    (transition-Keeps id interrupted (λ t'. t') d (λ u. (refl, refl, refl)) h).filed,
    unfold transition in interrupted-from id (load id d) d h refl,
    after_interrupt-disk id (transition id interrupted (λ t'. t') d) rest,
  )
]
