-- ===== src/TaskStore/Keeps.antt =====
-- internal/taskstore/taskstore.go: `Create` and `Transition` leave a record that is over as it is.
use villa_straylight.Base.{
  ◌≡◌, refl, sym, ◌∙◌, subst, ap, inl, inr, String, true, false, not, ◌&&◌, Option, none, some,
  Result, ok, err, ok-injective, arith, str_eq, eq_iff, Bool-cases,
}
use villa_straylight.TaskStore.{State, queued, refused, same_state, terminal, can_transition, Task}
use villa_straylight.TaskStore.Records.{
  Error, Disk, valid_id, find_file, read_file, load, write_record, with_exit, create_checked,
  create, written, transition_from, transition,
}
use villa_straylight.TaskStore.Filed.{
  exit_of, AllFiled, IsSettled, Keeps, Keeps-refl, find-put, put-IsFiled, find-IsFiled,
}

-- Writing a record that is in order over none that was over keeps the disk.
write-Keeps :
    (t : Task) (d : Disk)
    → AllFiled d
    → t.exit ≡ exit_of t.state
    → ((u : Task) → IsSettled t.id u d → ⊥)
    → Keeps d (write_record t d).1
unfolding write_record
write-Keeps t d h e free = elim (Bool-cases (d.unwritable t.id)) [
  | inl bad ↦ rw (bad) (Keeps-refl d h)
  | inr good ↦ rw (good) (record {
    filed = put-IsFiled t d.records e h;
    settled = λ id u s. elim (Bool-cases (str_eq t.id id)) [
      | inl same ↦ absurd (free u (subst (λ j. IsSettled j u d) (sym ((eq_iff t.id id).0 same)) s))
      | inr other ↦ (find-put t.id id t d.records ∙ rw other s.0, s.1)
    ];
  })
]

-- A change that leaves the id, the state and the exit code alone, as every caller's does.
abbrev pub IsPolite : (Task → Task) → Type 0
IsPolite f = (t : Task) → ((f t).id ≡ t.id) × ((f t).state ≡ t.state) × ((f t).exit ≡ t.exit)

-- What `with_exit` leaves alone, and the exit code.
pub with_exit-fields :
    (s : State) (t : Task)
    → ((with_exit s t).id ≡ t.id)
      × ((with_exit s t).state ≡ t.state)
      × ((with_exit s t).mode ≡ t.mode)
unfolding with_exit
with_exit-fields s t = ground arith

with_exit-exit : (s : State) (t : Task) → t.exit ≡ none → (with_exit s t).exit ≡ exit_of s
unfolding with_exit
with_exit-exit s t e = ground (arith, e)

create_checked-Keeps :
    (o : Option (Option Task)) (t : Task) (d : Disk)
    → find_file t.id d.records ≡ o
    → t.exit ≡ none
    → AllFiled d
    → Keeps d (create_checked o t d).1
unfolding create_checked
create_checked-Keeps (some file) t d e fresh h = Keeps-refl d h
create_checked-Keeps none t d e fresh h =
    let t' = record t { schema = 1 } in
    let fields = with_exit-fields t.state t' in
    write-Keeps (with_exit t.state t') d h
      (with_exit-exit t.state t' fresh ∙ ap exit_of (sym fields.1))
      (λ u s.
        let found : none ≡ some (some u) =
          sym e ∙ subst (λ j. find_file j d.records ≡ some (some u)) fields.0 s.0 in
        absurd (ground (arith, found)))

pub create-Keeps : (t : Task) (d : Disk) → t.exit ≡ none → AllFiled d → Keeps d (create t d).1
unfolding create
create-Keeps t d fresh h = elim (Bool-cases (str_eq t.id "")) [
  | inl e ↦ rw (e) (Keeps-refl d h)
  | inr e ↦
      elim (Bool-cases (not (same_state t.state queued) && not (same_state t.state refused))) [
        | inl b ↦ rw (e, b) (Keeps-refl d h)
        | inr b ↦ rw (e, b) (create_checked-Keeps (find_file t.id d.records) t d refl fresh h)
      ]
]

pub written_1 : (t : Task) (r : Option Error × Disk) → (written t r).1 ≡ r.1
unfolding written
written_1 t (none, d) = refl
written_1 t (some e, d) = refl

pub can_transition-live : (s to : State) → can_transition s to ≡ true → terminal s ≡ false
unfolding can_transition
can_transition-live s to = elim (Bool-cases (terminal s)) [
  | inl e ↦ rw (e) (λ h. absurd (ground (arith, h)))
  | inr e ↦ λ h. e
]

read_file-ok : (o : Option (Option Task)) (t : Task) → read_file o ≡ ok t → o ≡ some (some t)
unfolding read_file
read_file-ok none t h = absurd (ground (arith, h))
read_file-ok (some none) t h = absurd (ground (arith, h))
read_file-ok (some (some u)) t h = ap (λ x. some (some x)) (ok-injective h)

pub load-find :
    (id : String) (d : Disk) (t : Task) → load id d ≡ ok t → find_file id d.records ≡ some (some t)
unfolding load
load-find id d t = elim (Bool-cases (valid_id id)) [
  | inl v ↦ rw (v) (read_file-ok (find_file id d.records) t)
  | inr v ↦ rw (v) (λ h. absurd (ground (arith, h)))
]

-- A record that is not over, with a new state.
moved-Keeps :
    (id : String) (to : State) (f : Task → Task) (d : Disk) (t : Task)
    → IsPolite f
    → AllFiled d
    → load id d ≡ ok t
    → can_transition t.state to ≡ true
    → Keeps d (write_record (with_exit to (f (record t { state = to }))) d).1
moved-Keeps id to f d t polite h e can =
    let found = load-find id d t e in
    let filed = find-IsFiled id t d.records h found in
    let live = can_transition-live t.state to can in
    let u = record t { state = to } in
    let kept = polite u in
    let fields = with_exit-fields to (f u) in
    let same_id = fields.0 ∙ (kept.0 ∙ filed.0) in
    write-Keeps (with_exit to (f u)) d h
      (with_exit-exit to (f u) (kept.2 ∙ ground (arith, filed.1, live))
        ∙ ap exit_of (sym (fields.1 ∙ kept.1)))
      (λ w s.
        let here : some (some t) ≡ some (some w) =
          sym found ∙ subst (λ j. find_file j d.records ≡ some (some w)) same_id s.0 in
        let same : t ≡ w = cc in
        let over : terminal t.state ≡ true = subst (λ x. terminal x.state ≡ true) (sym same) s.1 in
        absurd (ground (arith, over, live)))

transition_from-Keeps :
    (id : String) (r : Result Error Task) (to : State) (f : Task → Task) (d : Disk)
    → load id d ≡ r
    → IsPolite f
    → AllFiled d
    → Keeps d (transition_from r to f d).1
unfolding transition_from
transition_from-Keeps id (err x) to f d e polite h = Keeps-refl d h
transition_from-Keeps id (ok t) to f d e polite h =
    let t' = with_exit to (f (record t { state = to })) in
    elim (Bool-cases (can_transition t.state to)) [
      | inl c ↦
          rw (c) (rw (written_1 t' (write_record t' d)) (moved-Keeps id to f d t polite h e c))
      | inr c ↦ rw (c) (Keeps-refl d h)
    ]

pub transition-Keeps :
    (id : String) (to : State) (f : Task → Task) (d : Disk)
    → IsPolite f
    → AllFiled d
    → Keeps d (transition id to f d).1
unfolding transition
transition-Keeps id to f d = transition_from-Keeps id (load id d) to f d refl
