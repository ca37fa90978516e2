-- ===== src/TaskRun/Held.antt =====
-- internal/taskrun/taskrun.go: the ids that a runner holds, each with a record of its own.
use villa_straylight.Base.{
  ◌≡◌, refl, sym, ◌∙◌, inl, inr, String, false, not, ◌&&◌, Option, none, some, List, [], ◌∷◌, ◌++◌,
  Result, ok, err, All, str_eq, eq_iff, occurs, arith, Bool-cases,
}
use villa_straylight.TaskStore.{State, queued, refused, same_state, can_transition, Task}
use villa_straylight.TaskStore.Records.{
  Error, Disk, find_file, put_file, load, write_record, with_exit, create_checked, create, written,
  transition_from, transition,
}
use villa_straylight.TaskStore.Filed.{find-put}
use villa_straylight.TaskStore.Keeps.{with_exit-fields}
use villa_straylight.TaskRun.Queue.{Active, remove_first, may_create, seen_as, create_write}

-- A readable record under its own id.
abbrev pub HasRecord : String → Disk → Type 0
HasRecord id d = (u : Task) × (find_file id d.records ≡ some (some u)) × (u.id ≡ id)

-- No record is removed or becomes another's.
abbrev pub Grows : Disk → Disk → Type 0
Grows d e = (id : String) → HasRecord id d → HasRecord id e

put-Grows : (t : Task) (d : Disk) → Grows d (record d { records = put_file t.id t d.records })
put-Grows t d id (u, found, named) = elim (Bool-cases (str_eq t.id id)) [
  | inl e ↦ (t, find-put t.id id t d.records ∙ rw (e) refl, (eq_iff t.id id).0 e)
  | inr e ↦ (u, find-put t.id id t d.records ∙ rw (e) found, named)
]

write-Grows : (t : Task) (d : Disk) → Grows d (write_record t d).1
unfolding write_record
write-Grows t d = elim (Bool-cases (d.unwritable t.id)) [
  | inl e ↦ rw (e) (λ id h. h)
  | inr e ↦ rw (e) (put-Grows t d)
]

written-Grows :
    (t : Task) (r : Option Error × Disk) (d : Disk) → Grows d r.1 → Grows d (written t r).1
unfolding written
written-Grows t (none, e) d h = h
written-Grows t (some x, e) d h = h

transition_from-Grows :
    (r : Result Error Task) (to : State) (f : Task → Task) (d : Disk)
    → Grows d (transition_from r to f d).1
unfolding transition_from
transition_from-Grows (err x) to f d = λ id h. h
transition_from-Grows (ok t) to f d = elim (Bool-cases (can_transition t.state to)) [
  | inl e ↦
      let t' = with_exit to (f (record t { state = to })) in
      rw (e) (written-Grows t' (write_record t' d) d (write-Grows t' d))
  | inr e ↦ rw (e) (λ id h. h)
]

pub transition-Grows :
    (id : String) (to : State) (f : Task → Task) (d : Disk) → Grows d (transition id to f d).1
unfolding transition
transition-Grows id to f d = transition_from-Grows (load id d) to f d

by_look :
    (o : Option (Option Task)) (t : Task) (d : Disk)
    → create_checked o t d ≡ elim (seen_as o) [ none ↦ create_write t d | some e ↦ (some e, d) ]
unfolding create_checked seen_as create_write
by_look none t d = refl
by_look (some file) t d = refl

-- `Create` is its look at the store and its write.
create-two_parts :
    (t : Task) (d : Disk)
    → create t d ≡ elim (may_create t d) [ none ↦ create_write t d | some e ↦ (some e, d) ]
unfolding create may_create create_write
create-two_parts t d = elim (Bool-cases (str_eq t.id "")) [
  | inl e ↦ rw (e) refl
  | inr e ↦
      elim (Bool-cases (not (same_state t.state queued) && not (same_state t.state refused))) [
        | inl bad ↦ rw (e, bad) refl
        | inr good ↦ rw (e, good) (by_look (find_file t.id d.records) t d)
      ]
]

pub may_create-absent :
    (t : Task) (d : Disk) → may_create t d ≡ none → find_file t.id d.records ≡ none
unfolding may_create seen_as
may_create-absent t d h = ground (arith, h)

pub create_write-Grows : (t : Task) (d : Disk) → Grows d (create_write t d).1
unfolding create_write
create_write-Grows t d = write-Grows (with_exit t.state (record t { schema = 1 })) d

pub create_write-HasRecord :
    (t : Task) (d : Disk) → (create_write t d).0 ≡ none → HasRecord t.id (create_write t d).1
unfolding create_write write_record
create_write-HasRecord t d =
    let t' = with_exit t.state (record t { schema = 1 }) in
    let same = (with_exit-fields t.state (record t { schema = 1 })).0 in
    elim (Bool-cases (d.unwritable t'.id)) [
      | inl bad ↦ rw (bad) (λ x. absurd (ground (arith, x)))
      | inr good ↦
          rw (good) (λ x.
            (t', find-put t'.id t.id t' d.records ∙ rw ((eq_iff t'.id t.id).1 same) refl, same))
    ]

abbrev pub IsDistinct : List String → Type 0
IsDistinct [] = Unit
IsDistinct (x ∷ xs) = (occurs x xs ≡ false) × IsDistinct xs

-- The ids that the worker or the queue holds.
abbrev pub held : Option Active → List String → List String
held none q = q
held (some a) q = a.id ∷ q

occurs-snoc :
    (x y : String) (xs : List String)
    → occurs x xs ≡ false
    → str_eq y x ≡ false
    → occurs x (xs ++ y ∷ []) ≡ false
occurs-snoc x y [] h e = ground (arith, e)
occurs-snoc x y (z ∷ xs) h e = elim (Bool-cases (str_eq z x)) [
  | inl same ↦ absurd (ground (arith, h, same))
  | inr other ↦ rw (other) (occurs-snoc x y xs (ground (arith, h, other)) e)
]

pub IsDistinct-snoc :
    (x : String) (xs : List String)
    → IsDistinct xs
    → occurs x xs ≡ false
    → IsDistinct (xs ++ x ∷ [])
IsDistinct-snoc x [] d h = (refl, tt)
IsDistinct-snoc x (y ∷ xs) d h = elim (Bool-cases (str_eq y x)) [
  | inl same ↦ absurd (ground (arith, h, same))
  | inr other ↦
      let differs : str_eq x y ≡ false = elim (Bool-cases (str_eq x y)) [
        | inl e ↦ absurd (ground (arith, other, (eq_iff y x).1 (sym ((eq_iff x y).0 e))))
        | inr e ↦ e
      ] in
      (occurs-snoc y x xs d.0 differs, IsDistinct-snoc x xs d.1 (ground (arith, h, other)))
]

pub occurs-remove :
    (x id : String) (xs : List String) → occurs x xs ≡ false → occurs x (remove_first id xs) ≡ false
unfolding remove_first
occurs-remove x id [] h = refl
occurs-remove x id (y ∷ xs) h = ground (arith, h, occurs-remove x id xs)

pub IsDistinct-remove :
    (id : String) (xs : List String) → IsDistinct xs → IsDistinct (remove_first id xs)
unfolding remove_first
IsDistinct-remove id [] d = tt
IsDistinct-remove id (y ∷ xs) d = elim (Bool-cases (str_eq y id)) [
  | inl e ↦ rw (e) d.1
  | inr e ↦ rw (e) (occurs-remove y id xs d.0, IsDistinct-remove id xs d.1)
]

pub All-remove :
    (P : String → Type 0) (id : String) (xs : List String) → All P xs → All P (remove_first id xs)
unfolding remove_first
All-remove P id [] h = tt
All-remove P id (y ∷ xs) h = elim (Bool-cases (str_eq y id)) [
  | inl e ↦ rw (e) h.1
  | inr e ↦ rw (e) (h.0, All-remove P id xs h.1)
]
