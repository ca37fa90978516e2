-- ===== src/TaskStore/Records.antt =====
-- internal/taskstore/taskstore.go: the operations on the directory of records. A record that does
-- not parse is `none`; JSON itself, other read errors and the directory's creation are left out. The
-- records stand in the order in which they are listed, a new one last, as the date in its id puts it.
use villa_straylight.Base.{
  ℕ, zero, suc, String, Bool, true, false, not, ◌&&◌, ◌||◌, Option, none, some, List, [], ◌∷◌,
  Result, ok, err, codes, leb, ◌==◌, str_eq, if◌then◌else◌,
}
use villa_straylight.TaskStore.{
  State, queued, refused, interrupted, same_state, terminal, can_transition, exit_code, Task,
}

pub data Error : Type 0 where
  not_found corrupt empty_id already_exists write_failed : Error
  bad_initial : State → Error
  illegal_edge : State → State → Error

-- The directory, and the ids whose records cannot be written.
pub record Disk : Type 0 where
  pub records : List (String × Option Task)
  pub unwritable : String → Bool

unfoldable pub is_digit : ℕ → Bool
is_digit c = leb b'0' c && leb c b'9'

unfoldable pub is_hex : ℕ → Bool
is_hex c = is_digit c || leb b'a' c && leb c b'f'

-- `n` characters that pass a test, and the rest of the text.
unfoldable pub after_class : ℕ → (ℕ → Bool) → List ℕ → Option (List ℕ)
after_class zero p cs = some cs
after_class (suc n) p [] = none
after_class (suc n) p (c ∷ cs) = let rest = after_class n p cs in if p c then rest else none

unfoldable pub after_dash : Option (List ℕ) → Option (List ℕ)
after_dash none = none
after_dash (some []) = none
after_dash (some (c ∷ cs)) = if c == b'-' then some cs else none

unfoldable pub then_class : ℕ → (ℕ → Bool) → Option (List ℕ) → Option (List ℕ)
then_class n p none = none
then_class n p (some cs) = after_class n p cs

unfoldable pub is_end : Option (List ℕ) → Bool
is_end (some []) = true
is_end _ = false

-- `idPattern`
unfoldable pub valid_id : String → Bool
valid_id id =
    let date = after_dash (after_class 8 is_digit (codes id)) in
    let time = after_dash (then_class 6 is_digit date) in is_end (then_class 4 is_hex time)

unfoldable pub find_file : String → List (String × Option Task) → Option (Option Task)
find_file id [] = none
find_file id ((k, file) ∷ fs) =
    let rest = find_file id fs in if str_eq k id then some file else rest

unfoldable pub put_file : String → Task → List (String × Option Task) → List (String × Option Task)
put_file id t [] = (id, some t) ∷ []
put_file id t ((k, file) ∷ fs) =
    let rest = (k, file) ∷ put_file id t fs in if str_eq k id then (k, some t) ∷ fs else rest

unfoldable pub read_file : Option (Option Task) → Result Error Task
read_file none = err not_found
read_file (some none) = err corrupt
read_file (some (some t)) = ok t

unfoldable pub load : String → Disk → Result Error Task
load id d = if not (valid_id id) then err not_found else read_file (find_file id d.records)

unfoldable pub write_record : Task → Disk → Option Error × Disk
write_record t d =
    if d.unwritable t.id
    then (some write_failed, d)
    else (none, record d { records = put_file t.id t d.records })

-- The exit code that a terminal state is given.
unfoldable pub with_exit : State → Task → Task
with_exit s t = if terminal s then record t { exit = some (exit_code s) } else t

unfoldable pub create_checked : Option (Option Task) → Task → Disk → Option Error × Disk
create_checked (some _) t d = (some already_exists, d)
create_checked none t d = write_record (with_exit t.state (record t { schema = 1 })) d

unfoldable pub create : Task → Disk → Option Error × Disk
create t d =
    if str_eq t.id ""
    then (some empty_id, d)
    else if not (same_state t.state queued) && not (same_state t.state refused)
    then (some (bad_initial t.state), d)
    else create_checked (find_file t.id d.records) t d

unfoldable pub written : Task → Option Error × Disk → Result Error Task × Disk
written t (none, d) = (ok t, d)
written t (some e, d) = (err e, d)

-- `Transition`, after `Load`; a nil `mutate` is the identity.
unfoldable pub transition_from :
    Result Error Task → State → (Task → Task) → Disk → Result Error Task × Disk
transition_from (err e) to mutate d = (err e, d)
transition_from (ok t) to mutate d =
    let t' = with_exit to (mutate (record t { state = to })) in
    if not (can_transition t.state to)
    then (err (illegal_edge t.state to), d)
    else written t' (write_record t' d)

unfoldable pub transition : String → State → (Task → Task) → Disk → Result Error Task × Disk
transition id to mutate d = transition_from (load id d) to mutate d

-- `List`
unfoldable pub list_from : List (String × Option Task) → Disk → Result Error (List Task)
list_from [] d = ok []
list_from ((id, _) ∷ fs) d =
    let later = list_from fs d in
    elim (load id d) [ err e ↦ err e | ok t ↦ elim later [ err e ↦ err e | ok ts ↦ ok (t ∷ ts) ] ]

unfoldable pub list : Disk → Result Error (List Task)
list d = list_from d.records d

-- The ids that were recovered, and those that were skipped with their errors.
pub record Recovered : Type 0 where
  pub ids : List String
  pub skipped : List (String × Error)
  pub disk : Disk

abbrev skip : String → Error → Recovered → Recovered
skip id e r = record r { skipped = (id, e) ∷ r.skipped }

-- One round of the loop of `Recover`, the rest of it a function of the disk.
unfoldable pub after_interrupt : String → Result Error Task × Disk → (Disk → Recovered) → Recovered
after_interrupt id (ok t, d) rest = let r = rest d in record r { ids = id ∷ r.ids }
after_interrupt id (err e, d) rest = skip id e (rest d)

unfoldable pub recover_one : String → Result Error Task → Disk → (Disk → Recovered) → Recovered
recover_one id (err e) d rest = skip id e (rest d)
recover_one id (ok t) d rest =
    if terminal t.state
    then rest d
    else after_interrupt id (transition id interrupted (λ t'. t') d) rest

unfoldable pub recover_from : List String → Disk → Recovered
recover_from [] d = record { ids = []; skipped = []; disk = d }
recover_from (id ∷ ids) d = recover_one id (load id d) d (recover_from ids)

unfoldable pub ids_of : List (String × Option Task) → List String
ids_of [] = []
ids_of ((id, _) ∷ fs) = id ∷ ids_of fs

unfoldable pub recover : Disk → Recovered
recover d = recover_from (ids_of d.records) d
