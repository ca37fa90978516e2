-- ===== src/TaskStore/Filed.antt =====
-- internal/taskstore/taskstore.go: a directory whose records are in order.
use villa_straylight.Base.{
  ◌≡◌, refl, sym, ◌∙◌, subst, ℕ, inl, inr, String, true, Option, none, some, List, [], ◌∷◌, arith,
  All, str_eq, eq_iff, Bool-cases, if◌then◌else◌,
}
use villa_straylight.TaskStore.{State, terminal, exit_code, Task}
use villa_straylight.TaskStore.Records.{Disk, find_file, put_file}

-- The exit code of a state, which only a terminal one has.
abbrev pub exit_of : State → Option ℕ
exit_of s = if terminal s then some (exit_code s) else none

-- A readable record stands under its own id and has the exit code of its state.
abbrev pub IsFiled : String × Option Task → Type 0
IsFiled (k, none) = Unit
IsFiled (k, some t) = (t.id ≡ k) × (t.exit ≡ exit_of t.state)

abbrev pub AllFiled : Disk → Type 0
AllFiled d = All IsFiled d.records

-- A record that is over.
abbrev pub IsSettled : String → Task → Disk → Type 0
IsSettled id t d = (find_file id d.records ≡ some (some t)) × (terminal t.state ≡ true)

-- The new disk is in order, and each record that was over is on it as it was.
pub record Keeps (d e : Disk) : Type 0 where
  pub filed : AllFiled e
  pub settled : (id : String) (t : Task) → IsSettled id t d → IsSettled id t e

pub Keeps-refl : (d : Disk) → AllFiled d → Keeps d d
Keeps-refl d h = record { filed = h; settled = λ id t s. s }

pub Keeps-trans : (d e f : Disk) → Keeps d e → Keeps e f → Keeps d f
Keeps-trans d e f h k = record {
  filed = k.filed;
  settled = λ id t s. k.settled id t (h.settled id t s);
}

pub find-put :
    (k j : String) (t : Task) (fs : List (String × Option Task))
    → find_file j (put_file k t fs) ≡ (if str_eq k j then some (some t) else find_file j fs)
unfolding find_file put_file
find-put k j t [] = refl
find-put k j t ((i, file) ∷ fs) =
    ground (arith, eq_iff k j, eq_iff i k, eq_iff i j, find-put k j t fs)

pub put-IsFiled :
    (t : Task) (fs : List (String × Option Task))
    → t.exit ≡ exit_of t.state
    → All IsFiled fs
    → All IsFiled (put_file t.id t fs)
unfolding put_file
put-IsFiled t [] e h = ((refl, e), tt)
put-IsFiled t ((k, file) ∷ fs) e h = elim (Bool-cases (str_eq k t.id)) [
  | inl same ↦ rw (same) ((sym ((eq_iff k t.id).0 same), e), h.1)
  | inr other ↦ rw (other) (h.0, put-IsFiled t fs e h.1)
]

file-IsFiled :
    (k id : String) (file : Option Task) (t : Task)
    → str_eq k id ≡ true
    → IsFiled (k, file)
    → some file ≡ some (some t)
    → IsFiled (id, some t)
file-IsFiled k id none t same h e = absurd (ground (arith, e))
file-IsFiled k id (some u) t same h e =
    let q : u ≡ t = cc in subst (λ x. IsFiled (id, some x)) q (h.0 ∙ (eq_iff k id).0 same, h.1)

pub find-IsFiled :
    (id : String) (t : Task) (fs : List (String × Option Task))
    → All IsFiled fs
    → find_file id fs ≡ some (some t)
    → IsFiled (id, some t)
unfolding find_file
find-IsFiled id t [] h = λ e. absurd (ground (arith, e))
find-IsFiled id t ((k, file) ∷ fs) h = elim (Bool-cases (str_eq k id)) [
  | inl same ↦ rw (same) (file-IsFiled k id file t same h.0)
  | inr other ↦ rw (other) (find-IsFiled id t fs h.1)
]
