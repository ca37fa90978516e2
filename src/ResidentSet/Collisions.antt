-- ===== src/ResidentSet/Collisions.antt =====
-- internal/residentset/admit.go, `findCollision`: no two slots of an admitted set share a port or
-- a unit.
use villa_straylight.Base.{
  ◌≡◌, ◌≢◌, refl, ℕ, String, false, Option, none, some, List, [], ◌∷◌, ◌++◌, arith, All, any, ◌⊎◌,
  inl, eq_iff,
}
use villa_straylight.ResidentSet.{
  Slot, ResidentModels, Policy, Refusal, RefusalReason, not_refused, port_unit_collision,
}
use villa_straylight.ResidentSet.Admit.{
  is_port, is_unit, find_collision_from, find_collision, admit,
}

-- The reason of the refusal, the zero value where there is none.
abbrev pub collision_reason : Option Refusal → RefusalReason
collision_reason none = not_refused
collision_reason (some r) = r.reason

find_collision_from-reason :
    (ports : List ℕ) (units : List String) (slots : List Slot)
    → (find_collision_from ports units slots ≡ none)
      ⊎ (collision_reason (find_collision_from ports units slots) ≡ port_unit_collision)
unfolding find_collision_from
find_collision_from-reason ports units [] = inl refl
find_collision_from-reason ports units (s ∷ rest) =
    ground (arith, find_collision_from-reason (s.port ∷ ports) (s.unit ∷ units) rest)

pub find_collision-reason :
    (slots : List Slot) (candidate : Slot)
    → (find_collision slots candidate ≡ none)
      ⊎ (collision_reason (find_collision slots candidate) ≡ port_unit_collision)
unfolding find_collision
find_collision-reason slots candidate = find_collision_from-reason [] [] (slots ++ candidate ∷ [])

-- A slot differs from the others in port and in unit.
abbrev pub Differs : Slot → Slot → Type 0
Differs s t = (t.port ≢ s.port) × (t.unit ≢ s.unit)

abbrev pub IsDistinct : List Slot → Type 0
IsDistinct [] = Unit
IsDistinct (s ∷ rest) = All (Differs s) rest × IsDistinct rest

-- A slot whose port and unit are among none of those seen.
abbrev IsNew : List ℕ → List String → Slot → Type 0
IsNew ports units t = (any (is_port t.port) ports ≡ false) × (any (is_unit t.unit) units ≡ false)

differs :
    (s t : Slot) (ports : List ℕ) (units : List String)
    → IsNew (s.port ∷ ports) (s.unit ∷ units) t
    → Differs s t × IsNew ports units t
differs s t ports units h =
    ((λ e. ground arith, λ e. ground (arith, eq_iff s.unit t.unit)), (ground arith, ground arith))

All-Differs :
    (s : Slot) (ports : List ℕ) (units : List String) (rest : List Slot)
    → All (IsNew (s.port ∷ ports) (s.unit ∷ units)) rest
    → All (Differs s) rest × All (IsNew ports units) rest
All-Differs s ports units [] h = (tt, tt)
All-Differs s ports units (t ∷ rest) h =
    let (a, b) = differs s t ports units h.0 in
    let (c, e) = All-Differs s ports units rest h.1 in ((a, c), (b, e))

find_collision_from-none :
    (ports : List ℕ) (units : List String) (slots : List Slot)
    → find_collision_from ports units slots ≡ none
    → All (IsNew ports units) slots × IsDistinct slots
unfolding find_collision_from
find_collision_from-none ports units [] h = (tt, tt)
find_collision_from-none ports units (s ∷ rest) h =
    let later : find_collision_from (s.port ∷ ports) (s.unit ∷ units) rest ≡ none = ground arith in
    let new : IsNew ports units s = ground arith in
    let (all_new, distinct) =
      find_collision_from-none (s.port ∷ ports) (s.unit ∷ units) rest later in
    let (differ, older) = All-Differs s ports units rest all_new in
    ((new, older), (differ, distinct))

is_new :
    (s t : Slot) (ports : List ℕ) (units : List String)
    → Differs s t
    → IsNew ports units t
    → IsNew (s.port ∷ ports) (s.unit ∷ units) t
is_new s t ports units d n = (ground (arith, d.0), ground (arith, d.1, eq_iff s.unit t.unit))

stay-IsNew :
    (s : Slot) (ports : List ℕ) (units : List String) (rest : List Slot)
    → All (Differs s) rest
    → All (IsNew ports units) rest
    → All (IsNew (s.port ∷ ports) (s.unit ∷ units)) rest
stay-IsNew s ports units [] d n = tt
stay-IsNew s ports units (t ∷ rest) d n =
    (is_new s t ports units d.0 n.0, stay-IsNew s ports units rest d.1 n.1)

find_collision_from-eq_none :
    (ports : List ℕ) (units : List String) (slots : List Slot)
    → All (IsNew ports units) slots
    → IsDistinct slots
    → find_collision_from ports units slots ≡ none
unfolding find_collision_from
find_collision_from-eq_none ports units [] n d = refl
find_collision_from-eq_none ports units (s ∷ rest) n d =
    let later =
      find_collision_from-eq_none (s.port ∷ ports) (s.unit ∷ units) rest
        (stay-IsNew s ports units rest d.0 n.1) d.1 in
    rw (n.0.0, n.0.1) later

All-IsNew : (slots : List Slot) → All (IsNew [] []) slots
All-IsNew [] = tt
All-IsNew (s ∷ rest) = ((refl, refl), All-IsNew rest)

-- Distinct ports and units are no collision.
pub find_collision-eq_none :
    (slots : List Slot) (candidate : Slot)
    → IsDistinct (slots ++ candidate ∷ [])
    → find_collision slots candidate ≡ none
unfolding find_collision
find_collision-eq_none slots candidate =
    find_collision_from-eq_none [] [] (slots ++ candidate ∷ [])
      (All-IsNew (slots ++ candidate ∷ []))

-- A candidate that is admitted as a new slot leaves the set with distinct ports and units.
pub admit-IsDistinct :
    (s : ResidentModels) (candidate : Slot) (policy : Policy)
    → (admit s candidate policy).1.reason ≡ not_refused
    → (admit s candidate policy).0.no_op ≡ false
    → IsDistinct (s.slots ++ candidate ∷ [])
unfolding admit find_collision
admit-IsDistinct s candidate policy h n =
    let clear : find_collision s.slots candidate ≡ none =
      ground (arith, find_collision-reason s.slots candidate) in
    (find_collision_from-none [] [] (s.slots ++ candidate ∷ []) clear).1
