-- ===== src/ResidentSet/Order.antt =====
-- internal/residentset/admit.go, `planEvictions`: the order by use, and that it loses no slot.
use mathlib.Core.List.{Perm}
use mathlib.Core.List.Perm
use villa_straylight.Base.{
  ◌≡◌, refl, ℕ, ◌≤◌, Bool, true, false, not, inl, inr, List, [], ◌∷◌, ◌++◌, arith, All, select, leb,
  leb→le, not-leb→lt, Bool-cases, if◌then◌else◌,
}
use villa_straylight.ResidentSet.{Slot}
use villa_straylight.ResidentSet.Admit.{insert_by_order, sort_by_order, is_evictable}
use villa_straylight.ResidentSet.Eviction.{lru}

-- Every slot was used no later than those behind it.
abbrev pub IsByUse : List Slot → Type 0
IsByUse [] = Unit
IsByUse (s ∷ rest) = All (λ t. s.order ≤ t.order) rest × IsByUse rest

insert-perm : (s : Slot) (xs : List Slot) → Perm (insert_by_order s xs) (s ∷ xs)
unfolding insert_by_order
insert-perm s [] = Perm.refl (s ∷ [])
insert-perm s (x ∷ xs) = elim (Bool-cases (leb s.order x.order)) [
  | inl t ↦ rw t (Perm.refl (s ∷ x ∷ xs))
  | inr f ↦ rw f (Perm.trans (Perm.cons x (insert-perm s xs)) (Perm.swap s x xs))
]

sort-perm : (xs : List Slot) → Perm (sort_by_order xs) xs
unfolding sort_by_order
sort-perm [] = Perm.refl []
sort-perm (x ∷ xs) = Perm.trans (insert-perm x (sort_by_order xs)) (Perm.cons x (sort-perm xs))

All-insert :
    (P : Slot → Type 0) (s : Slot) (xs : List Slot) → P s → All P xs → All P (insert_by_order s xs)
unfolding insert_by_order
All-insert P s [] h k = (h, tt)
All-insert P s (x ∷ xs) h k = elim (Bool-cases (leb s.order x.order)) [
  | inl t ↦ rw t (h, k)
  | inr f ↦ rw f (k.0, All-insert P s xs h k.1)
]

All-sort : (P : Slot → Type 0) (xs : List Slot) → All P xs → All P (sort_by_order xs)
unfolding sort_by_order
All-sort P [] h = tt
All-sort P (x ∷ xs) h = All-insert P x (sort_by_order xs) h.0 (All-sort P xs h.1)

All-le : (n m : ℕ) (xs : List Slot) → n ≤ m → All (λ t. m ≤ t.order) xs → All (λ t. n ≤ t.order) xs
All-le n m [] h k = tt
All-le n m (x ∷ xs) h k = (omega arith, All-le n m xs h k.1)

insert-IsByUse : (s : Slot) (xs : List Slot) → IsByUse xs → IsByUse (insert_by_order s xs)
unfolding insert_by_order
insert-IsByUse s [] h = (tt, tt)
insert-IsByUse s (x ∷ xs) h = elim (Bool-cases (leb s.order x.order)) [
  | inl t ↦ rw t ((leb→le _ _ t, All-le s.order x.order xs (leb→le _ _ t) h.0), h)
  | inr f ↦ rw f (
    All-insert (λ t. x.order ≤ t.order) s xs (omega (arith, not-leb→lt _ _ f)) h.0,
    insert-IsByUse s xs h.1,
  )
]

sort-IsByUse : (xs : List Slot) → IsByUse (sort_by_order xs)
unfolding sort_by_order
sort-IsByUse [] = tt
sort-IsByUse (x ∷ xs) = insert-IsByUse x (sort_by_order xs) (sort-IsByUse xs)

keep-not_primary :
    (x : Slot) (ys : List Slot) (b : Bool)
    → x.primary ≡ b
    → All (λ s. s.primary ≡ false) ys
    → All (λ s. s.primary ≡ false) (if not b then x ∷ ys else ys)
keep-not_primary x ys true e h = h
keep-not_primary x ys false e h = (e, h)

evictable-not_primary : (xs : List Slot) → All (λ s. s.primary ≡ false) (select is_evictable xs)
evictable-not_primary [] = tt
evictable-not_primary (x ∷ xs) =
    keep-not_primary x (select is_evictable xs) x.primary refl (evictable-not_primary xs)

pub lru-perm : (slots : List Slot) → Perm (lru slots) (select is_evictable slots)
unfolding lru
lru-perm slots = sort-perm (select is_evictable slots)

pub lru-IsByUse : (slots : List Slot) → IsByUse (lru slots)
unfolding lru
lru-IsByUse slots = sort-IsByUse (select is_evictable slots)

pub lru-not_primary : (slots : List Slot) → All (λ s. s.primary ≡ false) (lru slots)
unfolding lru
lru-not_primary slots =
    All-sort (λ s. s.primary ≡ false) (select is_evictable slots) (evictable-not_primary slots)

-- The first part of a list ordered by use was used no later than the rest.
pub IsByUse-append :
    (xs ys : List Slot) → IsByUse (xs ++ ys) → All (λ x. All (λ y. x.order ≤ y.order) ys) xs
IsByUse-append [] ys h = tt
IsByUse-append (x ∷ xs) ys h = (All-right xs ys h.0, IsByUse-append xs ys h.1)
  where
    All-right :
        (xs ys : List Slot)
        → All (λ t. x.order ≤ t.order) (xs ++ ys)
        → All (λ t. x.order ≤ t.order) ys
    All-right [] ys k = k
    All-right (z ∷ zs) ys k = All-right zs ys k.1

pub All-left {ℓ} : (P : Slot → Type ℓ) (xs ys : List Slot) → All P (xs ++ ys) → All P xs
All-left P [] ys h = tt
All-left P (x ∷ xs) ys h = (h.0, All-left P xs ys h.1)
