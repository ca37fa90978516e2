-- ===== src/PinResolve/Answers.antt =====
-- internal/pinresolve/resolve.go: the store decides only what it records, and the answers of a
-- subsystem are the answers of its components.
use villa_straylight.Base.{
  ◌≡◌, refl, sym, subst, true, false, Option, none, some, List, [], ◌∷◌, arith, All, All-select,
  Bool-cases, inl, inr, map, select, str_eq, eq_refl, if◌then◌else◌,
}
use villa_straylight.Config.{VillaConfig}
use villa_straylight.Subsystem.{Kind}
use villa_straylight.PinState.{State, Effective, effective_for}
use villa_straylight.Pins.{Entry, entries_for}
use villa_straylight.PinResolve.{
  Resolved, is_diverged, Resolver, resolve_by, resolve_entry, resolve_in, resolve, resolve_all,
  resolve_for, all_diverged,
}

-- A component that runs another pin than the vetted one does so by a record of the store, whose
-- reference it runs.
pub record IsRecorded (s : State) (r : Resolved) : Type 0 where
  pub effective : Effective
  pub recorded : effective_for s r.component ≡ some effective
  pub named : str_eq effective.ref "" ≡ false
  pub runs : r.current ≡ record { ref = effective.ref; checksum = effective.checksum }
  pub flagged : r.from_store ≡ true

resolve_by-IsRecorded :
    (s : State) (e : Entry) (o : Option Effective)
    → effective_for s e.component ≡ o
    → is_diverged (resolve_by e o) ≡ true
    → IsRecorded s (resolve_by e o)
unfolding resolve_by is_diverged
resolve_by-IsRecorded s e none is_o = λ h. absurd (ground (arith, h, eq_refl e.vetted.ref))
resolve_by-IsRecorded s e (some eff) is_o = elim (Bool-cases (str_eq eff.ref "")) [
  | inl k ↦ rw (k) (λ h. absurd (ground (arith, h, eq_refl e.vetted.ref)))
  | inr k ↦
      rw (k)
        (λ h. record { effective = eff; recorded = is_o; named = k; runs = refl; flagged = refl })
]

add_diverged-IsRecorded :
    (s : State) (r : Resolved) (rest : List Resolved)
    → (is_diverged r ≡ true → IsRecorded s r)
    → All (IsRecorded s) rest
    → All (IsRecorded s) (if is_diverged r then r ∷ rest else rest)
add_diverged-IsRecorded s r rest h k = elim (Bool-cases (is_diverged r)) [
  | inl e ↦ rw (e) (h e, k)
  | inr e ↦ rw (e) k
]

diverged_in-IsRecorded :
    (s : State) (table : List Entry)
    → All (IsRecorded s) (select is_diverged (map (resolve_entry s) table))
diverged_in-IsRecorded s [] = tt
diverged_in-IsRecorded s (e ∷ table) =
    add_diverged-IsRecorded s (resolve_entry s e) _
      (unfold resolve_entry in resolve_by-IsRecorded s e (effective_for s e.component) refl)
      (diverged_in-IsRecorded s table)

-- Every component that is reported as diverged runs a non-empty reference that the store records
-- for it, and is marked as read from the store.
pub all_diverged-IsRecorded : (r : Resolver) → All (IsRecorded r.state) (all_diverged r)
unfolding all_diverged resolve_all
all_diverged-IsRecorded r = diverged_in-IsRecorded r.state r.table

-- No two entries of a table name one component.
abbrev pub IsUnique : List Entry → Type 0
IsUnique [] = Unit
IsUnique (e ∷ table) = All (λ f. str_eq e.component f.component ≡ false) table × IsUnique table

-- `resolve` answers for an entry of the table what `resolve_entry` does.
abbrev Agrees : State → List Entry → Entry → Type 0
Agrees s table e = resolve_in s e.component table ≡ some (resolve_entry s e)

Agrees-cons :
    (s : State) (f : Entry) (table xs : List Entry)
    → All (λ e. str_eq f.component e.component ≡ false) xs
    → All (Agrees s table) xs
    → All (Agrees s (f ∷ table)) xs
unfolding resolve_in
Agrees-cons s f table [] d h = tt
Agrees-cons s f table (x ∷ xs) d h = (ground (arith, d.0, h.0), Agrees-cons s f table xs d.1 h.1)

All-Agrees : (s : State) (table : List Entry) → IsUnique table → All (Agrees s table) table
unfolding resolve_in
All-Agrees s [] u = tt
All-Agrees s (e ∷ table) u =
    (ground (arith, eq_refl e.component), Agrees-cons s e table table u.0 (All-Agrees s table u.1))

resolve_by-component : (e : Entry) (o : Option Effective) → (resolve_by e o).component ≡ e.component
unfolding resolve_by
resolve_by-component e none = refl
resolve_by-component e (some eff) = ground arith

resolve_entry-component : (s : State) (e : Entry) → (resolve_entry s e).component ≡ e.component
unfolding resolve_entry
resolve_entry-component s e = resolve_by-component e (effective_for s e.component)

map-Agrees :
    (s : State) (table xs : List Entry)
    → All (Agrees s table) xs
    → All (λ x. resolve_in s x.component table ≡ some x) (map (resolve_entry s) xs)
map-Agrees s table [] h = tt
map-Agrees s table (e ∷ xs) h = (
  subst (λ id. resolve_in s id table ≡ some (resolve_entry s e)) (sym (resolve_entry-component s e))
      h.0,
  map-Agrees s table xs h.1,
)

-- In a table that names no component twice, each answer for a subsystem is the answer for its
-- component.
pub resolve_for-resolve :
    (r : Resolver) (k : Kind) (cfg : VillaConfig)
    → IsUnique r.table
    → All (λ x. resolve r x.component ≡ some x) (resolve_for r k cfg)
unfolding resolve resolve_for entries_for
resolve_for-resolve r k cfg unique =
    map-Agrees r.state r.table _
      (All-select (Agrees r.state r.table) _ r.table (All-Agrees r.state r.table unique))
