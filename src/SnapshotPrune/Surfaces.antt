-- ===== src/SnapshotPrune/Surfaces.antt =====
-- internal/snapshotprune/snapshotprune.go, `missingDecisions`: a rollback target that has gone from
-- the disk is reported.
use villa_straylight.Base.{
  ◌≡◌, refl, sym, ◌∙◌, ap, subst, String, Bool, true, false, ◌||◌, Option, some, List, [], ◌∷◌,
  ◌++◌, arith, Bool-cases, inl, inr, str_eq, eq_iff, eq_refl, occurs, occurs-sort, sort_texts,
}
use villa_straylight.PinState.{Dict, lookup, taken, Previous}
use villa_straylight.SnapshotPrune.{
  remove, retain, missing, Decision, Input, missing_entry, missing_entries, keys, missing_checked,
  missing_decisions, superseded_decisions, decide,
}

-- The paths that a list of decisions reports as missing.
abbrev pub missing_paths : List Decision → List String
missing_paths [] = []
missing_paths (d ∷ ds) =
    let rest = missing_paths ds in
    elim d.action [ remove ↦ rest | retain ↦ rest | missing ↦ d.path ∷ rest ]

occurs-missing-append :
    (s : String) (xs ys : List Decision)
    → occurs s (missing_paths (xs ++ ys))
      ≡ (occurs s (missing_paths xs) || occurs s (missing_paths ys))
occurs-missing-append s [] ys = refl
occurs-missing-append s (x ∷ xs) ys = ground (arith, occurs-missing-append s xs ys)

lookup-occurs :
    (sub : String) (m : Dict Previous) (p : Previous)
    → lookup sub m ≡ some p
    → occurs sub (keys m) ≡ true
unfolding lookup keys
lookup-occurs sub [] p h = absurd (ground (arith, h))
lookup-occurs sub ((k, q) ∷ m) p h = ground (arith, h, lookup-occurs sub m p)

module _ (present : String → Bool) (m : Dict Previous) (sub : String) (p : Previous)
    (retained : lookup sub m ≡ some p) (is_taken : taken p.snapshot ≡ true)
    (lost : present p.snapshot.path ≡ false) where
  entry-surfaces :
      (o : Option Previous)
      → o ≡ some p
      → occurs p.snapshot.path (missing_paths (missing_entry present sub o)) ≡ true
  unfolding missing_entry
  entry-surfaces o h =
      subst (λ x. occurs p.snapshot.path (missing_paths (missing_entry present sub x)) ≡ true)
        (sym h) (ground (arith, is_taken, lost, eq_refl p.snapshot.path))

  entries-surface :
      (subs : List String)
      → occurs sub subs ≡ true
      → occurs p.snapshot.path (missing_paths (missing_entries present m subs)) ≡ true
  unfolding missing_entries
  entries-surface [] h = absurd (ground (arith, h))
  entries-surface (s ∷ subs) h =
      occurs-missing-append p.snapshot.path (missing_entry present s (lookup s m))
        (missing_entries present m subs)
      ∙ elim (Bool-cases (str_eq s sub)) [
        | inl e ↦
            subst
              (λ x.
                (occurs p.snapshot.path (missing_paths (missing_entry present x (lookup x m)))
                  || occurs p.snapshot.path (missing_paths (missing_entries present m subs)))
                ≡ true)
              (sym ((eq_iff s sub).0 e)) (ground (arith, entry-surfaces (lookup sub m) retained))
        | inr e ↦ ground (arith, entries-surface subs, h, e)
      ]

checked-surface :
    (present : String → Bool) (m : Dict Previous) (sub : String) (p : Previous)
    → lookup sub m ≡ some p
    → taken p.snapshot ≡ true
    → present p.snapshot.path ≡ false
    → (o : Option (String → Bool)) → o ≡ some present
    → occurs sub (sort_texts (keys m)) ≡ true
    → occurs p.snapshot.path (missing_paths (missing_checked m o)) ≡ true
unfolding missing_checked
checked-surface present m sub p retained is_taken lost o checked listed =
    subst (λ x. occurs p.snapshot.path (missing_paths (missing_checked m x)) ≡ true) (sym checked)
      (entries-surface present m sub p retained is_taken lost (sort_texts (keys m)) listed)

-- Where the store could be read and the disk can be checked, every retained previous whose snapshot
-- was taken and is no longer on disk is reported as missing.
pub decide-surfaces :
    (i : Input) (present : String → Bool) (sub : String) (p : Previous)
    → i.state_known ≡ true
    → i.present ≡ some present
    → lookup sub i.state.previous ≡ some p
    → taken p.snapshot ≡ true
    → present p.snapshot.path ≡ false
    → occurs p.snapshot.path (missing_paths (decide i).decisions) ≡ true
unfolding decide missing_decisions
decide-surfaces i present sub p known checked retained is_taken lost =
    let m = i.state.previous in
    let path = p.snapshot.path in
    let listed : occurs sub (sort_texts (keys m)) ≡ true =
      occurs-sort sub (keys m) ∙ lookup-occurs sub m p retained in
    let surfaces =
      checked-surface present m sub p retained is_taken lost i.present checked listed in
    let is_plan : (decide i).decisions ≡ superseded_decisions i ++ missing_checked m i.present =
      ground (arith, known) in
    ap (λ l. occurs path (missing_paths l)) is_plan
    ∙ occurs-missing-append path (superseded_decisions i) (missing_checked m i.present)
    ∙ ground (arith, surfaces)
