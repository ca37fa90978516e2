-- ===== src/SnapshotPrune/Removes.antt =====
-- internal/snapshotprune/snapshotprune.go: the one snapshot that a plan may remove, and the missing
-- ones that it reports.
use Prim.Native.String.{◌++◌ as str_append}
use text.Mathlib.TextLemmas.{append-eq-nil_iff}
use villa_straylight.Base.{
  if_both, ◌≡◌, refl, ◌∙◌, String, Bool, false, not, ◌&&◌, ◌||◌, Option, none, some, List, [], ◌∷◌,
  ◌++◌, arith, Bool-cases, inl, inr, str_eq, eq_iff, is_some, All, All-append, if◌then◌else◌,
}
use villa_straylight.PinState.{Dict, lookup, taken, Previous}
use villa_straylight.SnapshotPrune.{
  Decision, Input, removable_paths, removable, live_targets, text_at, judge, superseded_decisions,
  missing_entry, missing_entries, missing_checked, missing_decisions, decide,
}

no_removals : removable_paths [] ≡ []
unfolding removable_paths
no_removals = refl

-- A retained previous whose snapshot is at the path.
abbrev pub points_at : String → Dict Previous → Bool
points_at path [] = false
points_at path ((sub, p) ∷ m) = taken p.snapshot && str_eq p.snapshot.path path || points_at path m

lookup-append :
    (path : String) (xs : Dict String) (k t : String)
    → is_some (lookup path (xs ++ (k, t) ∷ [])) ≡ (is_some (lookup path xs) || str_eq k path)
unfolding lookup
lookup-append path [] k t = ground arith
lookup-append path ((j, u) ∷ xs) k t = ground (arith, lookup-append path xs k t)

live-points_at :
    (path : String) (m : Dict Previous) → is_some (lookup path (live_targets m)) ≡ points_at path m
unfolding live_targets
live-points_at path [] = unfold lookup in refl
live-points_at path ((sub, p) ∷ m) = ground (
  arith,
  live-points_at path m,
  lookup-append path (live_targets m) p.snapshot.path (str_append "the retained previous for " sub),
)

holder_named : (sub : String) → str_eq (str_append "the retained previous for " sub) "" ≡ false
holder_named sub = elim (Bool-cases (str_eq (str_append "the retained previous for " sub) "")) [
  | inl e ↦
      let empty = ((append-eq-nil_iff).0 ((eq_iff _ "").0 e)).0 in
      absurd (ground (arith, (eq_iff "the retained previous for " "").1 empty))
  | inr e ↦ e
]

abbrev AllNamed : Dict String → Type 0
AllNamed = All (λ e. str_eq e.1 "" ≡ false)

live-AllNamed : (m : Dict Previous) → AllNamed (live_targets m)
unfolding live_targets
live-AllNamed [] = tt
live-AllNamed ((sub, p) ∷ m) =
    if_both AllNamed (taken p.snapshot)
      (All-append (λ e. str_eq e.1 "" ≡ false) (live_targets m) _ (live-AllNamed m)
        (holder_named sub, tt))
      (live-AllNamed m)

lookup-named :
    (path : String) (xs : Dict String)
    → AllNamed xs
    → is_some (lookup path xs) ≡ not (str_eq (text_at (lookup path xs)) "")
unfolding lookup text_at
lookup-named path [] h = refl
lookup-named path ((j, u) ∷ xs) h = ground (arith, h.0, lookup-named path xs h.1)

removable_paths-append :
    (xs ys : List Decision)
    → removable_paths ys ≡ []
    → removable_paths (xs ++ ys) ≡ removable_paths xs
unfolding removable_paths
removable_paths-append [] ys h = h
removable_paths-append (x ∷ xs) ys h = ground (arith, removable_paths-append xs ys h)

missing_entry-removes :
    (present : String → Bool) (sub : String) (o : Option Previous) (rest : List Decision)
    → removable_paths (missing_entry present sub o ++ rest) ≡ removable_paths rest
unfolding missing_entry removable_paths
missing_entry-removes present sub none rest = refl
missing_entry-removes present sub (some p) rest = ground arith

missing_entries-removes :
    (present : String → Bool) (m : Dict Previous) (subs : List String)
    → removable_paths (missing_entries present m subs) ≡ []
unfolding missing_entries
missing_entries-removes present m [] = unfold removable_paths in refl
missing_entries-removes present m (sub ∷ subs) =
    missing_entry-removes present sub (lookup sub m) (missing_entries present m subs)
    ∙ missing_entries-removes present m subs

missing_checked-removes :
    (m : Dict Previous) (o : Option (String → Bool)) → removable_paths (missing_checked m o) ≡ []
unfolding missing_checked
missing_checked-removes m none = unfold removable_paths in refl
missing_checked-removes m (some present) = missing_entries-removes present m _

superseded-removes :
    (i : Input)
    → removable_paths (superseded_decisions i) ≡ (
        if taken i.superseded && not (points_at i.superseded.path i.state.previous)
        then i.superseded.path ∷ []
        else [])
unfolding superseded_decisions judge removable_paths
superseded-removes i =
    let m = i.state.previous in
    let path = i.superseded.path in
    ground (arith, live-points_at path m, lookup-named path (live_targets m) (live-AllNamed m))

-- A plan removes the snapshot that the update displaced, and nothing else, just where the store
-- could be read, the snapshot was taken, and no retained previous of any subsystem points at its
-- path.
pub decide-removes_only :
    (i : Input)
    → removable (decide i) ≡ (
        if i.state_known
          && (taken i.superseded && not (points_at i.superseded.path i.state.previous))
        then i.superseded.path ∷ []
        else [])
unfolding decide removable missing_decisions
decide-removes_only i = ground (
  arith,
  superseded-removes i,
  removable_paths-append (superseded_decisions i) (missing_checked i.state.previous i.present)
      (missing_checked-removes i.state.previous i.present),
  no_removals,
)
