-- ===== src/UpdateCheck/Counts.antt =====
-- internal/updatecheck/check.go: the summary of a report against its rows.
use villa_straylight.Base.{
  ◌≡◌, refl, sym, ap, ◌∙◌, subst, Bool, ℕ, suc, ◌+◌, String, true, false, some, List, [], ◌∷◌,
  arith, length, is_empty, str_eq, inl, inr, Bool-cases, if◌then◌else◌,
}
use villa_straylight.Subsystem.{Kind, every, on}
use villa_straylight.Pins.{entries_for}
use villa_straylight.Manifest
use villa_straylight.Manifest.Verify.{accepted}
use villa_straylight.UpdateCheck.{
  SubsystemState, Subsystem, Summary, Report, Input, unset_state, current, update_available,
  skipped,
}
use villa_straylight.UpdateCheck.Rows.{subsystem_row, count, subsystem_rows}
use villa_straylight.UpdateCheck.Checks.{
  accept, check_as, check, is_updatable, insert_name, sort_names, updatable_names, updatable,
}

abbrev total : Summary → ℕ
total s = s.updatable + s.current + s.skipped

-- A row that is shown counts once, by its own state.
record IsCounted (r : Subsystem × SubsystemState) : Type 0 where
  same : r.1 ≡ r.0.state
  once : (s : Summary) → str_eq r.0.name "" ≡ false → total (count r.1 s) ≡ suc (total s)

total-count :
    (b : Bool) (s : Summary)
    → total (count (if b then update_available else current) s) ≡ suc (total s)
unfolding count
total-count true s = omega arith
total-count false s = omega arith

total-skipped : (s : Summary) → total (count skipped s) ≡ suc (total s)
unfolding count
total-skipped s = omega arith

subsystem_row-IsCounted :
    (i : Input) (k : Kind) (offers : List Manifest.Component) → IsCounted (subsystem_row i k offers)
unfolding subsystem_row
subsystem_row-IsCounted i k offers =
    elim (Bool-cases (is_empty (entries_for k i.cfg i.resolver.table))) [
      | inl e ↦ rw (e) (record { same = refl; once = λ s h. absurd (ground (arith, h)) })
      | inr e ↦ elim (Bool-cases (on i.cfg k)) [
        | inl o ↦ rw (e, o) (record { same = refl; once = λ s h. total-count _ s })
        | inr o ↦ rw (e, o) (record { same = refl; once = λ s h. total-skipped s })
      ]
    ]

-- The counts of some rows.
abbrev Counts : List Subsystem × Summary → Type 0
Counts r = (r.1.updatable ≡ length (updatable_names r.0)) × (total r.1 ≡ length r.0)

count-updatable :
    (st : SubsystemState) (s : Summary) (n : String) (ns : List String)
    → s.updatable ≡ length ns
    → (count st s).updatable ≡ length (if is_updatable st then n ∷ ns else ns)
unfolding count is_updatable
count-updatable unset_state s n ns h = h
count-updatable current s n ns h = h
count-updatable update_available s n ns h = ap (λ m. suc m) h
count-updatable skipped s n ns h = h

count-Counts :
    (row : Subsystem × SubsystemState) (later : List Subsystem × Summary)
    → IsCounted row
    → str_eq row.0.name "" ≡ false
    → Counts later
    → Counts (row.0 ∷ later.0, count row.1 later.1)
unfolding updatable_names
count-Counts row later c shown h = (
  subst
      (λ st.
        (count row.1 later.1).updatable
        ≡ length (
            if is_updatable st
            then row.0.name ∷ updatable_names later.0
            else updatable_names later.0))
      c.same (count-updatable row.1 later.1 row.0.name (updatable_names later.0) h.0),
  c.once later.1 shown ∙ ap (λ m. suc m) h.1,
)

subsystem_rows-Counts :
    (i : Input) (offers : List Manifest.Component) (ks : List Kind)
    → Counts (subsystem_rows i offers ks)
unfolding subsystem_rows updatable_names
subsystem_rows-Counts i offers [] = (refl, refl)
subsystem_rows-Counts i offers (k ∷ ks) =
    let row = subsystem_row i k offers in
    let h = subsystem_rows-Counts i offers ks in
    elim (Bool-cases (str_eq row.0.name "")) [
      | inl e ↦ rw (e) h
      | inr e ↦ rw (e) (count-Counts row _ (subsystem_row-IsCounted i k offers) e h)
    ]

length-insert_name : (n : String) (ns : List String) → length (insert_name n ns) ≡ suc (length ns)
unfolding insert_name
length-insert_name n [] = refl
length-insert_name n (m ∷ ns) = ground (arith, length-insert_name n ns)

length-sort_names : (ns : List String) → length (sort_names ns) ≡ length ns
unfolding sort_names
length-sort_names [] = refl
length-sort_names (n ∷ ns) =
    length-insert_name n (sort_names ns) ∙ ap (λ m. suc m) (length-sort_names ns)

-- A report has a summary, which agrees with its rows.
pub record Tallies (r : Report) : Type 0 where
  pub summary : Summary
  pub given : r.summary ≡ some summary
  pub moving : summary.updatable ≡ length (updatable r)
  pub rows : summary.updatable + summary.current + summary.skipped ≡ length r.subsystems

accept-Tallies : (i : Input) → Tallies (accept i)
unfolding accept updatable
accept-Tallies i =
    let h = subsystem_rows-Counts i i.verdict.doc.components every in
    record {
      summary = (subsystem_rows i i.verdict.doc.components every).1;
      given = refl;
      moving = h.0 ∙ sym (length-sort_names _);
      rows = h.1;
    }

-- The report on an accepted manifest has a summary, whose three counts make up the number of the
-- rows and whose count of updatable subsystems is the length of the list of the updatable ones.
pub check-Tallies : (i : Input) → i.verdict.outcome ≡ accepted → Tallies (check i)
unfolding check check_as
check-Tallies i a = subst (λ o. Tallies (check_as o i)) (sym a) (accept-Tallies i)
