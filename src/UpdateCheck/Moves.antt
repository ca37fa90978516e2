-- ===== src/UpdateCheck/Moves.antt =====
-- internal/updatecheck/check.go: the rows against what their components offer.
use villa_straylight.Base.{
  ◌≡◌, refl, sym, ◌∙◌, Bool, true, false, Option, none, some, List, [], ◌∷◌, arith, All, any,
  is_empty, str_eq, inl, inr, Bool-cases, if◌then◌else◌,
}
use villa_straylight.Subsystem.{Kind, every, on}
use villa_straylight.Pins.{
  Shape, Pin, Entry, entries_for, rolling_digest, version_tag, checksummed_asset,
}
use villa_straylight.PinResolve.{Resolved, resolve}
use villa_straylight.Manifest
use villa_straylight.Manifest.Verify.{Outcome, accepted, absent, refused}
use villa_straylight.UpdateCheck.{
  Change, Component, Subsystem, Input, rebuilt, new_version, current, update_available,
}
use villa_straylight.UpdateCheck.Rows.{
  classify, is_left_out, offer_for, unmoved, component_row, add_component, component_rows,
  subsystem_row, subsystem_rows,
}
use villa_straylight.UpdateCheck.Checks.{reject, accept, check_as, check, is_updatable}

abbrev pub is_move : Change → Bool
is_move rebuilt = true
is_move new_version = true
is_move _ = false

abbrev pub moves : Component → Bool
moves c = is_move c.change

classify-moves :
    (s : Shape) (p : Pin) (offer : Manifest.Component)
    → str_eq offer.ref p.ref ≡ false
    → is_move (classify s p offer) ≡ true
unfolding classify
classify-moves rolling_digest p offer h = refl
classify-moves checksummed_asset p offer h = rw (h) refl
classify-moves version_tag p offer h = ground arith

component_row-moves :
    (e : Entry) (res : Resolved) (o : Option Manifest.Component)
    → moves (component_row e res o).0 ≡ (component_row e res o).1
unfolding component_row unmoved
component_row-moves e res none = refl
component_row-moves e res (some offer) = elim (Bool-cases (str_eq offer.ref res.current.ref)) [
  | inl k ↦ rw (k) refl
  | inr k ↦ rw (k) (classify-moves e.shape res.current offer k)
]

add_component-moves :
    (e : Entry) (o : Option Resolved) (offers : List Manifest.Component)
    (later : List Component × Bool)
    → any moves later.0 ≡ later.1
    → any moves (add_component e o offers later).0 ≡ (add_component e o offers later).1
unfolding add_component
add_component-moves e none offers later h = h
add_component-moves e (some res) offers later h =
    rw (component_row-moves e res (offer_for offers e.component), h) refl

component_rows-moves :
    (i : Input) (k : Kind) (offers : List Manifest.Component) (es : List Entry)
    → any moves (component_rows i k offers es).0 ≡ (component_rows i k offers es).1
unfolding component_rows
component_rows-moves i k offers [] = refl
component_rows-moves i k offers (e ∷ es) =
    let h = component_rows-moves i k offers es in
    elim (Bool-cases (is_left_out i.cfg k e)) [
      | inl x ↦ rw (x) h
      | inr x ↦ rw (x) (add_component-moves e (resolve i.resolver e.component) offers _ h)
    ]

-- A row offers an update just where one of its components moves.
abbrev pub IsHonest : Subsystem → Type 0
IsHonest s = is_updatable s.state ≡ any moves s.components

state-moves : (b : Bool) → is_updatable (if b then update_available else current) ≡ b
unfolding is_updatable
state-moves true = refl
state-moves false = refl

subsystem_row-IsHonest :
    (i : Input) (k : Kind) (offers : List Manifest.Component)
    → IsHonest (subsystem_row i k offers).0
unfolding subsystem_row
subsystem_row-IsHonest i k offers =
    let es = entries_for k i.cfg i.resolver.table in
    elim (Bool-cases (is_empty es)) [
      | inl e ↦ rw (e) (unfold is_updatable in refl)
      | inr e ↦ elim (Bool-cases (on i.cfg k)) [
        | inl o ↦ rw (e, o) (state-moves _ ∙ sym (component_rows-moves i k offers es))
        | inr o ↦ rw (e, o) (unfold is_updatable in refl)
      ]
    ]

subsystem_rows-IsHonest :
    (i : Input) (offers : List Manifest.Component) (ks : List Kind)
    → All IsHonest (subsystem_rows i offers ks).0
unfolding subsystem_rows
subsystem_rows-IsHonest i offers [] = tt
subsystem_rows-IsHonest i offers (k ∷ ks) =
    let h = subsystem_rows-IsHonest i offers ks in
    elim (Bool-cases (str_eq (subsystem_row i k offers).0.name "")) [
      | inl e ↦ rw (e) h
      | inr e ↦ rw (e) (subsystem_row-IsHonest i k offers, h)
    ]

check_as-IsHonest : (o : Outcome) (i : Input) → All IsHonest (check_as o i).subsystems
unfolding check_as accept reject
check_as-IsHonest accepted i = subsystem_rows-IsHonest i i.verdict.doc.components every
check_as-IsHonest absent i = tt
check_as-IsHonest refused i = tt

-- In every report, a subsystem's row says that an update is available exactly where the change of
-- at least one of its components is a rebuild or a new version.
pub check-IsHonest : (i : Input) → All IsHonest (check i).subsystems
unfolding check
check-IsHonest i = check_as-IsHonest i.verdict.outcome i
