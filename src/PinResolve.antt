-- ===== src/PinResolve.antt =====
-- internal/pinresolve/resolve.go: what each component should run.
pub mod Answers
mod Tests
use villa_straylight.Base.{
  String, Bool, true, false, not, ◌&&◌, Option, none, some, List, [], ◌∷◌, map, select, str_eq,
  if◌then◌else◌,
}
use villa_straylight.Config.{VillaConfig}
use villa_straylight.Subsystem.{Kind, same_kind}
use villa_straylight.PinState.{State, Effective, effective_for}
use villa_straylight.Pins.{Shape, Pin, Entry, rendered_by, entries_for}

pub record Resolved : Type 0 where
  pub component : String
  pub subsystem : Kind
  pub shape : Shape
  pub current : Pin
  pub vetted : Pin
  pub from_store : Bool

-- `Resolved.Diverged`
unfoldable pub is_diverged : Resolved → Bool
is_diverged r = not (str_eq r.current.ref r.vetted.ref)

pub record Resolver : Type 0 where
  pub table : List Entry
  pub state : State

-- An entry's answer, by what the store records for it.
unfoldable pub resolve_by : Entry → Option Effective → Resolved
resolve_by e recorded =
    let vetted : Resolved = record {
      component = e.component;
      subsystem = e.subsystem;
      shape = e.shape;
      current = e.vetted;
      vetted = e.vetted;
      from_store = false;
    } in
    elim recorded [
      | none ↦ vetted
      | some eff ↦ if str_eq eff.ref "" then vetted else record vetted {
        current = record { ref = eff.ref; checksum = eff.checksum };
        from_store = true;
      }
    ]

-- `resolveEntry`
unfoldable pub resolve_entry : State → Entry → Resolved
resolve_entry s e = resolve_by e (effective_for s e.component)

-- The loop of `Resolve`.
unfoldable pub resolve_in : State → String → List Entry → Option Resolved
resolve_in s id [] = none
resolve_in s id (e ∷ table) =
    let later = resolve_in s id table in
    if str_eq e.component id then some (resolve_entry s e) else later

unfoldable pub resolve : Resolver → String → Option Resolved
resolve r id = resolve_in r.state id r.table

-- `All`
unfoldable pub resolve_all : Resolver → List Resolved
resolve_all r = map (resolve_entry r.state) r.table

-- `For`, whose loop is the one of `pins.For`.
unfoldable pub resolve_for : Resolver → Kind → VillaConfig → List Resolved
resolve_for r k cfg = map (resolve_entry r.state) (entries_for k cfg r.table)

-- `Resolver.Diverged`
unfoldable pub all_diverged : Resolver → List Resolved
all_diverged r = select is_diverged (resolve_all r)
