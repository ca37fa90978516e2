-- ===== src/UpdateCheck/Rows.antt =====
-- internal/updatecheck/check.go: `subsystemRow`, `classify` and the loop of `Check` over them.
use Prim.Native.Char.{code}
use Prim.Native.String.{len, slice, ◌++◌ as str_append}
use text.Mathlib.Text.{find?}
use villa_straylight.Base.{
  ℕ, suc, ◌+◌, String, Bool, true, false, not, ◌&&◌, ◌||◌, Option, none, some, List, [], ◌∷◌,
  is_empty, ◌==◌, str_eq, if◌then◌else◌,
}
use villa_straylight.Config.{VillaConfig}
use villa_straylight.Subsystem.{Kind, kind_name, config_key, on, same_kind, inference}
use villa_straylight.Pins.{
  Shape, shape_name, Pin, Entry, entries_for, rolling_digest, version_tag, checksummed_asset,
}
use villa_straylight.PinResolve.{Resolved, resolve}
use villa_straylight.Manifest
use villa_straylight.UpdateCheck.{
  Change, SubsystemState, Component, Subsystem, Summary, Input, no_change, rebuilt, new_version,
  unset_state, current, update_available, skipped,
}

-- What follows the last colon of a text; 58 is the colon.
unfoldable pub after_colon : String → Option String
after_colon String.[] = none
after_colon (String.◌∷◌ c s) = elim (after_colon s) [
  | some t ↦ some t
  | none ↦ if code c == 58 then some s else none
]

unfoldable pub from_index : String → Option ℕ → String
from_index ref none = ref
from_index ref (some i) = slice ref (i + 1) (len ref)

unfoldable pub to_index : String → Option ℕ → String
to_index rest none = rest
to_index rest (some i) = slice rest 0 i

unfoldable pub text_or_empty : Option String → String
text_or_empty none = ""
text_or_empty (some t) = t

unfoldable pub declared_version : String → String
declared_version ref =
    let rest = from_index ref (find? ref "/") in
    text_or_empty (after_colon (to_index rest (find? rest "@")))

unfoldable pub classify : Shape → Pin → Manifest.Component → Change
classify rolling_digest p offer = rebuilt
classify checksummed_asset p offer = if str_eq offer.ref p.ref then no_change else new_version
classify version_tag p offer =
    if str_eq (declared_version offer.ref) (declared_version p.ref) then rebuilt else new_version

-- The map of `isActiveBackend`.
unfoldable pub active_backend : String → Option String
active_backend b =
    if str_eq b "" || str_eq b "rocm" || str_eq b "rocm-10.0"
    then some "backend-rocm-10.0"
    else if str_eq b "rocm-7.2.4"
    then some "backend-rocm-7.2.4"
    else if str_eq b "rocm-6.4.4"
    then some "backend-rocm-6.4.4"
    else if str_eq b "rocm-6.4.4-rocwmma"
    then some "backend-rocm-6.4.4-rocwmma"
    else if str_eq b "vulkan"
    then some "backend-vulkan-radv"
    else none

unfoldable pub is_component : Option String → String → Bool
is_component none id = false
is_component (some active) id = str_eq active id

unfoldable pub is_active_backend : VillaConfig → String → Bool
is_active_backend cfg id = is_component (active_backend cfg.backend) id

-- A backend other than the active one is no row.
unfoldable pub is_left_out : VillaConfig → Kind → Entry → Bool
is_left_out cfg k e = same_kind k inference && not (is_active_backend cfg e.component)

-- The map `available`, to which a later component of one id writes over an earlier one.
unfoldable pub offer_for : List Manifest.Component → String → Option Manifest.Component
offer_for [] id = none
offer_for (c ∷ cs) id = elim (offer_for cs id) [
  | some o ↦ some o
  | none ↦ if str_eq c.id id then some c else none
]

unfoldable pub unmoved : Entry → Resolved → Component
unmoved e res = record {
  name = e.component;
  pin_shape = shape_name e.shape;
  vetted = res.vetted.ref;
  effective = res.current.ref;
  available = "";
  change = no_change;
}

-- A component's row, and whether it has somewhere to move.
unfoldable pub component_row : Entry → Resolved → Option Manifest.Component → Component × Bool
component_row e res none = (unmoved e res, false)
component_row e res (some offer) =
    if str_eq offer.ref res.current.ref then (unmoved e res, false) else (
      record (unmoved e res) { available = offer.ref; change = classify e.shape res.current offer },
      true,
    )

-- The body of the loop over the entries.
unfoldable pub add_component :
    Entry
    → Option Resolved
    → List Manifest.Component
    → List Component × Bool
    → List Component × Bool
add_component e none offers later = later
add_component e (some res) offers later =
    let c = component_row e res (offer_for offers e.component) in (c.0 ∷ later.0, c.1 || later.1)

unfoldable pub component_rows :
    Input → Kind → List Manifest.Component → List Entry → List Component × Bool
component_rows i k offers [] = ([], false)
component_rows i k offers (e ∷ es) =
    let later = component_rows i k offers es in
    let added = add_component e (resolve i.resolver e.component) offers later in
    if is_left_out i.cfg k e then later else added

unfoldable pub subsystem_row : Input → Kind → List Manifest.Component → Subsystem × SubsystemState
subsystem_row i k offers =
    let entries = entries_for k i.cfg i.resolver.table in
    let rows = component_rows i k offers entries in
    let state = if rows.1 then update_available else current in
    if is_empty entries
    then (record { name = ""; state = unset_state; skip_reason = ""; components = [] }, unset_state)
    else if not (on i.cfg k)
    then (
      record {
        name = kind_name k;
        state = skipped;
        skip_reason = str_append (config_key k) " = false";
        components = [];
      },
      skipped,
    )
    else (
      record { name = kind_name k; state = state; skip_reason = ""; components = rows.0 },
      state,
    )

unfoldable pub count : SubsystemState → Summary → Summary
count update_available s = record s { updatable = suc s.updatable }
count current s = record s { current = suc s.current }
count skipped s = record s { skipped = suc s.skipped }
count unset_state s = s

-- The loop over `subsystem.Every`.
unfoldable pub subsystem_rows :
    Input → List Manifest.Component → List Kind → List Subsystem × Summary
subsystem_rows i offers [] = ([], record { updatable = 0; current = 0; skipped = 0 })
subsystem_rows i offers (k ∷ ks) =
    let later = subsystem_rows i offers ks in
    let row = subsystem_row i k offers in
    if str_eq row.0.name "" then later else (row.0 ∷ later.0, count row.1 later.1)
