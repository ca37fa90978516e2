-- ===== src/Pins.antt =====
-- internal/pins/pins.go: the entries of the pin table. The table itself is an argument.
use villa_straylight.Base.{
  String, Bool, true, false, ◌&&◌, Option, none, some, List, [], ◌∷◌, select, str_eq, occurs,
  if◌then◌else◌,
}
use villa_straylight.Config.{VillaConfig}
use villa_straylight.Subsystem.{Kind, same_kind}
use villa_straylight.Subsystem.Units.{units}

pub data Shape : Type 0 where
  rolling_digest version_tag checksummed_asset : Shape

unfoldable pub shape_name : Shape → String
shape_name rolling_digest = "rolling_digest"
shape_name version_tag = "version_tag"
shape_name checksummed_asset = "checksummed_asset"

unfoldable pub is_asset : Shape → Bool
is_asset checksummed_asset = true
is_asset _ = false

pub record Pin : Type 0 where
  pub ref : String
  pub checksum : String

-- The floors of an entry are left out; `vetted` is the pin that its func returns.
pub record Entry : Type 0 where
  pub component : String
  pub subsystem : Kind
  pub unit : String
  pub shape : Shape
  pub registry : String
  pub version : String
  pub vetted : Pin

-- `Lookup`
unfoldable pub find_entry : String → List Entry → Option Entry
find_entry id [] = none
find_entry id (e ∷ table) =
    let rest = find_entry id table in if str_eq e.component id then some e else rest

-- `RenderedBy`; `slices.Contains` is `occurs`.
unfoldable pub rendered_by : Entry → VillaConfig → Bool
rendered_by e cfg = if str_eq e.unit "" then true else occurs e.unit (units e.subsystem cfg).0

-- `For`
unfoldable pub entries_for : Kind → VillaConfig → List Entry → List Entry
entries_for k cfg = select (λ e. same_kind e.subsystem k && rendered_by e cfg)
