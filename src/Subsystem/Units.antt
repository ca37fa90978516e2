-- ===== src/Subsystem/Units.antt =====
-- internal/subsystem/units.go: the units and services of each subsystem, and its update budget.
use Prim.Native.String.{len, slice, ◌++◌ as str_append}
use villa_straylight.Base.{
  ℕ, ◌-◌, String, Bool, true, ◌&&◌, Option, none, some, List, [], ◌∷◌, leb, str_eq, map,
  if◌then◌else◌,
}
use villa_straylight.Config.{VillaConfig}
use villa_straylight.Subsystem.{
  Kind, memory, web_search, agent, coding_mode, inference, chat, sandbox, voice, image, rerank_on,
  extract_on,
}

-- `unit`; a unit without a gate is rendered whenever its subsystem is.
pub record UnitEntry : Type 0 where
  pub name : String
  pub gate : Option (VillaConfig → Bool)

abbrev always : String → UnitEntry
always name = record { name = name; gate = none }

unfoldable pub unit_table : Kind → List UnitEntry
unit_table inference = always "villa-llama.container" ∷ []
unit_table chat = always "villa-openwebui.container" ∷ []
unit_table memory =
    always "villa-qdrant.container"
    ∷ always "villa-embed.container"
    ∷ record { name = "villa-rerank.container"; gate = some rerank_on }
    ∷ record { name = "villa-extract.container"; gate = some extract_on }
    ∷ []
unit_table web_search = always "villa-searxng.container" ∷ always "villa-websafe.container" ∷ []
unit_table sandbox = always "villa-inferproxy.container" ∷ []
unit_table voice = always "villa-stt.container" ∷ always "villa-tts.container" ∷ []
unit_table image = always "villa-image.container" ∷ []
unit_table agent = []
unit_table coding_mode = []

-- `strings.TrimSuffix`
unfoldable pub trim_suffix : String → String → String
trim_suffix s t =
    let at = len s - len t in
    if leb (len t) (len s) && str_eq (slice s at (len s)) t then slice s 0 at else s

unfoldable pub service_of : String → String
service_of unit = str_append (trim_suffix unit ".container") ".service"

unfoldable pub answers : Option (VillaConfig → Bool) → VillaConfig → Bool
answers none cfg = true
answers (some gate) cfg = gate cfg

unfoldable pub rendered_names : List UnitEntry → VillaConfig → List String
rendered_names [] cfg = []
rendered_names (u ∷ us) cfg =
    let rest = rendered_names us cfg in if answers u.gate cfg then u.name ∷ rest else rest

unfoldable pub all_names : List UnitEntry → List String
all_names [] = []
all_names (u ∷ us) = u.name ∷ all_names us

-- `Units` and `EveryUnit`: the unit files, and their services.
unfoldable pub units : Kind → VillaConfig → List String × List String
units k cfg = let names = rendered_names (unit_table k) cfg in (names, map service_of names)

unfoldable pub every_unit : Kind → List String × List String
every_unit k = let names = all_names (unit_table k) in (names, map service_of names)

-- `UpdateBudget`, in minutes.
unfoldable pub update_budget : Kind → ℕ
update_budget inference = 10
update_budget image = 10
update_budget chat = 3
update_budget memory = 5
update_budget web_search = 5
update_budget agent = 3
update_budget _ = 5
