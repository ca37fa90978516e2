-- ===== src/PinResolve/Tests.antt =====
-- internal/pinresolve: a small table of which the store moves one component.
use villa_straylight.Base.{◌≡◌, refl, String, some, [], ◌∷◌, All}
use villa_straylight.Subsystem.{memory, rerank_on, extract_on, on, kind_number, same_kind}
use villa_straylight.Subsystem.Units.{
  units, unit_table, rendered_names, answers, service_of, trim_suffix,
}
use villa_straylight.PinState.{effective_for, lookup}
use villa_straylight.Pins.{version_tag, Entry, rendered_by, entries_for}
use villa_straylight.StackApply.Example.{config}
use villa_straylight.PinResolve.{
  Resolver, is_diverged, resolve_by, resolve_entry, resolve_in, resolve, resolve_all, resolve_for,
  all_diverged,
}
use villa_straylight.PinResolve.Answers.{
  IsRecorded, IsUnique, all_diverged-IsRecorded, resolve_for-resolve,
}

abbrev entry : String → String → Entry
entry id unit = record {
  component = id;
  subsystem = memory;
  unit = unit;
  shape = version_tag;
  registry = "docker.io";
  version = "1";
  vetted = record { ref = "vetted"; checksum = "" };
}

abbrev resolver : Resolver
resolver = record {
  table =
      entry "qdrant" ""
      ∷ entry "embed" "villa-embed.container"
      ∷ entry "extract" "villa-extract.container"
      ∷ [];
  state = record {
    schema_version = 1;
    pins = ("qdrant", record { ref = "moved"; checksum = ""; updated_at = "" }) ∷ [];
    previous = [];
    serial = 1;
    checked_at = "";
  };
}

resolving : Unit {0}
unfolding resolve resolve_in resolve_entry resolve_by resolve_all resolve_for all_diverged
    is_diverged effective_for lookup entries_for rendered_by units unit_table rendered_names answers
    service_of trim_suffix rerank_on extract_on on kind_number same_kind
resolving = tt

-- The extractor is off, so its component is left out.
rendered_ones :
    resolve_for resolver memory config
    ≡ resolve_entry resolver.state (entry "qdrant" "")
      ∷ resolve_entry resolver.state (entry "embed" "villa-embed.container")
      ∷ []
unfolding resolving
rendered_ones = refl

all_diverged-IsRecorded_example : All (IsRecorded resolver.state) (all_diverged resolver)
all_diverged-IsRecorded_example = all_diverged-IsRecorded resolver

is_unique : IsUnique resolver.table
is_unique = ((refl, (refl, tt)), ((refl, tt), (tt, tt)))

resolve_for-resolve_example :
    All (λ x. resolve resolver x.component ≡ some x) (resolve_for resolver memory config)
resolve_for-resolve_example = resolve_for-resolve resolver memory config is_unique
