-- ===== src/UpdateCheck/Tests.antt =====
-- internal/updatecheck/check.go: a report on one offered image, which was built again.
use villa_straylight.Base.{◌≡◌, refl, true, String, none, [], ◌∷◌, All}
use villa_straylight.Subsystem.{
  Kind, memory, inference, on, every, same_kind, kind_number, kind_name, config_key,
}
use villa_straylight.Pins.{version_tag, Entry, entries_for, rendered_by, shape_name}
use villa_straylight.PinResolve.{resolve, resolve_in, resolve_entry, resolve_by}
use villa_straylight.PinState.{effective_for, lookup}
use villa_straylight.StackApply.Example.{config}
use villa_straylight.Manifest.{Document}
use villa_straylight.Manifest.Verify.{accepted, no_reason, accepts}
use villa_straylight.UpdateCheck.{Input}
use villa_straylight.UpdateCheck.Rows.{
  after_colon, from_index, to_index, text_or_empty, declared_version, classify, active_backend,
  is_component, is_active_backend, is_left_out, offer_for, unmoved, component_row, add_component,
  component_rows, subsystem_row, count, subsystem_rows,
}
use villa_straylight.UpdateCheck.Checks.{
  accept, check_as, check, is_updatable, order_in, order, insert_name, sort_names, updatable_names,
  updatable,
}
use villa_straylight.UpdateCheck.Counts.{Tallies, check-Tallies}
use villa_straylight.UpdateCheck.Moves.{IsHonest, check-IsHonest}

abbrev entry : Kind → String → String → Entry
entry k id ref = record {
  component = id;
  subsystem = k;
  unit = "";
  shape = version_tag;
  registry = "docker.io";
  version = "1";
  vetted = record { ref = ref; checksum = "" };
}

abbrev offers : Document
offers = record {
  schema_version = 1;
  serial = 7;
  valid_until = "2030-01-01T00:00:00Z";
  villa_version = "";
  villa_checksum = "";
  components =
      record {
        id = "qdrant";
        registry = "docker.io";
        shape = "version_tag";
        version = "1";
        ref = "docker.io/qdrant:1@sha256:b";
        checksum = "";
        floors = none;
      }
      ∷ [];
}

abbrev input : Input
input = record {
  cfg = record config { memory_enabled = true };
  resolver = record {
    table =
        entry inference "backend-rocm-7.2.4" "docker.io/rocm:7"
        ∷ entry memory "qdrant" "docker.io/qdrant:1@sha256:a"
        ∷ [];
    state = record { schema_version = 1; pins = []; previous = []; serial = 0; checked_at = "" };
  };
  verdict = record {
    outcome = accepted;
    reason = no_reason;
    message = accepts 7 "2030-01-01T00:00:00Z";
    doc = offers;
  };
  checked_at = "2029-01-01T00:00:00Z";
  last_successful_check = "";
  villa_version = "1.0";
}

-- The colon of a digest is no tag.
declares_tag : declared_version "localhost:5000/a/qdrant:v1@sha256:a" ≡ "v1"
unfolding declared_version after_colon from_index to_index text_or_empty
declares_tag = refl

declares_none : declared_version "docker.io/qdrant@sha256:a" ≡ ""
unfolding declared_version after_colon from_index to_index text_or_empty
declares_none = refl

check-Tallies_example : Tallies (check input)
check-Tallies_example = check-Tallies input refl

check-IsHonest_example : All IsHonest (check input).subsystems
check-IsHonest_example = check-IsHonest input

reporting : Unit {0}
unfolding check check_as accept subsystem_rows subsystem_row component_rows add_component
    component_row unmoved classify offer_for is_left_out is_active_backend is_component
    active_backend count updatable updatable_names sort_names insert_name is_updatable
reporting = tt

reports_one : updatable (check input) ≡ "memory" ∷ []
unfolding reporting on every same_kind kind_number entries_for rendered_by kind_name resolve
    resolve_in resolve_entry resolve_by effective_for lookup shape_name order order_in
    declared_version after_colon from_index to_index text_or_empty config_key
reports_one = refl
