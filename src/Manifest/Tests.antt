-- ===== src/Manifest/Tests.antt =====
-- internal/manifestverify: a signed manifest of one image, with a stub for the parameters.
use villa_straylight.Base.{
  ◌⊎◌, ◌≡◌, ◌≢◌, refl, ℕ, String, true, none, some, List, [], ◌∷◌, ok, arith, is_blank, is_space,
}
use villa_straylight.Manifest.{
  Document, no_document, Env, check_schema, signature_verifies, problem_if, host_is,
  ref_matches_registry, check_component, check_components, check_expiry, check_allowlist,
}
use villa_straylight.Subsystem.{memory}
use villa_straylight.Pins.{rolling_digest, shape_name, is_asset, find_entry}
use villa_straylight.Manifest.Verify.{
  Input, accepted, refused, decline, after_problems, after_expiry, after_parse, verify,
}
use villa_straylight.Manifest.Trusted.{IsTrusted, verify-IsTrusted}

abbrev published : String → Document
published ref = record {
  schema_version = 1;
  serial = 7;
  valid_until = "2030-01-01T00:00:00Z";
  villa_version = "";
  villa_checksum = "";
  components =
      record {
        id = "qdrant";
        registry = "docker.io";
        shape = "rolling_digest";
        version = "";
        ref = ref;
        checksum = "";
        floors = none;
      }
      ∷ [];
}

abbrev env : String → Env
env ref = record {
  decode = λ bytes. ok (published ref);
  ed25519_verify = λ key message sig. true;
  parse_time = λ s. some 1000;
  table =
      record {
        component = "qdrant";
        subsystem = memory;
        unit = "";
        shape = rolling_digest;
        registry = "docker.io";
        version = "";
        vetted = record { ref = ""; checksum = "" };
      }
      ∷ [];
}

abbrev key : List ℕ
key =
    1 ∷ 2 ∷ 3 ∷ 4 ∷ 5 ∷ 6 ∷ 7 ∷ 8 ∷ 1 ∷ 2 ∷ 3 ∷ 4 ∷ 5 ∷ 6 ∷ 7 ∷ 8 ∷ 1 ∷ 2 ∷ 3 ∷ 4 ∷ 5 ∷ 6 ∷ 7 ∷ 8
    ∷ 1 ∷ 2 ∷ 3 ∷ 4 ∷ 5 ∷ 6 ∷ 7 ∷ 8 ∷ []

abbrev input : ℕ → Input
input floor = record {
  data_bytes = 1 ∷ [];
  signature = 2 ∷ [];
  public_key = key;
  serial_floor = floor;
  now = 900;
}

-- Every function of the verdict, to be opened at once.
verdict : Unit {0}
unfolding verify after_parse after_expiry after_problems decline signature_verifies check_schema
    check_allowlist check_expiry check_components check_component ref_matches_registry host_is
    find_entry problem_if shape_name is_asset is_blank is_space
verdict = tt

is_accepted : (verify (env "docker.io/qdrant@1") (input 3)).outcome ≡ accepted
unfolding verdict
is_accepted = refl

redirected : (verify (env "evil.io/qdrant@1") (input 3)).outcome ≡ refused
unfolding verdict
redirected = refl

downgrade_refused : (verify (env "docker.io/qdrant@1") (input 8)).outcome ≢ accepted
unfolding verdict
downgrade_refused h = ground (arith, h)

verify-IsTrusted_example :
    ((verify (env "docker.io/qdrant@1") (input 3)).outcome ≡ accepted)
      × IsTrusted (env "docker.io/qdrant@1") (input 3) (verify (env "docker.io/qdrant@1") (input 3))
    ⊎ ((verify (env "docker.io/qdrant@1") (input 3)).outcome ≢ accepted)
      × ((verify (env "docker.io/qdrant@1") (input 3)).doc ≡ no_document)
verify-IsTrusted_example = verify-IsTrusted (env "docker.io/qdrant@1") (input 3)
