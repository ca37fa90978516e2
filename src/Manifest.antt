-- ===== src/Manifest.antt =====
-- internal/manifest/manifest.go and internal/manifestverify/verify.go: when a pin manifest is accepted.
-- `json` decoding, `ed25519.Verify`, `time.Parse` and the table of internal/pins are parameters, in
-- `Env`; a time is a number of seconds. An error or a message is its text's data.
pub mod Verify
pub mod Allowlist
pub mod Trusted
mod Tests
use Prim.Native.String.{slice}
use text.Mathlib.Text.{find?}
use villa_straylight.Base.{
  ℕ, String, Bool, true, false, not, ◌&&◌, Option, none, some, List, [], ◌∷◌, ◌++◌, Result, ok, err,
  length, ltb, ◌==◌, str_eq, is_blank, is_empty, if◌then◌else◌,
}
use villa_straylight.Pins.{Shape, shape_name, is_asset, Entry, find_entry}

pub record Floors : Type 0 where
  pub kernel : String
  pub kernel_tested : String
  pub firmware : String
  pub firmware_deny : String

pub record Component : Type 0 where
  pub id : String
  pub registry : String
  pub shape : String
  pub version : String
  pub ref : String
  pub checksum : String
  pub floors : Option Floors

pub record Document : Type 0 where
  pub schema_version : ℕ
  pub serial : ℕ
  pub valid_until : String
  pub villa_version : String
  pub villa_checksum : String
  pub components : List Component

abbrev pub schema_version : ℕ
schema_version = 1

abbrev pub no_document : Document
no_document = record {
  schema_version = 0;
  serial = 0;
  valid_until = "";
  villa_version = "";
  villa_checksum = "";
  components = [];
}

pub record Env : Type 0 where
  -- The strict JSON decoder, by the error that it reports.
  pub decode : List ℕ → Result ℕ Document
  -- Key, message and signature.
  pub ed25519_verify : List ℕ → List ℕ → List ℕ → Bool
  pub parse_time : String → Option ℕ
  pub table : List Entry

pub data ParseError : Type 0 where
  parse : ℕ → ParseError
  other_schema : ℕ → ParseError

-- `Parse`, after the decoder.
unfoldable pub check_schema : Result ℕ Document → Result ParseError Document
check_schema (err e) = err (parse e)
check_schema (ok doc) =
    if doc.schema_version == schema_version then ok doc else err (other_schema doc.schema_version)

-- `Verify` of internal/manifest; 32 is `ed25519.PublicKeySize`.
unfoldable pub signature_verifies : Env → List ℕ → List ℕ → List ℕ → Bool
signature_verifies env key message sig = length key == 32 && env.ed25519_verify key message sig

pub data Problem : Type 0 where
  unknown_component : String → Problem
  other_registry : String → String → String → Problem
  other_shape : String → String → Shape → Problem
  empty_pin no_checksum : String → Problem
  foreign_host : String → String → String → Problem
  zero_serial no_expiry no_components : Problem
  unreadable_expiry : String → Problem

unfoldable pub problem_if : Bool → Problem → List Problem
problem_if b p = if b then p ∷ [] else []

unfoldable pub host_is : String → String → Option ℕ → Bool
host_is ref registry none = false
host_is ref registry (some i) = str_eq (slice ref 0 i) registry

-- `refMatchesRegistry`
unfoldable pub ref_matches_registry : Shape → String → String → Bool
ref_matches_registry shape ref registry =
    if is_asset shape then true else host_is ref registry (find? ref "/")

unfoldable pub check_component : Component → Option Entry → List Problem
check_component c none = unknown_component c.id ∷ []
check_component c (some e) =
    problem_if (not (str_eq c.registry e.registry)) (other_registry c.id c.registry e.registry)
    ++ (problem_if (not (str_eq c.shape (shape_name e.shape))) (other_shape c.id c.shape e.shape)
        ++ (problem_if (is_blank c.ref) (empty_pin c.id)
            ++ (problem_if (is_asset e.shape && is_blank c.checksum) (no_checksum c.id)
                ++ problem_if
                    (not (str_eq c.ref "") && not (ref_matches_registry e.shape c.ref e.registry))
                    (foreign_host c.id c.ref e.registry))))

unfoldable pub check_components : List Entry → List Component → List Problem
check_components table [] = []
check_components table (c ∷ cs) =
    check_component c (find_entry c.id table) ++ check_components table cs

unfoldable pub check_expiry : String → Option ℕ → List Problem
check_expiry text parsed =
    if str_eq text ""
    then no_expiry ∷ []
    else elim parsed [ none ↦ unreadable_expiry text ∷ [] | some t ↦ [] ]

-- `CheckAllowlist`
unfoldable pub check_allowlist : Env → Document → List Problem
check_allowlist env doc =
    check_components env.table doc.components
    ++ (problem_if (doc.serial == 0) zero_serial
        ++ (check_expiry doc.valid_until (env.parse_time doc.valid_until)
            ++ problem_if (is_empty doc.components) no_components))
