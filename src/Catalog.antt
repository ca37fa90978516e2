-- ===== src/Catalog.antt =====
-- internal/catalog/catalog.go: the fields of an entry that the fit reads. A dimension is the
-- `uint64` that the fit converts it to; the sampling presets and the shards are left out.
use villa_straylight.Base.{
  ℕ, String, Bool, Option, none, some, List, [], ◌∷◌, str_eq, if◌then◌else◌,
}

pub record SlidingWindow : Type 0 where
  pub n_layers : ℕ
  pub n_kv_heads : ℕ
  pub head_dim : ℕ
  pub window : ℕ

pub record Sidecar : Type 0 where
  pub weight_bytes : ℕ
  pub provenance : String

-- `Draft`, with the fields of the `Sidecar` that it embeds.
pub record Draft : Type 0 where
  pub weight_bytes : ℕ
  pub provenance : String
  pub spec_type : String
  pub n_layers : ℕ
  pub n_kv_heads : ℕ
  pub head_dim : ℕ
  pub kv_bytes_per_elem : ℕ

pub record Model : Type 0 where
  pub id : String
  pub quant : String
  pub weight_bytes : ℕ
  pub n_layers : ℕ
  pub n_kv_heads : ℕ
  pub head_dim : ℕ
  pub kv_bytes_per_elem : ℕ
  pub default_ctx : ℕ
  pub min_envelope_bytes : ℕ
  pub unified_memory_safe : Bool
  pub backend_default : String
  pub bootstrap : Bool
  pub role : String
  pub agent_ctx : ℕ
  pub ngram_safe : Bool
  pub ngram_provenance : String
  pub projector : Option Sidecar
  pub draft : Option Draft
  pub swa : Option SlidingWindow

-- `FindByID`, over the entries of a catalog.
unfoldable pub find_by_id : List Model → String → Option Model
find_by_id [] id = none
find_by_id (m ∷ ms) id = let rest = find_by_id ms id in if str_eq m.id id then some m else rest

-- internal/catalog/image.go, the fields that the reservation reads.
pub record ImageModel : Type 0 where
  pub id : String
  pub weight_bytes : ℕ
  pub compute_bytes : ℕ

-- `Image`, over the embedded table.
unfoldable pub find_image : List ImageModel → String → Option ImageModel
find_image [] id = none
find_image (m ∷ ms) id = let rest = find_image ms id in if str_eq m.id id then some m else rest
