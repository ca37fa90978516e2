-- ===== src/Recommend.antt =====
-- internal/recommend: which model a host can run. Byte counts are `uint64`, as natural numbers with
-- the code's saturation and wrap-around written out; a context of 0 stands for any that is not
-- positive. A note is its text's data, and the JSON names are left out.
pub mod Words
pub mod Reserve
pub mod Pick
pub mod Exact
pub mod Bounds
pub mod Fits
pub mod Best
mod Tests
pub mod Coder
pub mod Fit
pub mod Sidecars
pub mod Build
use villa_straylight.Base.{ℕ, String, Bool, Option, List}
use villa_straylight.Catalog.{Draft}

pub data RocmAdvice : Type 0 where
  withheld worth_trying verify_bench : RocmAdvice

-- A note's text, by its format and arguments.
pub data Note : Type 0 where
  no_envelope degraded_estimate : Note
  no_model_fits : ℕ → Note
  override_unknown override_unsafe override_coder : String → Note
  override_quant quant_ignored : String → String → Note
  override_unfit : ℕ → ℕ → Note
  projector_dropped : ℕ → ℕ → ℕ → Note
  draft_dropped : ℕ → ℕ → String → Note
  speculates : String → String → Note
  spec_refused : String → Note
  reserved_for_web : ℕ → ℕ → ℕ → Note
  conservative_embedding conservative_image : String → Note

pub record Reservation : Type 0 where
  pub name : String
  pub bytes : ℕ
  pub notes : List Note

pub record Alternative : Type 0 where
  pub model : String
  pub quant : String
  pub context_len : ℕ
  pub total_bytes : ℕ

pub record Overrides : Type 0 where
  pub model : String
  pub quant : String
  pub ctx : ℕ
  pub speculation : String

pub record CoderFit : Type 0 where
  pub model : String
  pub quant : String
  pub agent_ctx : ℕ
  pub weight_bytes : ℕ
  pub kv_cache_bytes : ℕ
  pub headroom_bytes : ℕ
  pub total_bytes : ℕ
  pub fits : Bool
  pub residency : String
  pub prompt_cache_bytes : ℕ

pub record Recommendation : Type 0 where
  pub model : String
  pub quant : String
  pub context_len : ℕ
  pub backend : String
  pub weight_bytes : ℕ
  pub kv_cache_bytes : ℕ
  pub headroom_bytes : ℕ
  pub total_bytes : ℕ
  pub usable_envelope_bytes : ℕ
  pub fits : Bool
  pub degraded : Bool
  pub notes : List Note
  pub alternatives : List Alternative
  pub rocm_advice : RocmAdvice
  -- The blocker that the note names, if it names one.
  pub rocm_note : Option String
  pub embedding_reservation_bytes : ℕ
  pub memory_considered : Bool
  pub coder : CoderFit
  pub web_search_reservation_bytes : ℕ
  pub speculation : String
  pub projector_bytes : ℕ
  pub vision : Bool
  pub draft_bytes : ℕ
  pub draft_kv_bytes : ℕ
  pub prompt_cache_bytes : ℕ
  pub reservations : List Reservation

-- What internal/detect tells of the host: the sizes, and the signals of `ROCmReadiness` in the
-- order in which they are folded. `none` is a value that is not known.
pub record HostProfile : Type 0 where
  pub usable_envelope_bytes : Option ℕ
  pub total_ram_bytes : Option ℕ
  pub rocm_signals : List (String × Option Bool)

-- The two products with a `float64` fraction: 12% of an envelope, and 50% of the RAM.
pub record Fractions : Type 0 where
  pub headroom_bytes : ℕ → ℕ
  pub ram_floor : ℕ → ℕ
