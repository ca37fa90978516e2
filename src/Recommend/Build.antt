-- ===== src/Recommend/Build.antt =====
-- internal/recommend/recommend.go: the recommendation of one model at one context.
use villa_straylight.Base.{
  ℕ, String, Bool, false, ◌&&◌, none, List, [], ◌++◌, leb, str_eq, if◌then◌else◌,
}
use villa_straylight.Catalog.{Model}
use villa_straylight.Recommend.{Note, Overrides, Recommendation, CoderFit, withheld}
use villa_straylight.Recommend.Words.{add_saturating, kv_cache_bytes}
use villa_straylight.Recommend.Fit.{prompt_cache_bytes}
use villa_straylight.Recommend.Sidecars.{reserve_projector, reserve_draft}

-- `cmp.Or` with the default backend.
unfoldable pub backend_or_default : String → String
backend_or_default b = if str_eq b "" then "rocm" else b

abbrev pub shared_coder_fit : CoderFit
shared_coder_fit = record {
  model = "";
  quant = "";
  agent_ctx = 0;
  weight_bytes = 0;
  kv_cache_bytes = 0;
  headroom_bytes = 0;
  total_bytes = 0;
  fits = false;
  residency = "shared";
  prompt_cache_bytes = 0;
}

-- `Recommendation{Backend: defaultBackend, ...}`: no model.
abbrev pub refusal : ℕ → Bool → List Note → Recommendation
refusal envelope degraded notes = record {
  model = "";
  quant = "";
  context_len = 0;
  backend = "rocm";
  weight_bytes = 0;
  kv_cache_bytes = 0;
  headroom_bytes = 0;
  total_bytes = 0;
  usable_envelope_bytes = envelope;
  fits = false;
  degraded = degraded;
  notes = notes;
  alternatives = [];
  rocm_advice = withheld;
  rocm_note = none;
  embedding_reservation_bytes = 0;
  memory_considered = false;
  coder = shared_coder_fit;
  web_search_reservation_bytes = 0;
  speculation = "";
  projector_bytes = 0;
  vision = false;
  draft_bytes = 0;
  draft_kv_bytes = 0;
  prompt_cache_bytes = 0;
  reservations = [];
}

unfoldable pub base_total : ℕ → ℕ → ℕ → ℕ
base_total weight kv headroom =
    add_saturating (add_saturating (add_saturating weight kv) headroom) prompt_cache_bytes

unfoldable pub build_recommendation :
    Model → Overrides → ℕ → ℕ → ℕ → Bool → List Note → Recommendation
build_recommendation m ov ctx envelope headroom degraded notes =
    let kv = kv_cache_bytes m ctx in
    let total = base_total m.weight_bytes kv headroom in
    let proj = reserve_projector m.projector total envelope in
    let draft = reserve_draft m ov ctx proj.total envelope in
    record (refusal envelope degraded (notes ++ (proj.notes ++ draft.notes))) {
      model = m.id;
      quant = m.quant;
      context_len = ctx;
      backend = backend_or_default m.backend_default;
      weight_bytes = m.weight_bytes;
      kv_cache_bytes = kv;
      headroom_bytes = headroom;
      total_bytes = draft.total;
      prompt_cache_bytes = prompt_cache_bytes;
      fits = leb draft.total envelope && draft.honoured;
      speculation = draft.spec;
      projector_bytes = proj.bytes;
      vision = proj.vision;
      draft_bytes = draft.bytes;
      draft_kv_bytes = draft.kv;
    }
