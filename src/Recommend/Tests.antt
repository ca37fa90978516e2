-- ===== src/Recommend/Tests.antt =====
-- internal/recommend: a catalog of two models on a small host.
use villa_straylight.Base.{
  ◌≡◌, refl, ℕ, ◌*◌, ◌^◌, ◌/◌, ◌<◌, String, true, false, none, some, List, [], ◌∷◌, All, arith,
}
use villa_straylight.Catalog.{Model}
use villa_straylight.Recommend.{Reservation, Overrides, HostProfile, Fractions}
use villa_straylight.Recommend.Words.{
  add_saturating, multiply_all, kv_bytes_for_dims, swa_bound, swa_cells, swa_cache_bytes,
  swa_checkpoint_bytes, kv_cache_bytes,
}
use villa_straylight.Recommend.Reserve.{
  clamped, web_search_reservation, reserved_from, reserved_bytes,
}
use villa_straylight.Recommend.Fit.{
  effective_ctx, auto_eligible, meets_envelope_floor, chat_total, chat_fit, outranks, next_best,
  alternative_of, best_from, fitting, select_best, alternatives_excluding,
}
use villa_straylight.Recommend.Sidecars.{
  reserve_projector, draft_terms_for, resolve_speculation, is_draft_dropped, reserve_draft,
}
use villa_straylight.Recommend.Build.{backend_or_default, base_total, build_recommendation}
use villa_straylight.Recommend.Coder.{
  coder_eligible, coder_total, coder_footprint, next_coder, best_coder_from, coder_fit_of,
  pick_coder,
}
use villa_straylight.Recommend.Pick.{
  is_rocm_family, fold_signals, advice_of, derive_rocm_advice, is_withheld, last_named, finalize,
  left_of, resolve_envelope, best_of, pick_best, pick_in, pick,
}
use villa_straylight.Recommend.Exact.{saturated, cache_bytes, kv_cache_bytes-saturated}
use villa_straylight.Recommend.Fits.{Fits, pick-Fits}
use villa_straylight.Recommend.Best.{IsBest, need, select_best-IsBest}

abbrev model : String → ℕ → Model
model id weight = record {
  id = id;
  quant = "Q4";
  weight_bytes = weight;
  n_layers = 10;
  n_kv_heads = 4;
  head_dim = 128;
  kv_bytes_per_elem = 2;
  default_ctx = 8192;
  min_envelope_bytes = 0;
  unified_memory_safe = true;
  backend_default = "";
  bootstrap = false;
  role = "";
  agent_ctx = 0;
  ngram_safe = false;
  ngram_provenance = "";
  projector = none;
  draft = none;
  swa = some (record { n_layers = 50; n_kv_heads = 16; head_dim = 128; window = 1024 });
}

abbrev models : List Model
models = model "small" (4 * 2 ^ 30) ∷ model "large" (20 * 2 ^ 30) ∷ model "huge" (90 * 2 ^ 30) ∷ []

abbrev fractions : Fractions
fractions = record { headroom_bytes = λ e. e / 8; ram_floor = λ r. r / 2 }

abbrev host : HostProfile
host = record {
  usable_envelope_bytes = some (64 * 2 ^ 30);
  total_ram_bytes = none;
  rocm_signals = ("kernel floor", none) ∷ [];
}

abbrev at_ctx : ℕ → Overrides
at_ctx ctx = record { model = ""; quant = ""; ctx = ctx; speculation = "" }

abbrev reserved : List Reservation
reserved = record { name = "embedding"; bytes = 2 ^ 29; notes = [] } ∷ []

picking : Unit {0}
unfolding pick pick_in resolve_envelope left_of reserved_bytes reserved_from pick_coder
    best_coder_from coder_fit_of next_coder coder_footprint coder_total coder_eligible pick_best
    select_best best_from fitting alternative_of chat_fit chat_total effective_ctx auto_eligible
    meets_envelope_floor next_best outranks best_of build_recommendation base_total
    reserve_projector reserve_draft draft_terms_for resolve_speculation is_draft_dropped
    backend_or_default alternatives_excluding finalize derive_rocm_advice advice_of fold_signals
    is_withheld is_rocm_family last_named kv_cache_bytes kv_bytes_for_dims multiply_all
    swa_cache_bytes swa_cells swa_bound swa_checkpoint_bytes add_saturating
picking = tt

picks_large : (pick fractions host models (at_ctx 0) reserved).model ≡ "large"
unfolding picking
picks_large = refl

picks_fitting : (pick fractions host models (at_ctx 0) reserved).fits ≡ true
unfolding picking
picks_fitting = refl

-- The wrapped sum of `chatFit`: at a context for which the cache saturates, a model is chosen that
-- does not fit, in place of none.
picks_wrapped : (pick fractions host models (at_ctx (2 ^ 62)) reserved).model ≡ "large"
unfolding picking
picks_wrapped = refl

picks_unfit : (pick fractions host models (at_ctx (2 ^ 62)) reserved).fits ≡ false
unfolding picking
picks_unfit = refl

reserves_web :
    (web_search_reservation (record { result_count = 0; top_k = 0; chunk_size_chars = 0 })).0
    ≡ 6445056
unfolding web_search_reservation clamped
reserves_web = refl

known :
    resolve_envelope fractions host.usable_envelope_bytes host.total_ram_bytes
    ≡ some (64 * 2 ^ 30, false)
unfolding picking
known = refl

pick-Fits_example : Fits (pick fractions host models (at_ctx 0) reserved) (64 * 2 ^ 30) reserved
pick-Fits_example =
    pick-Fits fractions host models (at_ctx 0) reserved (64 * 2 ^ 30) false known (omega arith)
      picks_fitting

kv_cache_bytes-saturated_example :
    kv_cache_bytes (model "small" 1) 8192 ≡ saturated (cache_bytes (model "small" 1) 8192)
kv_cache_bytes-saturated_example =
    kv_cache_bytes-saturated (model "small" 1) 8192 (omega arith) (omega arith)

none_wraps : All (λ m. need (at_ctx 0) (64 * 2 ^ 30) (2 ^ 33) m < 2 ^ 64) models
unfolding picking
none_wraps = (omega arith, (omega arith, (omega arith, tt)))

select_best-IsBest_example :
    IsBest
      (at_ctx 0)
      (64 * 2 ^ 30)
      (2 ^ 33)
      models
      (select_best models (at_ctx 0) (64 * 2 ^ 30) (2 ^ 33)).0
select_best-IsBest_example = select_best-IsBest (at_ctx 0) (64 * 2 ^ 30) (2 ^ 33) models none_wraps
