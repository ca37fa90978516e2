-- ===== src/Recommend/Coder.antt =====
-- internal/recommend/coder.go: the coder entry that fits, at its own context.
use villa_straylight.Base.{
  ℕ, Bool, true, not, ◌&&◌, Option, none, some, List, [], ◌∷◌, leb, ltb, str_eq, if◌then◌else◌,
}
use villa_straylight.Catalog.{Model}
use villa_straylight.Recommend.{CoderFit}
use villa_straylight.Recommend.Words.{kv_cache_bytes}
use villa_straylight.Recommend.Fit.{prompt_cache_bytes, meets_envelope_floor}
use villa_straylight.Recommend.Build.{shared_coder_fit, base_total}

unfoldable pub coder_eligible : Model → ℕ → Bool
coder_eligible m envelope =
    str_eq m.role "coder"
    && not m.bootstrap
    && m.unified_memory_safe
    && meets_envelope_floor m envelope

unfoldable pub coder_total : Model → ℕ → ℕ
coder_total m headroom = base_total m.weight_bytes (kv_cache_bytes m m.agent_ctx) headroom

unfoldable pub coder_footprint : Model → ℕ → ℕ → Option ℕ
coder_footprint m envelope headroom =
    let total = coder_total m headroom in
    if coder_eligible m envelope && leb total envelope then some total else none

unfoldable pub next_coder : Model → Option ℕ → Option (Model × ℕ) → Option (Model × ℕ)
next_coder m none best = best
next_coder m (some total) none = some (m, total)
next_coder m (some total) (some (best, best_total)) =
    if ltb best_total total then some (m, total) else some (best, best_total)

-- The loop of `bestCoder`.
unfoldable pub best_coder_from : ℕ → ℕ → Option (Model × ℕ) → List Model → Option (Model × ℕ)
best_coder_from envelope headroom best [] = best
best_coder_from envelope headroom best (m ∷ ms) =
    best_coder_from envelope headroom (next_coder m (coder_footprint m envelope headroom) best) ms

unfoldable pub coder_fit_of : ℕ → Option (Model × ℕ) → CoderFit
coder_fit_of headroom none = shared_coder_fit
coder_fit_of headroom (some (best, total)) = record {
  model = best.id;
  quant = best.quant;
  agent_ctx = best.agent_ctx;
  weight_bytes = best.weight_bytes;
  kv_cache_bytes = kv_cache_bytes best best.agent_ctx;
  headroom_bytes = headroom;
  total_bytes = total;
  fits = true;
  residency = "swap";
  prompt_cache_bytes = prompt_cache_bytes;
}

unfoldable pub pick_coder : List Model → ℕ → ℕ → CoderFit
pick_coder models envelope headroom =
    coder_fit_of headroom (best_coder_from envelope headroom none models)
