-- ===== src/Recommend/Fit.antt =====
-- internal/recommend/recommend.go: how one entry is sized, and which of them is chosen.
use villa_straylight.Base.{
  ℕ, ◌+◌, ◌%◌, ◌^◌, ◌*◌, String, Bool, true, not, ◌&&◌, ◌||◌, Option, none, some, List, [], ◌∷◌,
  ◌++◌, leb, ltb, ◌==◌, str_eq, if◌then◌else◌,
}
use villa_straylight.Catalog.{Model}
use villa_straylight.Recommend.{Alternative, Overrides}
use villa_straylight.Recommend.Words.{kv_cache_bytes}

-- `PromptCacheBytes` of internal/inference: 8192 MiB.
abbrev pub prompt_cache_bytes : ℕ
prompt_cache_bytes = 8192 * 2 ^ 20

unfoldable pub effective_ctx : Model → Overrides → ℕ
effective_ctx m ov = if ov.ctx == 0 then m.default_ctx else ov.ctx

unfoldable pub auto_eligible : Model → Bool
auto_eligible m = not (str_eq m.role "coder") && not m.bootstrap && m.unified_memory_safe

unfoldable pub meets_envelope_floor : Model → ℕ → Bool
meets_envelope_floor m envelope = m.min_envelope_bytes == 0 || leb m.min_envelope_bytes envelope

-- The sum of `chatFit`, which wraps around.
unfoldable pub chat_total : Model → Overrides → ℕ → ℕ
chat_total m ov headroom =
    (m.weight_bytes + kv_cache_bytes m (effective_ctx m ov) + headroom + prompt_cache_bytes)
    % 2 ^ 64

-- `chatFit`: the context and the total of a model that is eligible and fits.
unfoldable pub chat_fit : Model → Overrides → ℕ → ℕ → Option (ℕ × ℕ)
chat_fit m ov envelope headroom =
    let total = chat_total m ov headroom in
    if auto_eligible m && meets_envelope_floor m envelope && leb total envelope
    then some (effective_ctx m ov, total)
    else none

unfoldable pub outranks : Model → ℕ → Option (Model × ℕ) → Bool
outranks m total none = true
outranks m total (some (best, best_total)) =
    ltb best.weight_bytes m.weight_bytes
    || m.weight_bytes == best.weight_bytes && ltb best_total total

-- The loop of `selectBest`: the best so far, and the alternatives from here on.
unfoldable pub next_best : Model → Option (ℕ × ℕ) → Option (Model × ℕ) → Option (Model × ℕ)
next_best m none best = best
next_best m (some (ctx, total)) best = if outranks m total best then some (m, total) else best

unfoldable pub alternative_of : Model → Option (ℕ × ℕ) → List Alternative
alternative_of m none = []
alternative_of m (some (ctx, total)) =
    record { model = m.id; quant = m.quant; context_len = ctx; total_bytes = total } ∷ []

unfoldable pub best_from : Overrides → ℕ → ℕ → Option (Model × ℕ) → List Model → Option (Model × ℕ)
best_from ov envelope headroom best [] = best
best_from ov envelope headroom best (m ∷ ms) =
    best_from ov envelope headroom (next_best m (chat_fit m ov envelope headroom) best) ms

unfoldable pub fitting : Overrides → ℕ → ℕ → List Model → List Alternative
fitting ov envelope headroom [] = []
fitting ov envelope headroom (m ∷ ms) =
    alternative_of m (chat_fit m ov envelope headroom) ++ fitting ov envelope headroom ms

unfoldable pub select_best : List Model → Overrides → ℕ → ℕ → Option (Model × ℕ) × List Alternative
select_best models ov envelope headroom =
    (best_from ov envelope headroom none models, fitting ov envelope headroom models)

unfoldable pub alternatives_excluding : List Alternative → String → ℕ → List Alternative
alternatives_excluding [] model ctx = []
alternatives_excluding (a ∷ alts) model ctx =
    let rest = alternatives_excluding alts model ctx in
    if str_eq a.model model && a.context_len == ctx then rest else a ∷ rest
