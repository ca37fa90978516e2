-- ===== src/Recommend/Exact.antt =====
-- internal/recommend/kv.go: the size of the cache against the formula, and when a sum is exact.
use villa_straylight.Base.{
  ◌≡◌, refl, sym, ◌∙◌, ap, ℕ, ◌+◌, ◌-◌, ◌*◌, ◌/◌, ◌%◌, ◌^◌, ◌≤◌, ◌<◌, Option, none, some, List, [],
  ◌∷◌, arith, All, ltb, ◌==◌, Bool-cases, inl, inr, if◌then◌else◌,
}
use villa_straylight.Catalog.{Model, SlidingWindow}
use villa_straylight.Recommend.Words.{
  max_u64, max_int, add_saturating, multiply_all, kv_bytes_for_dims, swa_bound, swa_cells,
  swa_cache_bytes, swa_checkpoint_bytes, kv_cache_bytes,
}

pub add_saturating-exact : (a b : ℕ) → add_saturating a b < max_u64 → add_saturating a b ≡ a + b
unfolding add_saturating
add_saturating-exact a b h = ground arith

-- A number, or the largest `uint64` if it is larger.
unfoldable pub saturated : ℕ → ℕ
saturated n = if ltb n (2 ^ 64) then n else max_u64

add-saturated : (a b : ℕ) → add_saturating (saturated a) (saturated b) ≡ saturated (a + b)
unfolding add_saturating saturated
add-saturated a b = ground arith

product : ℕ → List ℕ → ℕ
product total [] = total
product total (f ∷ fs) = product (total * f) fs

le-product : (total : ℕ) (fs : List ℕ) → All (λ f. 0 < f) fs → total ≤ product total fs
unfolding product
le-product total [] h = omega arith
le-product total (f ∷ fs) h = grind (arith, le-product (total * f) fs h.1, h.0)

saturated_small : (n : ℕ) → n < 2 ^ 64 → saturated n ≡ n
unfolding saturated
saturated_small n h = ground arith

saturated_large : (n : ℕ) → 2 ^ 64 ≤ n → saturated n ≡ max_u64
unfolding saturated
saturated_large n h = ground arith

multiply_all-saturated :
    (total : ℕ) (fs : List ℕ)
    → total < 2 ^ 64
    → All (λ f. 0 < f) fs
    → multiply_all total fs ≡ saturated (product total fs)
unfolding multiply_all product
multiply_all-saturated total [] b h = sym (saturated_small total b)
multiply_all-saturated total (f ∷ fs) b h =
    let larger = le-product (total * f) fs h.1 in
    elim (Bool-cases (ltb (total * f) (2 ^ 64))) [
      | inl e ↦ ground (arith, multiply_all-saturated (total * f) fs)
      | inr e ↦ ground (arith, saturated_large (product (total * f) fs))
    ]

-- The bytes of the keys and values of some layers.
unfoldable pub layer_bytes : ℕ → ℕ → ℕ → ℕ → ℕ → ℕ
layer_bytes n_layers n_kv_heads head_dim ctx kv_bytes_per_elem =
    2 * n_layers * n_kv_heads * head_dim * ctx * kv_bytes_per_elem

kv_bytes_for_dims-saturated :
    (a b c ctx e : ℕ)
    → 0 < a
    → 0 < b
    → 0 < c
    → 0 < e
    → kv_bytes_for_dims a b c ctx e ≡ saturated (layer_bytes a b c ctx e)
unfolding kv_bytes_for_dims layer_bytes product
kv_bytes_for_dims-saturated a b c ctx e ha hb hc he = elim (Bool-cases (ctx == 0)) [
  | inl z ↦
      let zero_ctx : ctx ≡ 0 = ground (arith, z) in
      let nothing : 2 * a * b * c * ctx * e ≡ 0 = grind (arith, zero_ctx) in
      rw (z) (sym (ap saturated nothing ∙ saturated_small 0 (omega arith)))
  | inr z ↦ rw (z) (
      multiply_all-saturated 2 (a ∷ b ∷ c ∷ ctx ∷ e ∷ []) (omega arith)
        (ha, (hb, (hc, (ground (arith, z), (he, tt))))))
]

abbrev pub lesser : ℕ → ℕ → ℕ
lesser a b = if ltb b a then b else a

-- The cells of a sliding window: the window for each of four sequences and a micro-batch of 512,
-- at most the context, in blocks of 256.
unfoldable pub window_cells : ℕ → ℕ → ℕ
window_cells ctx window = (lesser ctx (window * 4 + 512) + 255) / 256 * 256

swa_cells-window_cells :
    (ctx window : ℕ) → ctx ≤ max_int - 256 → swa_cells ctx window ≡ window_cells ctx window
unfolding swa_cells swa_bound window_cells
swa_cells-window_cells ctx window h = ground arith

-- The bytes of the sliding layers' cells, and of a checkpoint for each of the four sequences.
unfoldable pub sliding_bytes : Option SlidingWindow → ℕ → ℕ → ℕ
sliding_bytes none elem ctx = 0
sliding_bytes (some s) elem ctx =
    layer_bytes s.n_layers s.n_kv_heads s.head_dim (window_cells ctx s.window) elem
    + 4 * layer_bytes s.n_layers s.n_kv_heads s.head_dim (lesser ctx s.window) elem

unfoldable pub cache_bytes : Model → ℕ → ℕ
cache_bytes m ctx =
    layer_bytes m.n_layers m.n_kv_heads m.head_dim ctx m.kv_bytes_per_elem
    + sliding_bytes m.swa m.kv_bytes_per_elem ctx

abbrev pub SlidingIsSized : Option SlidingWindow → Type 0
SlidingIsSized none = Unit
SlidingIsSized (some s) = (0 < s.n_layers) × (0 < s.n_kv_heads) × (0 < s.head_dim)

-- No dimension of an entry is 0.
pub record IsSized (m : Model) : Type 0 where
  pub layers : 0 < m.n_layers
  pub heads : 0 < m.n_kv_heads
  pub dim : 0 < m.head_dim
  pub elem : 0 < m.kv_bytes_per_elem
  pub sliding : SlidingIsSized m.swa

four_times :
    (k n : ℕ)
    → k ≡ saturated n
    → (if k * 4 / 2 ^ 64 == 0 then k * 4 % 2 ^ 64 else max_u64) ≡ saturated (4 * n)
unfolding saturated
four_times k n h = ground arith

swa_checkpoint_bytes-saturated :
    (s : SlidingWindow) (e ctx : ℕ)
    → 0 < e
    → SlidingIsSized (some s)
    → swa_checkpoint_bytes (some s) e ctx
      ≡ saturated (4 * layer_bytes s.n_layers s.n_kv_heads s.head_dim (lesser ctx s.window) e)
unfolding swa_checkpoint_bytes
swa_checkpoint_bytes-saturated s e ctx he h = four_times _ _ (
    kv_bytes_for_dims-saturated s.n_layers s.n_kv_heads s.head_dim (lesser ctx s.window) e h.0 h.1
      h.2 he)

sliding-saturated :
    (o : Option SlidingWindow) (e ctx : ℕ)
    → ctx ≤ max_int - 256
    → 0 < e
    → SlidingIsSized o
    → add_saturating (swa_cache_bytes o e ctx) (swa_checkpoint_bytes o e ctx)
      ≡ saturated (sliding_bytes o e ctx)
unfolding swa_cache_bytes sliding_bytes
sliding-saturated none e ctx small he h =
    unfold swa_checkpoint_bytes add_saturating saturated in refl
sliding-saturated (some s) e ctx small he h =
    rw
      (
        swa_checkpoint_bytes-saturated s e ctx he h,
        kv_bytes_for_dims-saturated s.n_layers s.n_kv_heads s.head_dim (swa_cells ctx s.window) e
            h.0 h.1 h.2 he,
        swa_cells-window_cells ctx s.window small,
      )
      (add-saturated _ _)

-- For an entry none of whose dimensions is 0, and a context up to 256 below the largest `int`, the
-- code's cache size is the size by the formula, or the largest `uint64` where that does not fit.
pub kv_cache_bytes-saturated :
    (m : Model) (ctx : ℕ)
    → IsSized m
    → ctx ≤ max_int - 256
    → kv_cache_bytes m ctx ≡ saturated (cache_bytes m ctx)
unfolding kv_cache_bytes cache_bytes
kv_cache_bytes-saturated m ctx h small =
    rw
      (
        kv_bytes_for_dims-saturated m.n_layers m.n_kv_heads m.head_dim ctx m.kv_bytes_per_elem
            h.layers h.heads h.dim h.elem,
        sliding-saturated m.swa m.kv_bytes_per_elem ctx small h.elem h.sliding,
      )
      (add-saturated _ _)
