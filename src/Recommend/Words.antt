-- ===== src/Recommend/Words.antt =====
-- internal/recommend/kv.go: the sizes of the caches, on `uint64`.
use villa_straylight.Base.{
  ℕ, ◌+◌, ◌-◌, ◌*◌, ◌/◌, ◌%◌, ◌^◌, Option, none, some, List, [], ◌∷◌, leb, ltb, ◌==◌, if◌then◌else◌,
}
use villa_straylight.Catalog.{Model, SlidingWindow, Draft}

-- `math.MaxUint64` and `math.MaxInt`.
abbrev pub max_u64 : ℕ
max_u64 = 0xffff_ffff_ffff_ffff

abbrev pub max_int : ℕ
max_int = 0x7fff_ffff_ffff_ffff

-- `bits.Add64` and its carry.
unfoldable pub add_saturating : ℕ → ℕ → ℕ
add_saturating a b = if (a + b) / 2 ^ 64 == 0 then (a + b) % 2 ^ 64 else max_u64

-- The loop over the factors, with `bits.Mul64` and its high word.
unfoldable pub multiply_all : ℕ → List ℕ → ℕ
multiply_all total [] = total
multiply_all total (f ∷ fs) =
    let rest = multiply_all (total * f % 2 ^ 64) fs in
    if total * f / 2 ^ 64 == 0 then rest else max_u64

unfoldable pub kv_bytes_for_dims : ℕ → ℕ → ℕ → ℕ → ℕ → ℕ
kv_bytes_for_dims n_layers n_kv_heads head_dim ctx kv_bytes_per_elem =
    if ctx == 0
    then 0
    else multiply_all 2 (n_layers ∷ n_kv_heads ∷ head_dim ∷ ctx ∷ kv_bytes_per_elem ∷ [])

abbrev min : ℕ → ℕ → ℕ
min a b = if ltb b a then b else a

abbrev pub llama_server_seq_max : ℕ
llama_server_seq_max = 4

abbrev llama_server_u_batch : ℕ
llama_server_u_batch = 512

abbrev swa_cell_pad : ℕ
swa_cell_pad = 256

unfoldable pub swa_bound : ℕ → ℕ → ℕ
swa_bound ctx window =
    if leb window ((max_int - llama_server_u_batch) / llama_server_seq_max)
    then min ctx (window * llama_server_seq_max + llama_server_u_batch)
    else ctx

unfoldable pub swa_cells : ℕ → ℕ → ℕ
swa_cells ctx window =
    let bound = swa_bound ctx window in
    if ctx == 0
    then 0
    else if ltb (max_int - swa_cell_pad) bound
    then bound
    else (bound + swa_cell_pad - 1) / swa_cell_pad * swa_cell_pad

unfoldable pub swa_cache_bytes : Option SlidingWindow → ℕ → ℕ → ℕ
swa_cache_bytes none kv_bytes_per_elem ctx = 0
swa_cache_bytes (some s) kv_bytes_per_elem ctx =
    kv_bytes_for_dims s.n_layers s.n_kv_heads s.head_dim (swa_cells ctx s.window) kv_bytes_per_elem

-- `SWACtxCheckpoints` of internal/inference.
abbrev pub swa_ctx_checkpoints : ℕ
swa_ctx_checkpoints = 1

unfoldable pub swa_checkpoint_bytes : Option SlidingWindow → ℕ → ℕ → ℕ
swa_checkpoint_bytes none kv_bytes_per_elem ctx = 0
swa_checkpoint_bytes (some s) kv_bytes_per_elem ctx =
    let at_most = min ctx s.window in
    let one_slot = kv_bytes_for_dims s.n_layers s.n_kv_heads s.head_dim at_most kv_bytes_per_elem in
    let product = one_slot * (llama_server_seq_max * swa_ctx_checkpoints) in
    if product / 2 ^ 64 == 0 then product % 2 ^ 64 else max_u64

unfoldable pub kv_cache_bytes : Model → ℕ → ℕ
kv_cache_bytes m ctx =
    let global = kv_bytes_for_dims m.n_layers m.n_kv_heads m.head_dim ctx m.kv_bytes_per_elem in
    let sliding =
      add_saturating (swa_cache_bytes m.swa m.kv_bytes_per_elem ctx)
        (swa_checkpoint_bytes m.swa m.kv_bytes_per_elem ctx) in
    add_saturating global sliding

unfoldable pub draft_kv_cache_bytes : Draft → ℕ → ℕ
draft_kv_cache_bytes d ctx =
    kv_bytes_for_dims d.n_layers d.n_kv_heads d.head_dim ctx d.kv_bytes_per_elem
