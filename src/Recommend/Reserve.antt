-- ===== src/Recommend/Reserve.antt =====
-- internal/recommend/recommend.go: the memory that the services beside the chat model hold.
use villa_straylight.Base.{
  ℕ, ◌+◌, ◌*◌, ◌/◌, ◌%◌, ◌^◌, String, Bool, true, false, Option, none, some, List, [], ◌∷◌, ◌++◌,
  ltb, ◌==◌, str_eq, if◌then◌else◌,
}
use villa_straylight.Config.{VillaConfig}
use villa_straylight.Subsystem.{memory, web_search, voice, image, on, rerank_on, extract_on}
use villa_straylight.Catalog.{ImageModel, find_image}
use villa_straylight.Recommend.{
  Note, reserved_for_web, conservative_embedding, conservative_image, Reservation,
}
use villa_straylight.Recommend.Words.{add_saturating}

-- internal/memory/footprint.go: 512 MiB, for the one embedding model that has a footprint and for
-- a model that has none.
abbrev conservative_footprint_bytes : ℕ
conservative_footprint_bytes = 512 * 2 ^ 20

unfoldable pub footprint : String → Option ℕ
footprint model = if str_eq model "nomic-embed-text-v1.5" then some (512 * 2 ^ 20) else none

unfoldable pub memory_reservation : String → ℕ × List Note
memory_reservation model = elim (footprint model) [
  | some bytes ↦ (bytes, [])
  | none ↦ (conservative_footprint_bytes, conservative_embedding model ∷ [])
]

-- 24 GiB.
abbrev conservative_image_bytes : ℕ
conservative_image_bytes = 24 * 2 ^ 30

unfoldable pub image_reservation : List ImageModel → String → ℕ × List Note
image_reservation table id = elim (find_image table id) [
  | some m ↦ (add_saturating m.weight_bytes m.compute_bytes, [])
  | none ↦ (conservative_image_bytes, conservative_image id ∷ [])
]

pub record WebSearchInputs : Type 0 where
  pub result_count : ℕ
  pub top_k : ℕ
  pub chunk_size_chars : ℕ

-- A tuning value: its default where it is unset, and at most `most`.
unfoldable pub clamped : ℕ → ℕ → ℕ → ℕ
clamped given unset most =
    let v = if given == 0 then unset else given in if ltb most v then most else v

unfoldable pub web_search_reservation : WebSearchInputs → ℕ × List Note
web_search_reservation web =
    let top_k = clamped web.top_k 3 100 in
    let chunk_chars = clamped web.chunk_size_chars 1000 100000 in
    let result_count = clamped web.result_count 3 100 in
    let injected_chars = top_k * chunk_chars % 2 ^ 64 in
    let injected_tokens = injected_chars * 10 % 2 ^ 64 / 35 in
    let citation_tokens = result_count * 64 % 2 ^ 64 in
    let raw_tokens = (injected_tokens + citation_tokens) % 2 ^ 64 in
    let reserved = raw_tokens * 4096 % 2 ^ 64 * 15 % 2 ^ 64 / 10 in
    (reserved, reserved_for_web top_k chunk_chars result_count ∷ [])

abbrev row : String → ℕ × List Note → Reservation
row name r = record { name = name; bytes = r.0; notes = r.1 }

abbrev rows_if : Bool → List Reservation → List Reservation
rows_if true rows = rows
rows_if false rows = []

-- The footprints of internal/memory/footprint.go and internal/voice/footprint.go stand in place.
unfoldable pub reservations_for : List ImageModel → VillaConfig → List Reservation
reservations_for table cfg =
    let web : WebSearchInputs = record {
      result_count = cfg.web_search_result_count;
      top_k = 0;
      chunk_size_chars = 0;
    } in
    rows_if (on cfg memory) (row "embedding" (memory_reservation cfg.embedding_model) ∷ [])
    ++ (rows_if (rerank_on cfg) (row "reranker" (2 * 2 ^ 30, []) ∷ [])
        ++ (rows_if (extract_on cfg) (row "extractor" (2 * 2 ^ 30, []) ∷ [])
            ++ (rows_if (on cfg web_search) (row "web_search" (web_search_reservation web) ∷ [])
                ++ (rows_if (on cfg voice)
                      (row "stt" (5 * 2 ^ 29, []) ∷ row "tts" (2 * 2 ^ 30, []) ∷ [])
                    ++ rows_if (on cfg image)
                        (row "image" (image_reservation table cfg.image_model) ∷ [])))))

-- `ReservedBytes`, and the sum that `Pick` starts with.
unfoldable pub reserved_from : ℕ → List Reservation → ℕ
reserved_from total [] = total
reserved_from total (r ∷ rs) = reserved_from (add_saturating total r.bytes) rs

unfoldable pub reserved_bytes : List Reservation → ℕ
reserved_bytes = reserved_from 0
