-- ===== src/Recommend/Pick.antt =====
-- internal/recommend/recommend.go, `Pick`, and internal/recommend/envelope.go.
use villa_straylight.Base.{
  ℕ, ◌-◌, String, Bool, true, false, not, ◌&&◌, ◌||◌, Option, none, some, List, [], ◌∷◌, ◌++◌,
  is_some, leb, ltb, ◌==◌, str_eq, if◌then◌else◌,
}
use villa_straylight.Catalog.{Model, find_by_id}
use villa_straylight.Recommend.{
  RocmAdvice, withheld, worth_trying, verify_bench, Note, no_envelope, degraded_estimate,
  no_model_fits, override_unknown, override_unsafe, override_coder, override_quant, quant_ignored,
  override_unfit, Reservation, Alternative, Overrides, CoderFit, Recommendation, HostProfile,
  Fractions,
}
use villa_straylight.Recommend.Reserve.{reserved_bytes}
use villa_straylight.Recommend.Fit.{effective_ctx, select_best, alternatives_excluding}
use villa_straylight.Recommend.Build.{shared_coder_fit, refusal, build_recommendation}
use villa_straylight.Recommend.Coder.{pick_coder}

unfoldable pub is_rocm_family : String → Bool
is_rocm_family name =
    str_eq name ""
    || str_eq name "rocm"
    || str_eq name "rocm-10.0"
    || str_eq name "rocm-7.2.4"
    || str_eq name "rocm-6.4.4"
    || str_eq name "rocm-6.4.4-rocwmma"

-- The loop of `deriveROCmAdvice`: whether a signal is unknown, and the first that is known and bad.
unfoldable pub fold_signals : List (String × Option Bool) → Bool × Option String
fold_signals [] = (false, none)
fold_signals ((name, none) ∷ ss) = (true, (fold_signals ss).1)
fold_signals ((name, some true) ∷ ss) = fold_signals ss
fold_signals ((name, some false) ∷ ss) = ((fold_signals ss).0, some name)

unfoldable pub advice_of : Bool × Option String → RocmAdvice × Option String
advice_of (true, blocker) = (verify_bench, none)
advice_of (false, none) = (worth_trying, none)
advice_of (false, some name) = (withheld, some name)

unfoldable pub derive_rocm_advice : List (String × Option Bool) → RocmAdvice × Option String
derive_rocm_advice signals = advice_of (fold_signals signals)

unfoldable pub is_withheld : RocmAdvice → Bool
is_withheld withheld = true
is_withheld _ = false

-- The last reservation of a name, as the loop of `finalizeRecommendation` leaves it.
unfoldable pub last_named : String → Option ℕ → List Reservation → Option ℕ
last_named name found [] = found
last_named name found (r ∷ rs) =
    last_named name (if str_eq r.name name then some r.bytes else found) rs

abbrev or_zero : Option ℕ → ℕ
or_zero none = 0
or_zero (some n) = n

unfoldable pub finalize :
    Recommendation → HostProfile → List Reservation → CoderFit → Recommendation
finalize rec p res coder =
    let advice = derive_rocm_advice p.rocm_signals in
    record rec {
      reservations = res;
      embedding_reservation_bytes = or_zero (last_named "embedding" none res);
      memory_considered = is_some (last_named "embedding" none res);
      web_search_reservation_bytes = or_zero (last_named "web_search" none res);
      coder = coder;
      rocm_advice = advice.0;
      rocm_note = advice.1;
      backend =
          if is_withheld advice.0 && is_rocm_family rec.backend then "vulkan" else rec.backend;
    }

abbrev note_if : Bool → Note → List Note
note_if b n = if b then n ∷ [] else []

abbrev all_notes : List Reservation → List Note
all_notes [] = []
all_notes (r ∷ rs) = r.notes ++ all_notes rs

-- What the reservations leave of an envelope.
unfoldable pub left_of : ℕ → ℕ → ℕ
left_of envelope total = if leb envelope total then 0 else envelope - total

module _ (fr : Fractions) where
  abbrev floor_of : Option ℕ → Option ℕ
  floor_of none = none
  floor_of (some ram) =
      let floor = fr.ram_floor ram in if ram == 0 || floor == 0 then none else some floor

  -- `resolveEnvelope`: the envelope and whether it is an estimate.
  unfoldable pub resolve_envelope : Option ℕ → Option ℕ → Option (ℕ × Bool)
  resolve_envelope known ram =
      let floor : Option (ℕ × Bool) = elim (floor_of ram) [
        | none ↦ none
        | some f ↦ some (f, true)
      ] in
      elim known [ none ↦ floor | some e ↦ if e == 0 then floor else some (e, false) ]

  -- `pickBest`, after `selectBest`.
  unfoldable pub best_of :
      Option (Model × ℕ) → List Alternative → Overrides → ℕ → Bool → List Note → Recommendation
  best_of none alts ov envelope degraded notes =
      refusal envelope degraded (notes ++ no_model_fits envelope ∷ [])
  best_of (some (best, _)) alts ov envelope degraded notes =
      let ctx = effective_ctx best ov in
      let headroom = fr.headroom_bytes envelope in
      let rec = build_recommendation best ov ctx envelope headroom degraded notes in
      let ignored = not (str_eq ov.quant "") && not (str_eq ov.quant best.quant) in
      record rec {
        alternatives = alternatives_excluding alts best.id ctx;
        notes = if ignored then rec.notes ++ quant_ignored ov.quant best.id ∷ [] else rec.notes;
      }

  unfoldable pub pick_best : List Model → Overrides → ℕ → Bool → List Note → Recommendation
  pick_best models ov envelope degraded notes =
      let chosen = select_best models ov envelope (fr.headroom_bytes envelope) in
      best_of chosen.0 chosen.1 ov envelope degraded notes

  -- `pickOverride`, after the lookup.
  unfoldable pub override_of : Option Model → Overrides → ℕ → Bool → List Note → Recommendation
  override_of none ov envelope degraded notes =
      refusal envelope degraded (notes ++ override_unknown ov.model ∷ [])
  override_of (some m) ov envelope degraded notes =
      let notes' =
        notes
        ++ (note_if (not m.unified_memory_safe) (override_unsafe m.id)
            ++ (note_if (str_eq m.role "coder") (override_coder m.id)
                ++ note_if (not (str_eq ov.quant "") && not (str_eq ov.quant m.quant))
                    (override_quant ov.quant m.quant))) in
      let headroom = fr.headroom_bytes envelope in
      let rec = build_recommendation m ov (effective_ctx m ov) envelope headroom degraded notes' in
      record rec {
        quant = if str_eq ov.quant "" then rec.quant else ov.quant;
        notes =
            rec.notes
            ++ note_if (ltb envelope rec.total_bytes) (override_unfit rec.total_bytes envelope);
      }

  unfoldable pub pick_override : List Model → Overrides → ℕ → Bool → List Note → Recommendation
  pick_override models ov envelope degraded notes =
      override_of (find_by_id models ov.model) ov envelope degraded notes

  -- `Pick`, after `resolveEnvelope`.
  unfoldable pub pick_in :
      Option (ℕ × Bool) → HostProfile → List Model → Overrides → List Reservation → Recommendation
  pick_in none p models ov res =
      finalize (refusal 0 false (all_notes res ++ no_envelope ∷ [])) p res shared_coder_fit
  pick_in (some (whole, degraded)) p models ov res =
      let envelope = left_of whole (reserved_bytes res) in
      let notes = all_notes res ++ note_if degraded degraded_estimate in
      let coder = pick_coder models envelope (fr.headroom_bytes envelope) in
      if not (str_eq ov.model "")
      then finalize (pick_override models ov envelope degraded notes) p res coder
      else finalize (pick_best models ov envelope degraded notes) p res coder

  unfoldable pub pick : HostProfile → List Model → Overrides → List Reservation → Recommendation
  pick p models ov res =
      pick_in (resolve_envelope p.usable_envelope_bytes p.total_ram_bytes) p models ov res
