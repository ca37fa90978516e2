-- ===== src/Recommend/Sidecars.antt =====
-- internal/recommend/recommend.go: what a projector and a draft add to the size of an entry.
use villa_straylight.Base.{
  ℕ, String, Bool, true, false, not, ◌&&◌, ◌||◌, Option, none, some, List, [], ◌∷◌, ◌++◌, is_some,
  leb, ltb, str_eq, if◌then◌else◌,
}
use villa_straylight.Catalog.{Model, Sidecar, Draft}
use villa_straylight.Recommend.{
  Note, projector_dropped, draft_dropped, speculates, spec_refused, Overrides,
}
use villa_straylight.Recommend.Words.{add_saturating, draft_kv_cache_bytes}

pub record ProjectorFit : Type 0 where
  pub total : ℕ
  pub bytes : ℕ
  pub vision : Bool
  pub notes : List Note

unfoldable pub reserve_projector : Option Sidecar → ℕ → ℕ → ProjectorFit
reserve_projector none total envelope = record {
  total = total;
  bytes = 0;
  vision = false;
  notes = [];
}
reserve_projector (some p) total envelope =
    let with_proj = add_saturating total p.weight_bytes in
    if ltb envelope with_proj
    then record {
      total = total;
      bytes = 0;
      vision = false;
      notes = projector_dropped p.weight_bytes with_proj envelope ∷ [];
    }
    else record { total = with_proj; bytes = p.weight_bytes; vision = true; notes = [] }

pub record DraftTerms : Type 0 where
  pub kv : ℕ
  pub reserve : ℕ
  pub needed : ℕ
  pub fits : Bool

unfoldable pub draft_terms_for : Option Draft → ℕ → ℕ → ℕ → DraftTerms
draft_terms_for none ctx total envelope = record { kv = 0; reserve = 0; needed = 0; fits = false }
draft_terms_for (some d) ctx total envelope =
    let kv = draft_kv_cache_bytes d ctx in
    let reserve = add_saturating d.weight_bytes kv in
    let needed = add_saturating total reserve in
    record { kv = kv; reserve = reserve; needed = needed; fits = leb needed envelope }

-- `ResolveSpeculation`: the mode, its note, and whether it is what was asked for.
pub record Speculation : Type 0 where
  pub mode : String
  pub notes : List Note
  pub honoured : Bool

abbrev pub speculating : Model → String → Speculation
speculating m mode = record { mode = mode; notes = speculates m.id mode ∷ []; honoured = true }

abbrev pub refusing : String → Speculation
refusing name = record { mode = "off"; notes = spec_refused name ∷ []; honoured = false }

unfoldable pub resolve_speculation : Model → String → Bool → Speculation
resolve_speculation m requested draft_fits =
    let qualified = is_some m.draft && draft_fits in
    if str_eq requested ""
    then (if qualified
        then speculating m "draft"
        else if m.ngram_safe
        then speculating m "ngram"
        else speculating m "off")
    else if str_eq requested "off"
    then record { mode = "off"; notes = []; honoured = true }
    else if str_eq requested "ngram"
    then (if m.ngram_safe then speculating m "ngram" else refusing m.id)
    else if str_eq requested "draft"
    then (if qualified then speculating m "draft" else refusing m.id)
    else refusing requested

pub record DraftFit : Type 0 where
  pub total : ℕ
  pub bytes : ℕ
  pub kv : ℕ
  pub spec : String
  pub honoured : Bool
  pub notes : List Note

unfoldable pub is_draft_dropped : Model → Overrides → DraftTerms → Bool
is_draft_dropped m ov t =
    is_some m.draft && not t.fits && (str_eq ov.speculation "" || str_eq ov.speculation "draft")

abbrev pub draft_weight : Option Draft → ℕ
draft_weight none = 0
draft_weight (some d) = d.weight_bytes

unfoldable pub reserve_draft : Model → Overrides → ℕ → ℕ → ℕ → DraftFit
reserve_draft m ov ctx total envelope =
    let t = draft_terms_for m.draft ctx total envelope in
    let s = resolve_speculation m ov.speculation t.fits in
    if str_eq s.mode "draft"
    then record {
      total = t.needed;
      bytes = draft_weight m.draft;
      kv = t.kv;
      spec = s.mode;
      honoured = s.honoured;
      notes = s.notes;
    }
    else record {
      total = total;
      bytes = 0;
      kv = 0;
      spec = s.mode;
      honoured = s.honoured;
      notes =
          (if is_draft_dropped m ov t then draft_dropped t.reserve t.needed s.mode ∷ [] else [])
          ++ s.notes;
    }
