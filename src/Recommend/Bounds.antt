-- ===== src/Recommend/Bounds.antt =====
-- internal/recommend/recommend.go: the terms of a recommendation of one model.
use villa_straylight.Base.{
  ◌≡◌, refl, ℕ, ◌+◌, ◌≤◌, ◌<◌, String, Bool, true, false, Option, none, some, List, [], ◌&&◌,
  is_some, arith, leb, leb→le, and-true, str_eq, Bool-cases, inl, inr, if◌then◌else◌,
}
use villa_straylight.Catalog.{Model, Sidecar, Draft}
use villa_straylight.Recommend.{Note, Overrides, Recommendation}
use villa_straylight.Recommend.Words.{max_u64, add_saturating, kv_cache_bytes, draft_kv_cache_bytes}
use villa_straylight.Recommend.Fit.{prompt_cache_bytes}
use villa_straylight.Recommend.Sidecars.{
  reserve_projector, draft_terms_for, Speculation, speculating, refusing, resolve_speculation,
  draft_weight, reserve_draft,
}
use villa_straylight.Recommend.Build.{base_total, build_recommendation}
use villa_straylight.Recommend.Exact.{add_saturating-exact}

-- The terms of a pick.
abbrev pub terms : Recommendation → ℕ
terms r =
    r.weight_bytes + r.kv_cache_bytes + r.headroom_bytes + r.prompt_cache_bytes + r.projector_bytes
    + r.draft_bytes + r.draft_kv_bytes

-- A pick that claims to fit an envelope: its total is the sum of its terms and no more than that.
pub record IsWithin (r : Recommendation) (envelope : ℕ) : Type 0 where
  pub exact : r.total_bytes ≡ terms r
  pub within : r.total_bytes ≤ envelope
  pub ceiling : r.usable_envelope_bytes ≡ envelope
  pub cache : r.prompt_cache_bytes ≡ prompt_cache_bytes

base_total-exact :
    (w kv h : ℕ) → base_total w kv h < max_u64 → base_total w kv h ≡ w + kv + h + prompt_cache_bytes
unfolding base_total
base_total-exact w kv h b = ground (
  arith,
  add_saturating-exact (add_saturating (add_saturating w kv) h) prompt_cache_bytes,
  add_saturating-exact (add_saturating w kv) h,
  add_saturating-exact w kv,
)

reserve_projector-exact :
    (o : Option Sidecar) (total envelope : ℕ)
    → envelope < max_u64
    → (reserve_projector o total envelope).total
      ≡ total + (reserve_projector o total envelope).bytes
unfolding reserve_projector
reserve_projector-exact none total envelope small = omega arith
reserve_projector-exact (some p) total envelope small =
    ground (arith, add_saturating-exact total p.weight_bytes)

-- The ladder of modes, its tests as Booleans, where no draft is qualified.
ladder-draft :
    (m : Model) (requested : String) (ngram unset is_off is_ngram is_draft : Bool)
    → let s : Speculation =
        if unset
        then (if ngram then speculating m "ngram" else speculating m "off")
        else if is_off
        then record { mode = "off"; notes = []; honoured = true }
        else if is_ngram
        then (if ngram then speculating m "ngram" else refusing m.id)
        else if is_draft
        then refusing m.id
        else refusing requested in
      str_eq s.mode "draft" ≡ true → false ≡ true
ladder-draft m requested true true is_off is_ngram is_draft h = h
ladder-draft m requested false true is_off is_ngram is_draft h = h
ladder-draft m requested ngram false true is_ngram is_draft h = h
ladder-draft m requested true false false true is_draft h = h
ladder-draft m requested false false false true is_draft h = h
ladder-draft m requested ngram false false false true h = h
ladder-draft m requested ngram false false false false h = h

-- The mode is `draft` only for a draft that fits.
resolve_speculation-draft :
    (m : Model) (requested : String) (fits : Bool)
    → str_eq (resolve_speculation m requested fits).mode "draft" ≡ true
    → (is_some m.draft && fits) ≡ true
unfolding resolve_speculation
resolve_speculation-draft m requested fits = elim (Bool-cases (is_some m.draft && fits)) [
  | inl e ↦ λ h. e
  | inr e ↦ rw (e) (ladder-draft m requested m.ngram_safe _ _ _ _)
]

draft_terms-exact :
    (o : Option Draft) (ctx total envelope : ℕ)
    → envelope < max_u64
    → (draft_terms_for o ctx total envelope).fits ≡ true
    → (draft_terms_for o ctx total envelope).needed
      ≡ total + draft_weight o + (draft_terms_for o ctx total envelope).kv
unfolding draft_terms_for
draft_terms-exact none ctx total envelope small h = absurd (ground (arith, h))
draft_terms-exact (some d) ctx total envelope small h = ground (
  arith,
  add_saturating-exact d.weight_bytes (draft_kv_cache_bytes d ctx),
  add_saturating-exact total (add_saturating d.weight_bytes (draft_kv_cache_bytes d ctx)),
)

reserve_draft-exact :
    (m : Model) (ov : Overrides) (ctx total envelope : ℕ)
    → envelope < max_u64
    → let d = reserve_draft m ov ctx total envelope in d.total ≡ total + d.bytes + d.kv
unfolding reserve_draft
reserve_draft-exact m ov ctx total envelope small =
    let t = draft_terms_for m.draft ctx total envelope in
    elim (Bool-cases (str_eq (resolve_speculation m ov.speculation t.fits).mode "draft")) [
      | inl e ↦ rw (e) (
          draft_terms-exact m.draft ctx total envelope small
            (and-true (is_some m.draft) t.fits (resolve_speculation-draft m _ t.fits e)).1)
      | inr e ↦ rw (e) (omega arith)
    ]

pub build-IsWithin :
    (m : Model) (ov : Overrides) (ctx envelope headroom : ℕ) (degraded : Bool) (notes : List Note)
    → envelope < max_u64
    → (build_recommendation m ov ctx envelope headroom degraded notes).fits ≡ true
    → IsWithin (build_recommendation m ov ctx envelope headroom degraded notes) envelope
unfolding build_recommendation
build-IsWithin m ov ctx envelope headroom degraded notes small f =
    let kv = kv_cache_bytes m ctx in
    let total = base_total m.weight_bytes kv headroom in
    let proj = reserve_projector m.projector total envelope in
    let draft = reserve_draft m ov ctx proj.total envelope in
    let fits : draft.total ≤ envelope =
      leb→le draft.total envelope (and-true (leb draft.total envelope) draft.honoured f).0 in
    let d = reserve_draft-exact m ov ctx proj.total envelope small in
    let p = reserve_projector-exact m.projector total envelope small in
    record {
      exact = omega (arith, d, p, base_total-exact m.weight_bytes kv headroom);
      within = fits;
      ceiling = refl;
      cache = refl;
    }
