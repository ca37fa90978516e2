-- ===== src/Recommend/Best.antt =====
-- internal/recommend/recommend.go, `selectBest`: the heaviest model that fits is chosen.
use villa_straylight.Base.{
  if_both, ◌≡◌, refl, ℕ, ◌+◌, ◌^◌, ◌≤◌, ◌<◌, true, Option, none, some, List, [], ◌∷◌, arith, All,
  Among, All-Among, Bool-cases, inl, inr,
}
use villa_straylight.Catalog.{Model}
use villa_straylight.Recommend.{Overrides}
use villa_straylight.Recommend.Words.{kv_cache_bytes}
use villa_straylight.Recommend.Fit.{
  prompt_cache_bytes, effective_ctx, auto_eligible, meets_envelope_floor, chat_total, chat_fit,
  outranks, next_best, best_from, select_best,
}

module _ (ov : Overrides) (envelope headroom : ℕ) where
  -- The memory that a model needs, as a natural number.
  abbrev pub need : Model → ℕ
  need m = m.weight_bytes + kv_cache_bytes m (effective_ctx m ov) + headroom + prompt_cache_bytes

  -- The model may be selected, and what it needs is at most the envelope.
  abbrev pub Suits : Model → Type 0
  Suits m =
      (auto_eligible m ≡ true) × (meets_envelope_floor m envelope ≡ true) × (need m ≤ envelope)

  chat_total-need : (m : Model) → need m < 2 ^ 64 → chat_total m ov headroom ≡ need m
  unfolding chat_total
  chat_total-need m h = omega arith

  chat_fit-Suits :
      (m : Model) (ctx total : ℕ)
      → need m < 2 ^ 64
      → chat_fit m ov envelope headroom ≡ some (ctx, total)
      → Suits m × (total ≡ need m)
  unfolding chat_fit
  chat_fit-Suits m ctx total small e = ground (arith, chat_total-need m small, e)

  chat_fit-misfit :
      (m : Model) → need m < 2 ^ 64 → chat_fit m ov envelope headroom ≡ none → ¬ Suits m
  unfolding chat_fit
  chat_fit-misfit m small e s = ground (arith, chat_total-need m small, e)

  -- A choice of at least the given weight.
  abbrev AtLeast : ℕ → Option (Model × ℕ) → Type 0
  AtLeast w none = ⊥
  AtLeast w (some (b, t)) = w ≤ b.weight_bytes

  next_best-keeps :
      (w : ℕ) (m : Model) (fit : Option (ℕ × ℕ)) (best : Option (Model × ℕ))
      → AtLeast w best
      → AtLeast w (next_best m fit best)
  unfolding next_best outranks
  next_best-keeps w m none best h = h
  next_best-keeps w m (some (ctx, total)) none h = absurd h
  next_best-keeps w m (some (ctx, total)) (some (b, t)) h =
      elim (Bool-cases (outranks m total (some (b, t)))) [
        | inl e ↦ rw (e) (ground (arith, e, h))
        | inr e ↦ rw (e) h
      ]

  next_best-takes :
      (m : Model) (ctx total : ℕ) (best : Option (Model × ℕ))
      → AtLeast m.weight_bytes (next_best m (some (ctx, total)) best)
  unfolding next_best outranks
  next_best-takes m ctx total none = omega arith
  next_best-takes m ctx total (some (b, t)) = elim (Bool-cases (outranks m total (some (b, t)))) [
    | inl e ↦ rw (e) (omega arith)
    | inr e ↦ rw (e) (ground (arith, e))
  ]

  best_from-keeps :
      (w : ℕ) (best : Option (Model × ℕ)) (ms : List Model)
      → AtLeast w best
      → AtLeast w (best_from ov envelope headroom best ms)
  unfolding best_from
  best_from-keeps w best [] h = h
  best_from-keeps w best (m ∷ ms) h =
      best_from-keeps w (next_best m (chat_fit m ov envelope headroom) best) ms
        (next_best-keeps w m (chat_fit m ov envelope headroom) best h)

  taken :
      (m : Model) (best : Option (Model × ℕ)) (fit : Option (ℕ × ℕ))
      → chat_fit m ov envelope headroom ≡ fit
      → need m < 2 ^ 64
      → Suits m
      → AtLeast m.weight_bytes (next_best m fit best)
  taken m best none e small s = absurd (chat_fit-misfit m small e s)
  taken m best (some (ctx, total)) e small s = next_best-takes m ctx total best

  best_from-heaviest :
      (best : Option (Model × ℕ)) (ms : List Model)
      → All (λ m. need m < 2 ^ 64) ms
      → All (λ m. Suits m → AtLeast m.weight_bytes (best_from ov envelope headroom best ms)) ms
  unfolding best_from
  best_from-heaviest best [] small = tt
  best_from-heaviest best (m ∷ ms) small =
      let next = next_best m (chat_fit m ov envelope headroom) best in
      (
        λ s.
            best_from-keeps m.weight_bytes next ms
              (taken m best (chat_fit m ov envelope headroom) refl small.0 s),
        best_from-heaviest next ms small.1,
      )

  -- A choice, if there is one, is a model of the list that suits, with what it needs.
  abbrev Chosen : List Model → Option (Model × ℕ) → Type 0
  Chosen models none = Unit
  Chosen models (some (b, t)) = Among b models × Suits b × (t ≡ need b)

  next_best-Chosen :
      (models : List Model) (m : Model) (fit : Option (ℕ × ℕ)) (best : Option (Model × ℕ))
      → chat_fit m ov envelope headroom ≡ fit
      → need m < 2 ^ 64
      → Among m models
      → Chosen models best
      → Chosen models (next_best m fit best)
  unfolding next_best
  next_best-Chosen models m none best e small a h = h
  next_best-Chosen models m (some (ctx, total)) best e small a h =
      let fits = chat_fit-Suits m ctx total small e in
      if_both (Chosen models) (outranks m total best) (a, fits.0, fits.1) h

  best_from-Chosen :
      (models : List Model) (best : Option (Model × ℕ)) (ms : List Model)
      → All (λ m. need m < 2 ^ 64) ms
      → All (λ m. Among m models) ms
      → Chosen models best
      → Chosen models (best_from ov envelope headroom best ms)
  unfolding best_from
  best_from-Chosen models best [] small a h = h
  best_from-Chosen models best (m ∷ ms) small a h =
      best_from-Chosen models (next_best m (chat_fit m ov envelope headroom) best) ms small.1 a.1
        (next_best-Chosen models m (chat_fit m ov envelope headroom) best refl small.0 a.0 h)

  -- The best choice: a model of the list that suits and of which none that suits is heavier, with
  -- what it needs; or none, where no model suits.
  abbrev pub IsBest : List Model → Option (Model × ℕ) → Type 0
  IsBest models none = All (λ m. ¬ Suits m) models
  IsBest models (some (b, t)) =
      Among b models
      × Suits b
      × (t ≡ need b)
      × All (λ m. Suits m → m.weight_bytes ≤ b.weight_bytes) models

  join :
      (models : List Model) (o : Option (Model × ℕ))
      → Chosen models o
      → All (λ m. Suits m → AtLeast m.weight_bytes o) models
      → IsBest models o
  join models none h k = k
  join models (some (b, t)) h k = (h.0, h.1, h.2, k)

  -- Where what each model needs is below 2 ^ 64, the model that is selected from a catalog is one
  -- of its models that is eligible and fits the envelope, no such model is heavier, and its total is
  -- what it needs; and none is selected only if there is no such model.
  pub select_best-IsBest :
      (models : List Model)
      → All (λ m. need m < 2 ^ 64) models
      → IsBest models (select_best models ov envelope headroom).0
  unfolding select_best
  select_best-IsBest models small =
      join models _ (best_from-Chosen models none models small (All-Among models) tt)
        (best_from-heaviest none models small)
