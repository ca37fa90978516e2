-- ===== src/ModelSwap/Targets.antt =====
-- internal/modelswap/modelswap.go: the ctx rule, and what a swap has checked and written.
use villa_straylight.Base.{
  if_cases, ◌≡◌, refl, sym, ◌∙◌, ap, subst, ℕ, ◌≤◌, ◌<◌, String, Bool, true, false, not, ◌||◌,
  Option, none, some, arith, inl, inr, ◌⊎◌, leb,
}
use villa_straylight.Config.{VillaConfig}
use villa_straylight.StackApply.{Error}
use villa_straylight.StackApply.Changes.{Sound, SwitchTo, switch-to}
use villa_straylight.ModelSwap.{
  CatalogModel, Fit, Deps, Details, start_details, size, target_config, write_sized, after_pull,
  pull_absent, change_resolved, change_model, run,
}

-- The answer is the guard's at the config returned, which has the configured ctx or the default; the
-- default is lower and is taken just where the target is over the envelope above it.
pub record IsSized (m : CatalogModel) (cfg : VillaConfig) (fits : CatalogModel → VillaConfig → Fit)
    (x : Fit × VillaConfig) : Type 0 where
  pub is_answer : x.0 ≡ fits m x.1
  pub rule :
      (x.1 ≡ cfg)
        × (((fits m cfg).fits ≡ true)
            ⊎ ((fits m cfg).over_envelope ≡ false)
            ⊎ (cfg.ctx ≤ m.default_ctx))
      ⊎ (x.1 ≡ record cfg { ctx = m.default_ctx })
        × ((fits m cfg).fits ≡ false)
        × ((fits m cfg).over_envelope ≡ true)
        × (m.default_ctx < cfg.ctx)

module _ (m : CatalogModel) (cfg : VillaConfig) (fits : CatalogModel → VillaConfig → Fit) where
  accepts :
      (a b : Bool) (n k : ℕ) → (a || not b || leb n k) ≡ true → (a ≡ true) ⊎ (b ≡ false) ⊎ (n ≤ k)
  accepts a b n k h = ground arith

  retries :
      (a b : Bool) (n k : ℕ) → (a || not b || leb n k) ≡ false → (a ≡ false) × (b ≡ true) × (k < n)
  retries a b n k h = ground arith

  -- The ctx rule sizes the target at the configured ctx, and at the default ctx just where it is
  -- over the envelope there and the default is lower; it returns the guard's answer at the config
  -- that it returns, which differs from the one given in the ctx at most.
  size-IsSized : IsSized m cfg fits (size m cfg fits)
  unfolding size
  size-IsSized =
      let fit = fits m cfg in
      if_cases (IsSized m cfg fits) (fit.fits || not fit.over_envelope || leb cfg.ctx m.default_ctx)
        (λ e. record {
          is_answer = refl;
          rule = inl (refl, accepts fit.fits fit.over_envelope cfg.ctx m.default_ctx e);
        })
        (λ e. record {
          is_answer = refl;
          rule =
              let (unfit, over, above) =
                retries fit.fits fit.over_envelope cfg.ctx m.default_ctx e in
              inr (refl, unfit, over, above);
        })

module _ {Lock W : Type 0} (d : Deps Lock W) where
  -- The target of `villa model swap name`.
  pub record IsModelTarget (name : String) (prior : VillaConfig) (w : W) (next : VillaConfig)
      : Type 0 where
    pub entry : CatalogModel
    pub sized : VillaConfig
    pub resolves : d.resolve_catalog name ≡ some entry
    pub is_sized : IsSized entry (target_config entry prior) d.fits (d.fits entry sized, sized)
    pub fit : (d.fits entry sized).fits ≡ true
    pub written : next ≡ record sized { vision = (d.fits entry sized).vision }
    pub on_disk :
        ((d.is_downloaded entry w).0 ≡ true) ⊎ ((d.pull entry (d.is_downloaded entry w).1).0 ≡ none)

  module _ (name : String) (prior : VillaConfig) (w : W) (m : CatalogModel)
      (resolves : d.resolve_catalog name ≡ some m) (sized : VillaConfig)
      (is_sized : IsSized m (target_config m prior) d.fits (d.fits m sized, sized))
      (fit : (d.fits m sized).fits ≡ true) where
    after_pull-Sound :
        (r : Details) (x : Option Error × W)
        → x.0 ≡ (d.pull m (d.is_downloaded m w).1).0
        → Sound
            (λ next v. IsModelTarget name prior w next)
            (after_pull prior r (d.fits m sized) sized x)
    unfolding after_pull write_sized
    after_pull-Sound r (some e, v) h = refl
    after_pull-Sound r (none, v) h = record {
      entry = m;
      sized = sized;
      resolves = resolves;
      is_sized = is_sized;
      fit = fit;
      written = refl;
      on_disk = inr (sym h);
    }

    pull_absent-Sound :
        (r : Details) (x : Bool × W)
        → d.is_downloaded m w ≡ x
        → Sound
            (λ next v. IsModelTarget name prior w next)
            (pull_absent d prior r m (d.fits m sized) sized x)
    unfolding pull_absent write_sized
    pull_absent-Sound r (true, v) h = record {
      entry = m;
      sized = sized;
      resolves = resolves;
      is_sized = is_sized;
      fit = fit;
      written = refl;
      on_disk = inl (ap (λ x. x.0) h);
    }
    pull_absent-Sound r (false, v) h =
        after_pull-Sound r (d.pull m v) (ap (λ x. (d.pull m x.1).0) (sym h))

  change_resolved-Sound :
      (name : String) (prior : VillaConfig) (w : W) (o : Option CatalogModel) (r : Details)
      → d.resolve_catalog name ≡ o
      → Sound (λ next v. IsModelTarget name prior w next) (change_resolved d o prior r w)
  unfolding change_resolved
  change_resolved-Sound name prior w none r h = refl
  change_resolved-Sound name prior w (some m) r h =
      let x = size m (target_config m prior) d.fits in
      let P : VillaConfig → W → Type 0 = λ next v. IsModelTarget name prior w next in
      let s = size-IsSized m (target_config m prior) d.fits in
      let details : Details = record r { to_model = m.id } in
      let at_sized : IsSized m (target_config m prior) d.fits (d.fits m x.1, x.1) =
        subst (λ f. IsSized m (target_config m prior) d.fits (f, x.1)) s.is_answer s in
      if_cases (Sound P) x.0.fits
        (λ fit.
          subst (λ f. Sound P (pull_absent d prior details m f x.1 (d.is_downloaded m w)))
            (sym s.is_answer)
            (pull_absent-Sound name prior w m h x.1 at_sized
              (ap (λ f. f.fits) (sym s.is_answer) ∙ fit) details (d.is_downloaded m w) refl))
        (λ e. refl)

  change_model-Sound :
      (name : String) (prior : VillaConfig) (r : Details) (w : W)
      → Sound (λ next v. IsModelTarget name prior w next) (change_model d name prior r w)
  unfolding change_model
  change_model-Sound name prior r w =
      change_resolved-Sound name prior w (d.resolve_catalog name) _ refl

  -- `villa model swap` reports a switch only where the frame has cut over to the config of a catalog
  -- entry that the name resolves to, sized by the ctx rule, which the fit guard has accepted as it is
  -- written, less the vision answer, which is the guard's; the weights were on disk or have been
  -- pulled.
  pub run-IsModelTarget :
      (name : String) (w : W)
      → (run d name w).0.switched ≡ true
      → SwitchTo d.tx
          (change_model d name)
          (IsModelTarget name)
          (start_details name)
          w
          (run d name w)
  unfolding run
  run-IsModelTarget name w h =
      switch-to d.tx (change_model d name) (IsModelTarget name) (change_model-Sound name) _ w h
