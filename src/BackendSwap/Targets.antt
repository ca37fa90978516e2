-- ===== src/BackendSwap/Targets.antt =====
-- internal/backendswap/backendswap.go: what a switch of each verb has checked and reached.
use villa_straylight.Base.{
  if_cases, ◌≡◌, refl, String, Bool, true, false, not, ◌&&◌, Option, str_eq,
}
use villa_straylight.Config.{VillaConfig}
use villa_straylight.Subsystem.{coding_mode_on, tools_on, on}
use villa_straylight.StackApply.{Outcome}
use villa_straylight.StackApply.Changes.{Sound, SwitchTo, switch-to}
use villa_straylight.BackendSwap.{
  Labels, Deps, same_flag, tools_label, speculation_of, guarded, change_backend, change_speculation,
  change_tools, run_backend, run_speculation, run_tools,
}

module _ {R W : Type 0} where
  guarded-Sound :
      (P : VillaConfig → W → Type 0) (cfg : VillaConfig) (r : R) (x : (Bool × String) × W)
      (rest : W → (VillaConfig × Option Outcome) × R × W)
      → (x.0.0 ≡ true → Sound P (rest x.1))
      → Sound P (guarded cfg r x rest)
  unfolding guarded
  guarded-Sound P cfg r ((false, reason), w) rest h = refl
  guarded-Sound P cfg r ((true, reason), w) rest h = h refl

tools_reached :
    (b : Bool) (prior : VillaConfig)
    → (not b && coding_mode_on prior) ≡ false
    → tools_on (record prior { tools_mode = b }) ≡ b
unfolding tools_on coding_mode_on on
tools_reached true prior h = refl
tools_reached false prior h = h

module _ {Lock W : Type 0} (d : Deps Lock W) where
  -- The target of `villa tools-mode`: the config with the flag set, whose tools gate answers it and
  -- which the fit guard has accepted.
  pub record IsToolsTarget (b : Bool) (prior : VillaConfig) (w : W) (next : VillaConfig)
      : Type 0 where
    pub only_flag : next ≡ record prior { tools_mode = b }
    pub reaches : tools_on next ≡ b
    pub changes : same_flag (tools_on prior) b ≡ false
    pub fit : (d.fits_model next w).0.0 ≡ true

  change_tools-Sound :
      (b : Bool) (prior : VillaConfig) (r : Labels) (w : W)
      → Sound (λ next v. IsToolsTarget b prior w next) (change_tools d b prior r w)
  unfolding change_tools
  change_tools-Sound b prior r w =
      let P : VillaConfig → W → Type 0 = λ next v. IsToolsTarget b prior w next in
      if_cases (Sound P) (same_flag (tools_on prior) b) (λ e. refl)
        (λ changes.
          if_cases (Sound P) (not b && coding_mode_on prior) (λ e. refl)
            (λ free.
              guarded-Sound P (record prior { tools_mode = b }) _ _ _
                (λ fit. record {
                  only_flag = refl;
                  reaches = tools_reached b prior free;
                  changes = changes;
                  fit = fit;
                })))

  -- The target of `villa backend set`.
  pub record IsBackendTarget (target : String) (prior : VillaConfig) (w : W) (next : VillaConfig)
      : Type 0 where
    pub only_backend : next ≡ record prior { backend = target }
    pub changes : str_eq prior.backend target ≡ false
    pub fit : (d.fits_model prior w).0.0 ≡ true
    -- The preflight has seen the target.
    pub preflight : (d.preflight_rocm next (d.fits_model prior w).1).0.0 ≡ true

  change_backend-Sound :
      (target : String) (prior : VillaConfig) (r : Labels) (w : W)
      → Sound (λ next v. IsBackendTarget target prior w next) (change_backend d target prior r w)
  unfolding change_backend
  change_backend-Sound target prior r w =
      let P : VillaConfig → W → Type 0 = λ next v. IsBackendTarget target prior w next in
      if_cases (Sound P) (str_eq prior.backend target) (λ e. refl)
        (λ changes. guarded-Sound P prior _ _ _ (λ fit. guarded-Sound P prior _ _ _ (λ preflight.
          record { only_backend = refl; changes = changes; fit = fit; preflight = preflight })))

  -- The target of `villa speculation set`.
  pub record IsSpeculationTarget (target : String) (prior : VillaConfig) (w : W)
      (next : VillaConfig) : Type 0 where
    pub only_mode : next ≡ record prior { speculation = target }
    pub changes : str_eq (speculation_of prior) target ≡ false
    pub fit : (d.fits_model next w).0.0 ≡ true

  change_speculation-Sound :
      (target : String) (prior : VillaConfig) (r : Labels) (w : W)
      → Sound
          (λ next v. IsSpeculationTarget target prior w next)
          (change_speculation d target prior r w)
  unfolding change_speculation
  change_speculation-Sound target prior r w =
      let P : VillaConfig → W → Type 0 = λ next v. IsSpeculationTarget target prior w next in
      if_cases (Sound P) (str_eq (speculation_of prior) target) (λ e. refl)
        (λ changes.
          guarded-Sound P (record prior { speculation = target }) _ _ _
            (λ fit. record { only_mode = refl; changes = changes; fit = fit }))

  -- `villa backend set` reports a switch only where the frame has cut over to the config that it
  -- read with the backend replaced, the target is another backend, the model in the config fits, and
  -- the ROCm preflight has accepted the target's config.
  pub run_backend-target :
      (target : String) (w : W)
      → (run_backend d target w).0.switched ≡ true
      → SwitchTo d.tx
          (change_backend d target)
          (IsBackendTarget target)
          (record { from = ""; to = target })
          w
          (run_backend d target w)
  unfolding run_backend
  run_backend-target target w h =
      switch-to d.tx (change_backend d target) (IsBackendTarget target)
        (change_backend-Sound target) _ w h

  -- `villa speculation set` reports a switch only where the frame has cut over to the config that
  -- it read with the mode replaced, the target is not the mode in force, and the fit guard has
  -- accepted the target.
  pub run_speculation-target :
      (target : String) (w : W)
      → (run_speculation d target w).0.switched ≡ true
      → SwitchTo d.tx
          (change_speculation d target)
          (IsSpeculationTarget target)
          (record { from = ""; to = target })
          w
          (run_speculation d target w)
  unfolding run_speculation
  run_speculation-target target w h =
      switch-to d.tx (change_speculation d target) (IsSpeculationTarget target)
        (change_speculation-Sound target) _ w h

  -- `villa tools-mode` reports a switch only where the frame has cut over to the config that it
  -- read with the flag set, the tools gate of that config answers the flag and that of the config
  -- read does not, and the fit guard has accepted the target.
  pub run_tools-target :
      (b : Bool) (w : W)
      → (run_tools d b w).0.switched ≡ true
      → SwitchTo d.tx
          (change_tools d b)
          (IsToolsTarget b)
          (record { from = ""; to = tools_label b })
          w
          (run_tools d b w)
  unfolding run_tools
  run_tools-target b w h =
      switch-to d.tx (change_tools d b) (IsToolsTarget b) (change_tools-Sound b) _ w h
