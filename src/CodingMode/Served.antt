-- ===== src/CodingMode/Served.antt =====
-- internal/codingmode/codingmode.go: what villa-llama serves after a switch of coding mode.
use villa_straylight.Base.{
  if_cases, ◌≡◌, refl, sym, ap, String, Bool, true, false, Option, none, some, arith, inl, inr, ◌⊎◌,
  str_eq, if◌then◌else◌,
}
use villa_straylight.Config.{VillaConfig}
use villa_straylight.Subsystem.{coding_mode_on, on}
use villa_straylight.StackApply.{Error}
use villa_straylight.StackApply.Changes.{Sound, SwitchTo, switch-to}
use villa_straylight.CodingMode.{
  Direction, enter, exit, same_mode, residency_swap, CoderTarget, Deps, Labels, served_target,
  cleared, entered, swapped, after_pull, enter_resolved, change_other, change_mode, run,
}

module _ {Lock W : Type 0} (d : Deps Lock W) where
  -- What a switch has checked of its target and what the target serves.
  pub record IsEntered (prior : VillaConfig) (w : W) (next : VillaConfig) : Type 0 where
    pub target : CoderTarget
    pub resolved : (d.resolve_coder prior w).0.0 ≡ target
    pub fit : (d.resolve_coder prior w).0.1 ≡ true
    pub durable : next.model ≡ prior.model
    pub mode : coding_mode_on next ≡ true
    pub ctx : (served_target next).1 ≡ target.agent_ctx
    pub swap_serves :
        str_eq target.residency residency_swap ≡ true
        → str_eq target.model "" ≡ false
        → (served_target next).0 ≡ target.model
    pub shared_serves :
        str_eq target.residency residency_swap ≡ false
        → str_eq prior.coder_model "" ≡ true
        → (served_target next).0 ≡ prior.model
    pub on_disk :
        str_eq target.residency residency_swap ≡ true
        → (target.downloaded ≡ true) ⊎ ((d.pull target (d.resolve_coder prior w).1).0 ≡ none)

  pub record IsExited (prior : VillaConfig) (w : W) (next : VillaConfig) : Type 0 where
    pub mode : coding_mode_on next ≡ false
    pub serves : served_target next ≡ (prior.model, prior.ctx)
    pub no_coder : next.coder_model ≡ ""

  abbrev pub IsModeTarget : Direction → VillaConfig → W → VillaConfig → Type 0
  IsModeTarget enter = IsEntered
  IsModeTarget exit = IsExited

  entered-ctx :
      (cfg : VillaConfig) → coding_mode_on cfg ≡ true → (served_target cfg).1 ≡ cfg.coder_agent_ctx
  unfolding served_target
  entered-ctx cfg h = ground (arith, h)

  entered-model :
      (cfg : VillaConfig)
      → coding_mode_on cfg ≡ true
      → (served_target cfg).0 ≡ (if str_eq cfg.coder_model "" then cfg.model else cfg.coder_model)
  unfolding served_target
  entered-model cfg h = ground (arith, h)

  module _ (prior : VillaConfig) (w : W) (t : CoderTarget)
      (resolved : (d.resolve_coder prior w).0.0 ≡ t)
      (fit : (d.resolve_coder prior w).0.1 ≡ true) where
    swapped-IsEntered :
        str_eq t.residency residency_swap ≡ true
        → (t.downloaded ≡ true) ⊎ ((d.pull t (d.resolve_coder prior w).1).0 ≡ none)
        → IsEntered prior w (swapped prior t)
    unfolding coding_mode_on on
    swapped-IsEntered swaps disk = record {
      target = t;
      resolved = resolved;
      fit = fit;
      durable = refl;
      mode = refl;
      ctx = entered-ctx (swapped prior t) refl;
      swap_serves = λ s named. ground (arith, entered-model (swapped prior t) refl, named);
      shared_serves = λ s. absurd (ground (arith, s, swaps));
      on_disk = λ s. disk;
    }

    entered-IsEntered :
        str_eq t.residency residency_swap ≡ false → IsEntered prior w (entered prior t)
    unfolding coding_mode_on on
    entered-IsEntered shared = record {
      target = t;
      resolved = resolved;
      fit = fit;
      durable = refl;
      mode = refl;
      ctx = entered-ctx (entered prior t) refl;
      swap_serves = λ s. absurd (ground (arith, s, shared));
      shared_serves = λ s clear. ground (arith, entered-model (entered prior t) refl, clear);
      on_disk = λ s. absurd (ground (arith, s, shared));
    }

    after_pull-Sound :
        (r : Labels) (x : Option Error × W)
        → str_eq t.residency residency_swap ≡ true
        → x.0 ≡ (d.pull t (d.resolve_coder prior w).1).0
        → Sound (λ next v. IsEntered prior w next) (after_pull d prior t r x)
    unfolding after_pull
    after_pull-Sound r (some e, v) swaps h = refl
    after_pull-Sound r (none, v) swaps h = swapped-IsEntered swaps (inr (sym h))

  cleared-IsExited : (prior : VillaConfig) (w : W) → IsExited prior w (cleared prior)
  unfolding coding_mode_on on served_target
  cleared-IsExited prior w = record { mode = refl; serves = refl; no_coder = refl }

  enter_resolved-Sound :
      (prior : VillaConfig) (w : W) (r : Labels) (x : (CoderTarget × Bool × String) × W)
      → d.resolve_coder prior w ≡ x
      → Sound (λ next v. IsEntered prior w next) (enter_resolved d prior r x)
  unfolding enter_resolved
  enter_resolved-Sound prior w r ((t, false, reason), v) h = refl
  enter_resolved-Sound prior w r ((t, true, reason), v) h =
      let P : VillaConfig → W → Type 0 = λ next v. IsEntered prior w next in
      let resolved = ap (λ x. x.0.0) h in
      let fit = ap (λ x. x.0.1) h in
      if_cases (Sound P) (str_eq t.residency residency_swap)
        (λ swaps.
          if_cases (Sound P) t.downloaded
            (λ there. swapped-IsEntered prior w t resolved fit swaps (inl there))
            (λ absent.
              after_pull-Sound prior w t resolved fit _ (d.pull t v) swaps
                (ap (λ x. (d.pull t x.1).0) (sym h))))
        (λ shared. entered-IsEntered prior w t resolved fit shared)

  change_mode-Sound :
      (dir : Direction) (prior : VillaConfig) (r : Labels) (w : W)
      → Sound (λ next v. IsModeTarget dir prior w next) (change_mode d dir prior r w)
  unfolding change_mode change_other
  change_mode-Sound enter prior r w =
      if_cases (Sound (λ next v. IsModeTarget enter prior w next))
        (same_mode (coding_mode_on prior) enter) (λ e. refl)
        (λ e. enter_resolved-Sound prior w _ (d.resolve_coder prior w) refl)
  change_mode-Sound exit prior r w =
      if_cases (Sound (λ next v. IsModeTarget exit prior w next))
        (same_mode (coding_mode_on prior) exit) (λ e. refl) (λ e. cleared-IsExited prior w)

  -- `villa coding-mode` reports a switch only where the frame has cut over to a target for which
  -- this holds. On entering: the resolver accepted the coder, the chat model stays in the config,
  -- coding mode is on at the agent ctx, a swap serves the coder, whose weights were on disk or have
  -- been pulled, and a shared residency serves the chat model where the config read named no coder.
  -- On leaving: coding mode is off, no coder is left, and the chat model is served at the chat ctx.
  pub run-IsModeTarget :
      (dir : Direction) (w : W)
      → (run d dir w).0.switched ≡ true
      → SwitchTo d.tx
          (change_mode d dir)
          (IsModeTarget dir)
          (record { from_model = ""; to_model = ""; residency = "" })
          w
          (run d dir w)
  unfolding run
  run-IsModeTarget dir w h =
      switch-to d.tx (change_mode d dir) (IsModeTarget dir) (change_mode-Sound dir) _ w h
