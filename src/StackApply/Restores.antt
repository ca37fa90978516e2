-- ===== src/StackApply/Restores.antt =====
-- internal/stackapply/transact.go, `Transact`: a change that fails or is not proven leaves the stack
-- as it was.
use villa_straylight.Base.{
  ◌≡◌, refl, sym, ◌∙◌, ap, subst, String, Bool, true, false, Option, none, some, List, [], ◌∷◌,
  ◌++◌, Result, ok, err, arith, Bool-cases, inl, inr, is_empty,
}
use villa_straylight.Config.{VillaConfig}
use villa_straylight.PinState.{Dict, lookup}
use villa_straylight.StackApply.{
  Error, Applied, Verdict, Reason, text, incomplete, Outcome, TxDeps, Change, passes,
}
use villa_straylight.StackApply.Restart.{restart_changed}
use villa_straylight.StackApply.Transact.{
  note_failure, note_incomplete, restart_all, undo, rollback, after_prove, after_restart,
  after_apply, after_save, after_capture, after_change, after_load, after_lock, transact,
}
use villa_straylight.StackApply.Host.{Same, Same-trans, Lawful, Reads}

abbrev pub IsComplete : Reason → Type 0
IsComplete (text t) = Unit
IsComplete (incomplete fails) = ⊥

no_failures :
    (fails : List (String × Error)) (t : String)
    → IsComplete (note_incomplete fails (text t))
    → fails ≡ []
unfolding note_incomplete
no_failures [] t h = refl
no_failures (f ∷ fails) t h = absurd h

no_failure :
    (step : String) (e : Option Error) (rest : List (String × Error))
    → note_failure step e ++ rest ≡ []
    → (e ≡ none) × (rest ≡ [])
unfolding note_failure
no_failure step none rest h = (refl, h)
no_failure step (some e) rest h = ground arith

module _ {Lock W : Type 0} {config_of : W → VillaConfig} {file_of : W → String → Option String}
    {kept : VillaConfig → String → Bool} (d : TxDeps Lock W)
    (law : Lawful d config_of file_of kept) where
  -- The config of `w` and the bytes of every kept unit file of `w` are those of `v`.
  pub record Kept (w v : W) : Type 0 where
    pub config : config_of v ≡ config_of w
    pub files :
        (name text : String)
        → kept (config_of w) name ≡ true
        → file_of w name ≡ some text
        → file_of v name ≡ some text

  restart_all-Same :
      (svcs : List String) (w : W) → Same config_of file_of w (restart_all d svcs w).1
  unfolding restart_all
  restart_all-Same [] w = record { config = refl; files = λ n. refl }
  restart_all-Same (svc ∷ rest) w =
      Same-trans (law.restart_same svc w) (restart_all-Same rest (d.restart svc w).1)

  undo-restores :
      (prior : VillaConfig) (units : Dict String) (svcs : List String) (w : W)
      → (undo d prior units svcs w).0 ≡ []
      → (config_of (undo d prior units svcs w).1 ≡ prior)
        × ((name text : String)
            → lookup name units ≡ some text
            → file_of (undo d prior units svcs w).1 name ≡ some text)
  unfolding undo
  undo-restores prior units svcs w h =
      let r1 = d.restore units w in
      let r2 = d.save_config prior r1.1 in
      let r3 = d.daemon_reload r2.1 in
      let reloads = note_failure "DaemonReload" r3.0 ++ (restart_all d svcs r3.1).0 in
      let saves = note_failure "SaveConfig(prior)" r2.0 ++ reloads in
      let (restored, h1) = no_failure "RestoreUnits" r1.0 saves h in
      let (saved, h2) = no_failure "SaveConfig(prior)" r2.0 reloads h1 in
      let later = Same-trans (law.reload_same r2.1) (restart_all-Same svcs r3.1) in
      (
        later.config ∙ law.save_writes prior r1.1 saved,
        λ n t e.
            later.files n ∙ law.save_files prior r1.1 n ∙ law.restore_writes units w restored n t e,
      )

  Same-Kept : {w v : W} → Same config_of file_of w v → Kept w v
  Same-Kept h = record { config = h.config; files = λ n t k e. h.files n ∙ e }

  Kept-trans : {a b c : W} → Same config_of file_of a b → Kept b c → Kept a c
  Kept-trans {a} {b} h k = record {
    config = k.config ∙ h.config;
    files = λ n t e f. k.files n t (subst (λ c. kept c n ≡ true) (sym h.config) e) (h.files n ∙ f);
  }

  Kept-Same : {a b c : W} → Kept a b → Same config_of file_of b c → Kept a c
  Kept-Same k h = record {
    config = h.config ∙ k.config;
    files = λ n t e f. h.files n ∙ k.files n t e f;
  }

  -- An outcome that reports neither a switch nor a no-op, and no failed rollback step.
  pub record IsFailure (o : Outcome) : Type 0 where
    pub not_switched : o.switched ≡ false
    pub not_no_op : o.no_op ≡ false
    pub complete : IsComplete o.reason

  -- What holds once the capture has been taken.
  module _ (prior : VillaConfig) (units : Dict String) (w₀ : W) (is_prior : config_of w₀ ≡ prior)
      (captures : (name text : String)
        → kept prior name ≡ true
        → file_of w₀ name ≡ some text
        → lookup name units ≡ some text) where
    abbrev Back : Outcome × W → Type 0
    Back r = IsFailure r.0 → Kept w₀ r.1

    rollback-Back :
        (svcs : List String) (step reason : String) (cause : Option Error) (v : Verdict) (w : W)
        → Back (rollback d prior units svcs step reason cause v w)
    unfolding rollback
    rollback-Back svcs step reason cause v w h =
        let (config, files) = undo-restores prior units svcs w (no_failures _ reason h.complete) in
        record {
          config = config ∙ sym is_prior;
          files = λ n t k f. files n t (captures n t (subst (λ c. kept c n ≡ true) is_prior k) f);
        }

    after_prove-Back :
        (svcs : List String) (r : Verdict × W) → Back (after_prove d prior units svcs r)
    unfolding after_prove
    after_prove-Back svcs (v, w) = elim (Bool-cases (passes v)) [
      | inl e ↦ rw (e) (λ h. absurd (ground (arith, h.not_switched)))
      | inr e ↦ rw (e) (rollback-Back svcs "prove" v.detail none v w)
    ]

    after_restart-Back :
        (next : VillaConfig) (stopped : List String) (r : (List String × Option Error) × W)
        → Back (after_restart d prior units next stopped r)
    unfolding after_restart
    after_restart-Back next stopped ((cutover, some e), w) =
        rollback-Back (stopped ++ cutover) "restart" "" (some e) _ w
    after_restart-Back next stopped ((cutover, none), w) =
        after_prove-Back (stopped ++ cutover) (d.prove next.backend w)

    after_apply-Back :
        (next : VillaConfig) (r : (Applied × Option Error) × W)
        → Back (after_apply d prior units next r)
    unfolding after_apply
    after_apply-Back next ((applied, some e), w) =
        rollback-Back applied.stopped "write" "" (some e) _ w
    after_apply-Back next ((applied, none), w) = elim (Bool-cases (is_empty applied.changed)) [
      | inl e ↦ rw (e) (λ h. absurd (ground (arith, h.not_no_op)))
      | inr e ↦ rw (e) (
          after_restart-Back next applied.stopped
            (restart_changed d.is_active d.restart applied (d.service ∷ []) w))
    ]

    after_save-Back :
        (next : VillaConfig) (r : Option Error × W) → Back (after_save d prior units next r)
    unfolding after_save
    after_save-Back next (some e, w) = rollback-Back [] "save" "" (some e) _ w
    after_save-Back next (none, w) = after_apply-Back next (d.apply next w)

  after_capture-Kept :
      (prior next : VillaConfig) (w : W)
      → config_of w ≡ prior
      → (r : Result Error (Dict String) × W) → d.capture prior w ≡ r
      → IsFailure (after_capture d prior next r).0
      → Kept w (after_capture d prior next r).1
  unfolding after_capture
  after_capture-Kept prior next w is_prior (err e, v) is_r h =
      Same-Kept (subst (Same config_of file_of w) (ap (λ r. r.1) is_r) (law.capture_same prior w))
  after_capture-Kept prior next w is_prior (ok units, v) is_r h =
      let same = subst (Same config_of file_of w) (ap (λ r. r.1) is_r) (law.capture_same prior w) in
      Kept-trans same (
        after_save-Back prior units v (same.config ∙ is_prior)
          (λ n t k f.
            law.capture_reads prior w units (ap (λ r. r.0) is_r) n t k (sym (same.files n) ∙ f))
          next (d.save_config next v) h)

  module _ {R : Type 0} (change : Change R W) (reads : Reads config_of file_of change) where
    after_change-Kept :
        (prior : VillaConfig) (w : W)
        → config_of w ≡ prior
        → (x : (VillaConfig × Option Outcome) × R × W) → Same config_of file_of w x.2
        → IsFailure (after_change d prior x).0
        → Kept w (after_change d prior x).2
    unfolding after_change
    after_change-Kept prior w is_prior ((next, some stop), r, v) same h = Same-Kept same
    after_change-Kept prior w is_prior ((next, none), r, v) same h =
        Kept-trans same
          (after_capture-Kept prior next v (same.config ∙ is_prior) (d.capture prior v) refl h)

    after_load-Kept :
        (r : R) (w : W) (x : Result Error VillaConfig × W)
        → d.load_config w ≡ x
        → IsFailure (after_load d change r x).0
        → Kept w (after_load d change r x).2
    unfolding after_load
    after_load-Kept r w (err e, v) is_x h =
        Same-Kept (subst (Same config_of file_of w) (ap (λ x. x.1) is_x) (law.load_same w))
    after_load-Kept r w (ok prior, v) is_x h =
        let same = subst (Same config_of file_of w) (ap (λ x. x.1) is_x) (law.load_same w) in
        Kept-trans same (
          after_change-Kept prior v (same.config ∙ law.load_reads w prior (ap (λ x. x.0) is_x))
            (change prior r v) (reads prior r v) h)

    after_lock-Kept :
        (r : R) (w : W) (x : Result Error Lock × W)
        → Same config_of file_of w x.1
        → IsFailure (after_lock d change r x).0
        → Kept w (after_lock d change r x).2
    unfolding after_lock
    after_lock-Kept r w (err e, v) same h = Same-Kept same
    after_lock-Kept r w (ok lock, v) same h =
        Kept-trans same
          (Kept-Same (after_load-Kept r v (d.load_config v) refl h) (law.release_same lock _))

    -- A transaction that reports neither a switch nor a no-op, and no rollback step that failed,
    -- leaves the config as it was, and every unit file of the set that a capture covers with the
    -- bytes that it had. The host's seams do what their comments promise, and the change itself
    -- writes neither the config nor a unit file.
    pub transact-Kept :
        (r : R) (w : W) → IsFailure (transact d change r w).0 → Kept w (transact d change r w).2
    unfolding transact
    transact-Kept r w h = after_lock-Kept r w (d.lock w) (law.lock_same w) h
