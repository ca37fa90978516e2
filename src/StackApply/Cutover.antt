-- ===== src/StackApply/Cutover.antt =====
-- internal/stackapply/transact.go, `Transact`: what has happened where a switch is reported.
use villa_straylight.Base.{
  ◌≡◌, refl, ap, String, true, false, Option, none, some, List, [], ◌∷◌, ◌++◌, Result, ok, err,
  arith, Bool-cases, inl, inr, is_empty,
}
use villa_straylight.Config.{VillaConfig}
use villa_straylight.PinState.{Dict}
use villa_straylight.StackApply.{Error, Applied, Verdict, Outcome, TxDeps, Change, passes}
use villa_straylight.StackApply.Restart.{restart_changed}
use villa_straylight.StackApply.Transact.{
  rollback, after_prove, after_restart, after_apply, after_save, after_capture, after_change,
  after_load, after_lock, transact,
}

module _ {Lock W : Type 0} (d : TxDeps Lock W) where
  -- The steps from the saved config to the passed proof, each from the state that the one before
  -- left.
  pub record IsCutover (next : VillaConfig) (w : W) (o : Outcome) (final : W) : Type 0 where
    pub applied : Applied
    pub cutover : List String
    pub w1 : W
    pub w2 : W
    pub w3 : W
    pub saved : d.save_config next w ≡ (none, w1)
    pub applies : d.apply next w1 ≡ ((applied, none), w2)
    pub changes : is_empty applied.changed ≡ false
    pub restarts :
        restart_changed d.is_active d.restart applied (d.service ∷ []) w2 ≡ ((cutover, none), w3)
    pub proves : d.prove next.backend w3 ≡ (o.prove, final)
    pub proof_passed : passes o.prove ≡ true
    pub not_undone : o.rolled_back ≡ false

  rollback-switched :
      (prior : VillaConfig) (units : Dict String) (svcs : List String) (step reason : String)
      (cause : Option Error) (v : Verdict) (w : W)
      → (rollback d prior units svcs step reason cause v w).0.switched ≡ true
      → ⊥
  unfolding rollback
  rollback-switched prior units svcs step reason cause v w h = ground (arith, h)

  module _ (prior next : VillaConfig) (units : Dict String) (w : W) where
    from_proof :
        (svcs : List String) (r : Verdict × W)
        → (after_prove d prior units svcs r).0.switched ≡ true
        → (r ≡ ((after_prove d prior units svcs r).0.prove, (after_prove d prior units svcs r).1))
          × (passes (after_prove d prior units svcs r).0.prove ≡ true)
          × ((after_prove d prior units svcs r).0.rolled_back ≡ false)
    unfolding after_prove
    from_proof svcs (v, x) = elim (Bool-cases (passes v)) [
      | inl e ↦ rw (e) (λ h. (refl, e, refl))
      | inr e ↦
          rw (e) (λ h. absurd (rollback-switched prior units svcs "prove" v.detail none v x h))
    ]

    from_restart :
        (applied : Applied) (w1 w2 : W)
        → d.save_config next w ≡ (none, w1)
        → d.apply next w1 ≡ ((applied, none), w2)
        → is_empty applied.changed ≡ false
        → (r : (List String × Option Error) × W)
        → restart_changed d.is_active d.restart applied (d.service ∷ []) w2 ≡ r
        → (after_restart d prior units next applied.stopped r).0.switched ≡ true
        → IsCutover next w
            (after_restart d prior units next applied.stopped r).0
            (after_restart d prior units next applied.stopped r).1
    unfolding after_restart
    from_restart applied w1 w2 s a c ((cutover, some e), w3) is_r h =
        absurd
          (rollback-switched prior units (applied.stopped ++ cutover) "restart" "" (some e) _ w3 h)
    from_restart applied w1 w2 s a c ((cutover, none), w3) is_r h =
        let (proves, passed, kept) =
          from_proof (applied.stopped ++ cutover) (d.prove next.backend w3) h in
        record {
          applied = applied;
          cutover = cutover;
          w1 = w1;
          w2 = w2;
          w3 = w3;
          saved = s;
          applies = a;
          changes = c;
          restarts = is_r;
          proves = proves;
          proof_passed = passed;
          not_undone = kept;
        }

    from_apply :
        (w1 : W)
        → d.save_config next w ≡ (none, w1)
        → (r : (Applied × Option Error) × W) → d.apply next w1 ≡ r
        → (after_apply d prior units next r).0.switched ≡ true
        → IsCutover next w (after_apply d prior units next r).0 (after_apply d prior units next r).1
    unfolding after_apply
    from_apply w1 s ((applied, some e), w2) is_r =
        λ h. absurd (rollback-switched prior units applied.stopped "write" "" (some e) _ w2 h)
    from_apply w1 s ((applied, none), w2) is_r = elim (Bool-cases (is_empty applied.changed)) [
      | inl e ↦ rw (e) (λ h. absurd (ground (arith, h)))
      | inr e ↦ rw (e) (from_restart applied w1 w2 s is_r e _ refl)
    ]

    from_save :
        (r : Option Error × W)
        → d.save_config next w ≡ r
        → (after_save d prior units next r).0.switched ≡ true
        → IsCutover next w (after_save d prior units next r).0 (after_save d prior units next r).1
    unfolding after_save
    from_save (some e, w1) is_r h =
        absurd (rollback-switched prior units [] "save" "" (some e) _ w1 h)
    from_save (none, w1) is_r h = from_apply w1 is_r (d.apply next w1) refl h

  -- The whole transaction: the lock, the config that it reads under it, the target that the change
  -- returns for that config, the capture, and the cutover; the lock is released last.
  pub record IsSwitch {R : Type 0} (change : Change R W) (r : R) (w : W) (o : Outcome) (final : W)
      : Type 0 where
    pub lock : Lock
    pub prior : VillaConfig
    pub next : VillaConfig
    pub units : Dict String
    pub r1 : R
    pub w1 : W
    pub w2 : W
    pub w3 : W
    pub w4 : W
    pub w5 : W
    pub locks : d.lock w ≡ (ok lock, w1)
    pub loads : d.load_config w1 ≡ (ok prior, w2)
    pub targets : change prior r w2 ≡ ((next, none), r1, w3)
    pub captures : d.capture prior w3 ≡ (ok units, w4)
    pub cuts_over : IsCutover next w4 o w5
    pub releases : final ≡ d.release lock w5

  -- A change that stops the transaction does not claim a switch.
  abbrev pub StopsHonestly : {R : Type 0} → Change R W → Type 0
  StopsHonestly {R} change =
      (c : VillaConfig) (r : R) (w : W) (stop : Outcome)
      → (change c r w).0.1 ≡ some stop
      → stop.switched ≡ false

  from_capture :
      (prior next : VillaConfig) (w : W) (x : Result Error (Dict String) × W)
      → d.capture prior w ≡ x
      → (after_capture d prior next x).0.switched ≡ true
      → (units : Dict String) × (v : W) × (d.capture prior w ≡ (ok units, v))
        × IsCutover next v (after_capture d prior next x).0 (after_capture d prior next x).1
  unfolding after_capture
  from_capture prior next w (err e, v) is_x h = absurd (ground (arith, h))
  from_capture prior next w (ok units, v) is_x h =
      (units, v, is_x, from_save prior next units v (d.save_config next v) refl h)

  module _ {R : Type 0} (change : Change R W) (honest : StopsHonestly change) (r : R) (w : W) where
    from_change :
        (lock : Lock) (prior : VillaConfig) (w1 w2 : W)
        → d.lock w ≡ (ok lock, w1)
        → d.load_config w1 ≡ (ok prior, w2)
        → (x : (VillaConfig × Option Outcome) × R × W) → change prior r w2 ≡ x
        → (after_change d prior x).0.switched ≡ true
        → IsSwitch change r w (after_change d prior x).0 (d.release lock (after_change d prior x).2)
    unfolding after_change
    from_change lock prior w1 w2 l1 l2 ((next, some stop), r1, w3) is_x h =
        absurd (ground (arith, h, honest prior r w2 stop (ap (λ x. x.0.1) is_x)))
    from_change lock prior w1 w2 l1 l2 ((next, none), r1, w3) is_x h =
        let (units, w4, captured, cut) = from_capture prior next w3 (d.capture prior w3) refl h in
        record {
          lock = lock;
          prior = prior;
          next = next;
          units = units;
          r1 = r1;
          w1 = w1;
          w2 = w2;
          w3 = w3;
          w4 = w4;
          w5 = (after_capture d prior next (d.capture prior w3)).1;
          locks = l1;
          loads = l2;
          targets = is_x;
          captures = captured;
          cuts_over = cut;
          releases = refl;
        }

    from_load :
        (lock : Lock) (w1 : W)
        → d.lock w ≡ (ok lock, w1)
        → (x : Result Error VillaConfig × W) → d.load_config w1 ≡ x
        → (after_load d change r x).0.switched ≡ true
        → IsSwitch change r w
            (after_load d change r x).0
            (d.release lock (after_load d change r x).2)
    unfolding after_load
    from_load lock w1 l1 (err e, w2) is_x h = absurd (ground (arith, h))
    from_load lock w1 l1 (ok prior, w2) is_x h =
        from_change lock prior w1 w2 l1 is_x (change prior r w2) refl h

    from_lock :
        (x : Result Error Lock × W)
        → d.lock w ≡ x
        → (after_lock d change r x).0.switched ≡ true
        → IsSwitch change r w (after_lock d change r x).0 (after_lock d change r x).2
    unfolding after_lock
    from_lock (err e, w1) is_x h = absurd (ground (arith, h))
    from_lock (ok lock, w1) is_x h = from_load lock w1 is_x (d.load_config w1) refl h

    -- A switch is reported only after the lock, the load, the change, the capture, the save, the
    -- apply with at least one unit changed, the restarts and a passed proof of the target's
    -- backend have all succeeded, in this order; nothing was rolled back, and the lock is released
    -- last. The change's own stops claim no switch.
    pub transact-IsSwitch :
        (transact d change r w).0.switched ≡ true
        → IsSwitch change r w (transact d change r w).0 (transact d change r w).2
    unfolding transact
    transact-IsSwitch h = from_lock (d.lock w) refl h
