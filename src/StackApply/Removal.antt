-- ===== src/StackApply/Removal.antt =====
-- internal/stackapply/stackapply.go, `write` and `runningRemoved`: which services a removal stops,
-- and that an unreadable state stops, writes and removes nothing.
use villa_straylight.Base.{
  ◌≡◌, refl, sym, ◌∙◌, ap, subst, String, Bool, true, false, ◌&&◌, Option, none, some, List, [],
  ◌∷◌, Result, ok-injective, ok, err, arith, Bool-cases, inl, inr, is_empty, is_some, if◌then◌else◌,
  and-true,
}
use villa_straylight.StackApply.{Error, UnitFile, UnitPlan, nothing_applied, service, is_up}
use villa_straylight.StackApply.Restart.{says_up}
use villa_straylight.StackApply.Write.{
  Deps, AppliedTo, add_up, running_after, running_unit, running_removed, stop_after, write_after,
  dir_after, write, stop_all,
}
use villa_straylight.StackApply.Reports.{
  empty-eq, reads, ReadsOnly, WholeIf, write_after-whole, stop_all-stopped, add_running,
  up_services, readable_service, all_readable,
}

abbrev pub is_err : {A : Type 0} → Result Error A → Bool
is_err (ok a) = false
is_err (err e) = true

module _ {W : Type 0} (d : Deps W) (only : ReadsOnly d) where
  running_after-ok :
      (svc : String) (w : W) (ups : List String) (x : Result Error String × W)
      (rest : W → Result Error (List String) × W)
      → x.1 ≡ w
      → reads x.0 ≡ true
      → rest w ≡ (ok ups, w)
      → running_after d svc x rest ≡ (ok (if says_up x.0 then svc ∷ ups else ups), w)
  unfolding running_after add_up says_up
  running_after-ok svc w ups (err e, v) rest h k r = absurd (ground (arith, k))
  running_after-ok svc w ups (ok state, v) rest h k r =
      ap (add_up svc (is_up state)) (ap rest h ∙ r)

  running_unit-ok :
      (o : Option String) (w : W) (ups : List String) (rest : W → Result Error (List String) × W)
      → readable_service d w o ≡ true
      → rest w ≡ (ok ups, w)
      → running_unit d o rest w ≡ (ok (add_running d w o ups), w)
  unfolding running_unit
  running_unit-ok none w ups rest h r = r
  running_unit-ok (some svc) w ups rest h r =
      running_after-ok svc w ups (d.is_active svc w) rest (only.is_active_same svc w) h r

  running_removed-ok :
      (units : List UnitFile) (w : W)
      → all_readable d w units ≡ true
      → running_removed d units w ≡ (ok (up_services d w units), w)
  unfolding running_removed
  running_removed-ok [] w h = refl
  running_removed-ok (u ∷ rest) w h =
      let (a, b) = and-true _ _ h in
      running_unit-ok (service u.name) w (up_services d w rest) (running_removed d rest) a
        (running_removed-ok rest w b)

  -- A refusal that leaves the host as it was.
  abbrev Refuses : W → Result Error (List String) × W → Type 0
  Refuses w r = (is_err r.0 ≡ true) × (r.1 ≡ w)

  add_up-err :
      (svc : String) (w : W) (b : Bool) (x : Result Error (List String) × W)
      → Refuses w x
      → Refuses w (add_up svc b x)
  unfolding add_up
  add_up-err svc w b (err e, u) r = r
  add_up-err svc w b (ok ups, u) r = absurd (ground (arith, r.0))

  running_after-err :
      (svc : String) (w : W) (x : Result Error String × W)
      (rest : W → Result Error (List String) × W)
      → x.1 ≡ w
      → Refuses w (rest w)
      → Refuses w (running_after d svc x rest)
  unfolding running_after
  running_after-err svc w (err e, v) rest h r = (refl, h)
  running_after-err svc w (ok state, v) rest h r =
      add_up-err svc w (is_up state) (rest v) (subst (λ u. Refuses w (rest u)) (sym h) r)

  running_after-unread :
      (svc : String) (w : W) (x : Result Error String × W)
      (rest : W → Result Error (List String) × W)
      → x.1 ≡ w
      → reads x.0 ≡ false
      → Refuses w (running_after d svc x rest)
  unfolding running_after
  running_after-unread svc w (err e, v) rest h k = (refl, h)
  running_after-unread svc w (ok state, v) rest h k = absurd (ground (arith, k))

  running_unit-err :
      (o : Option String) (w : W) (b : Bool) (rest : W → Result Error (List String) × W)
      → (b ≡ false → Refuses w (rest w))
      → (readable_service d w o && b) ≡ false
      → Refuses w (running_unit d o rest w)
  unfolding running_unit
  running_unit-err none w b rest r h = r h
  running_unit-err (some svc) w b rest r h = elim (Bool-cases (reads (d.is_active svc w).0)) [
    | inl e ↦
        running_after-err svc w (d.is_active svc w) rest (only.is_active_same svc w)
          (r (ground (arith, h, e)))
    | inr e ↦ running_after-unread svc w (d.is_active svc w) rest (only.is_active_same svc w) e
  ]

  running_removed-err :
      (units : List UnitFile) (w : W)
      → all_readable d w units ≡ false
      → Refuses w (running_removed d units w)
  unfolding running_removed
  running_removed-err [] w h = absurd (ground (arith, h))
  running_removed-err (u ∷ rest) w h =
      running_unit-err (service u.name) w (all_readable d w rest) (running_removed d rest)
        (running_removed-err rest w) h

  module _ (plan : UnitPlan) (w : W) where
    abbrev stops : List String
    stops = up_services d w plan.removed

    -- The report of a removal that was refused.
    pub record IsUntouched (r : AppliedTo W) : Type 0 where
      pub fails : is_some r.0.1 ≡ true
      pub nothing : r.0.0 ≡ nothing_applied
      pub same : r.1 ≡ w

    stop_after-refused :
        (dir : String) (x : Result Error (List String) × W)
        → Refuses w x
        → IsUntouched (stop_after d plan dir x)
    unfolding stop_after
    stop_after-refused dir (ok svcs, v) h = absurd (ground (arith, h.0))
    stop_after-refused dir (err e, v) h = record { fails = refl; nothing = refl; same = h.1 }

    dir_after-refused :
        (x : Result Error String × W)
        → x.1 ≡ w
        → all_readable d w plan.removed ≡ false
        → IsUntouched (dir_after d plan x)
    unfolding dir_after
    dir_after-refused (err e, v) h k = record { fails = refl; nothing = refl; same = h }
    dir_after-refused (ok dir, v) h k = stop_after-refused dir (running_removed d plan.removed v) (
        subst (λ u. Refuses w (running_removed d plan.removed u)) (sym h)
          (running_removed-err plan.removed w k))

    stop_after-whole :
        (dir : String) (svcs : List String) (x : Result Error (List String) × W)
        → x.0 ≡ ok svcs
        → WholeIf d plan svcs (stop_after d plan dir x)
    unfolding stop_after
    stop_after-whole dir svcs (err e, v) h = absurd (ground (arith, h))
    stop_after-whole dir svcs (ok ups, v) h =
        subst (λ l. WholeIf d plan l (write_after d plan dir (stop_all d ups v))) (ok-injective h)
          (write_after-whole d plan dir ups (stop_all d ups v) (stop_all-stopped d ups v))

    dir_after-whole :
        (x : Result Error String × W)
        → x.1 ≡ w
        → all_readable d w plan.removed ≡ true
        → WholeIf d plan stops (dir_after d plan x)
    unfolding dir_after
    dir_after-whole (err e, v) h k = λ z. absurd (ground (arith, z))
    dir_after-whole (ok dir, v) h k =
        stop_after-whole dir stops (running_removed d plan.removed v) (
          ap (λ r. r.0)
            (ap (running_removed d plan.removed) h ∙ running_removed-ok plan.removed w k))

    -- Where the state of some removed unit's service cannot be read, a write fails, reports that it
    -- did nothing and leaves the host as it was. Reading states changes nothing.
    pub write-IsUntouched : all_readable d w plan.removed ≡ false → IsUntouched (write d plan w)
    unfolding write
    write-IsUntouched h = elim (Bool-cases (is_empty plan.changed && is_empty plan.removed)) [
      | inl e ↦ absurd (
          ground (
            arith,
            h,
            ap (all_readable d w) (
                empty-eq plan.removed
                  (and-true (is_empty plan.changed) (is_empty plan.removed) e).1),
          ))
      | inr e ↦ rw (e) (dir_after-refused (d.unit_dir w) (only.unit_dir_same w) h)
    ]

    -- A write that reports no error reports the changed and the removed units of the plan, and as
    -- stopped the services of removed units that were up, in order, and no others. Reading states
    -- changes nothing.
    pub write-IsWhole : WholeIf d plan stops (write d plan w)
    unfolding write
    write-IsWhole = elim (Bool-cases (is_empty plan.changed && is_empty plan.removed)) [
      | inl e ↦ rw (e) (λ z. record {
        changed =
            empty-eq plan.changed (and-true (is_empty plan.changed) (is_empty plan.removed) e).0;
        removed =
            empty-eq plan.removed (and-true (is_empty plan.changed) (is_empty plan.removed) e).1;
        stopped =
            ap (up_services d w) (
              empty-eq plan.removed (and-true (is_empty plan.changed) (is_empty plan.removed) e).1);
      })
      | inr e ↦ rw (e) whole_or_refused
    ]
      where
        whole_or_refused : WholeIf d plan stops (dir_after d plan (d.unit_dir w))
        whole_or_refused z = elim (Bool-cases (all_readable d w plan.removed)) [
          | inl k ↦ dir_after-whole (d.unit_dir w) (only.unit_dir_same w) k z
          | inr k ↦
              absurd (
                ground
                  (arith, z, (dir_after-refused (d.unit_dir w) (only.unit_dir_same w) k).fails))
        ]
