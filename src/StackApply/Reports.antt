-- ===== src/StackApply/Reports.antt =====
-- internal/stackapply/stackapply.go, `write`: what the report says of the host.
use villa_straylight.Base.{
  ◌≡◌, refl, ◌∙◌, ap, String, Bool, true, false, ◌&&◌, Option, none, some, List, [], ◌∷◌, Result,
  ok, err, arith, Bool-cases, inl, inr, is_empty, if◌then◌else◌,
}
use villa_straylight.StackApply.{Error, UnitFile, UnitPlan, Applied, service}
use villa_straylight.StackApply.Restart.{says_up}
use villa_straylight.StackApply.Write.{
  Deps, AppliedTo, stop_next, stop_all, reload_after, remove_after, write_after,
}

-- A write without an error did the whole plan, and stopped `svcs`.
pub record IsWhole (plan : UnitPlan) (svcs : List String) (a : Applied) : Type 0 where
  pub changed : a.changed ≡ plan.changed
  pub removed : a.removed ≡ plan.removed
  pub stopped : a.stopped ≡ svcs

pub empty-eq : {A : Type 0} (xs : List A) → is_empty xs ≡ true → [] ≡ xs
empty-eq [] h = refl
empty-eq (x ∷ xs) h = absurd (ground (arith, h))

abbrev pub reads : Result Error String → Bool
reads (err e) = false
reads (ok state) = true

module _ {W : Type 0} (d : Deps W) where
  abbrev pub WholeIf : UnitPlan → List String → AppliedTo W → Type 0
  WholeIf plan svcs r = r.0.1 ≡ none → IsWhole plan svcs r.0.0

  reload_after-whole :
      (plan : UnitPlan) (svcs : List String) (a : Applied) (x : Option Error × W)
      → IsWhole plan svcs a
      → WholeIf plan svcs (reload_after d a x)
  unfolding reload_after
  reload_after-whole plan svcs a (some e, w) h k = absurd (ground (arith, k))
  reload_after-whole plan svcs a (none, w) h k = h

  remove_after-whole :
      (plan : UnitPlan) (dir : String) (svcs : List String) (a : Applied) (x : Option Error × W)
      → a.changed ≡ plan.changed
      → a.removed ≡ []
      → a.stopped ≡ svcs
      → WholeIf plan svcs (remove_after d plan dir a x)
  unfolding remove_after
  remove_after-whole plan dir svcs a (some e, w) h n s = λ k. absurd (ground (arith, k))
  remove_after-whole plan dir svcs a (none, w) h n s = elim (Bool-cases (is_empty plan.removed)) [
    | inl e ↦ rw (e) (
        reload_after-whole plan svcs a (none, w)
          (record { changed = h; removed = n ∙ empty-eq plan.removed e; stopped = s }))
    | inr e ↦ rw (e) (
        reload_after-whole plan svcs (record a { removed = plan.removed })
          (d.remove_units plan dir w) (record { changed = h; removed = refl; stopped = s }))
  ]

  pub write_after-whole :
      (plan : UnitPlan) (dir : String) (svcs : List String) (x : (List String × Option Error) × W)
      → (x.0.1 ≡ none → x.0.0 ≡ svcs)
      → WholeIf plan svcs (write_after d plan dir x)
  unfolding write_after
  write_after-whole plan dir svcs ((stopped, some e), w) h = λ k. absurd (ground (arith, k))
  write_after-whole plan dir svcs ((stopped, none), w) h =
      elim (Bool-cases (is_empty plan.changed)) [
        | inl e ↦
            rw (e)
              (remove_after-whole plan dir svcs _ (none, w) (empty-eq plan.changed e) refl (h refl))
        | inr e ↦
            rw (e)
              (remove_after-whole plan dir svcs _ (d.write_units plan dir w) refl refl (h refl))
      ]

  stop_next-stopped :
      (svc : String) (svcs : List String) (rest : W → (List String × Option Error) × W)
      (x : Option Error × W)
      → ((w : W) → (rest w).0.1 ≡ none → (rest w).0.0 ≡ svcs)
      → (stop_next svc rest x).0.1 ≡ none
      → (stop_next svc rest x).0.0 ≡ svc ∷ svcs
  unfolding stop_next
  stop_next-stopped svc svcs rest (some e, w) h k = absurd (ground (arith, k))
  stop_next-stopped svc svcs rest (none, w) h k = ap (λ l. svc ∷ l) (h w k)

  pub stop_all-stopped :
      (svcs : List String) (w : W) → (stop_all d svcs w).0.1 ≡ none → (stop_all d svcs w).0.0 ≡ svcs
  unfolding stop_all
  stop_all-stopped [] w k = refl
  stop_all-stopped (svc ∷ svcs) w k =
      stop_next-stopped svc svcs (stop_all d svcs) (d.stop svc w) (stop_all-stopped svcs) k

  module _ (w : W) where
    abbrev pub add_running : Option String → List String → List String
    add_running none rest = rest
    add_running (some svc) rest = if says_up (d.is_active svc w).0 then svc ∷ rest else rest

    -- The services of a list of units that are up.
    abbrev pub up_services : List UnitFile → List String
    up_services [] = []
    up_services (u ∷ rest) = add_running (service u.name) (up_services rest)

    abbrev pub readable_service : Option String → Bool
    readable_service none = true
    readable_service (some svc) = reads (d.is_active svc w).0

    -- Whether the state of every service of a list of units can be read.
    abbrev pub all_readable : List UnitFile → Bool
    all_readable [] = true
    all_readable (u ∷ rest) = readable_service (service u.name) && all_readable rest

  -- Reading a state or the unit directory changes nothing.
  pub record ReadsOnly : Type 0 where
    pub is_active_same : (svc : String) (w : W) → (d.is_active svc w).1 ≡ w
    pub unit_dir_same : (w : W) → (d.unit_dir w).1 ≡ w
