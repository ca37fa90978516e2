-- ===== src/StackApply/Rule.antt =====
-- internal/stackapply/transact.go: which services `RestartChanged` restarts, and in which order, on a
-- host whose services keep their state meanwhile. A changed service of `always` that is not running
-- is restarted among the changed ones, which the comment of `RestartChanged` puts after them.
use villa_straylight.Base.{
  ◌≡◌, refl, sym, ap, subst, String, Bool, true, false, ◌||◌, Option, none, some, List, [], ◌∷◌,
  ◌++◌, Result, arith, Bool-cases, inl, inr, if◌then◌else◌,
}
use villa_straylight.StackApply.{Error, UnitFile, Applied, service}
use villa_straylight.StackApply.Restart.{
  contains, says_up, running, try_then, restart_always, wanted, restart_wanted, restart_unit,
  restart_units, restart_changed,
}
use villa_straylight.StackApply.Restarted.{append_assoc, append_nil}

abbrev add_service : Bool → Option String → List String → List String
add_service b none rest = rest
add_service false (some svc) rest = rest
add_service true (some svc) rest = svc ∷ rest

abbrev is_wanted : (String → Bool) → List String → Option String → Bool
is_wanted up always none = false
is_wanted up always (some svc) = contains always svc || up svc

-- The services of the changed units that are in `always` or up, in render order.
abbrev pub changed_services : (String → Bool) → List String → List UnitFile → List String
changed_services up always [] = []
changed_services up always (u ∷ rest) =
    add_service (is_wanted up always (service u.name)) (service u.name)
      (changed_services up always rest)

-- The services of a list that are not in `done`, each once.
abbrev pub remaining : List String → List String → List String
remaining done [] = []
remaining done (svc ∷ rest) =
    if contains done svc then remaining done rest else svc ∷ remaining (done ++ svc ∷ []) rest

module _ {W : Type 0} (is_active : String → W → Result Error String × W)
    (restart : String → W → Option Error × W) where
  -- What a run without a failure returns.
  abbrev Tries : List String → (List String × Option Error) × W → Type 0
  Tries svcs r = r.0.1 ≡ none → r.0.0 ≡ svcs

  try_then-Tries :
      (svc : String) (x : Option Error × W) (svcs : List String)
      (rest : W → (List String × Option Error) × W)
      → ((w : W) → Tries svcs (rest w))
      → Tries (svc ∷ svcs) (try_then is_active restart svc x rest)
  unfolding try_then
  try_then-Tries svc (some e, w) svcs rest h k = absurd (ground (arith, k))
  try_then-Tries svc (none, w) svcs rest h k = ap (λ l. svc ∷ l) (h w k)

  restart_always-Tries :
      (done svcs : List String) (w : W)
      → Tries (remaining done svcs) (restart_always is_active restart done svcs w)
  unfolding restart_always
  restart_always-Tries done [] w = λ k. refl
  restart_always-Tries done (svc ∷ rest) w = elim (Bool-cases (contains done svc)) [
    | inl e ↦ rw (e) (restart_always-Tries done rest w)
    | inr e ↦ rw (e) (
        try_then-Tries svc (restart svc w) _ _
          (λ v. restart_always-Tries (done ++ svc ∷ []) rest v))
  ]

  module _ (up : String → Bool)
      (steady : (s : String) (w : W) → says_up (is_active s w).0 ≡ up s) where
    wanted-up :
        (always : List String) (svc : String) (w : W)
        → (wanted is_active restart always svc w).0 ≡ (contains always svc || up svc)
    unfolding wanted running
    wanted-up always svc w = elim (Bool-cases (contains always svc)) [
      | inl e ↦ rw (e) refl
      | inr e ↦ rw (e) (steady svc w)
    ]

    module _ (always : List String) where
      abbrev planned : List String → List String → List String
      planned done svcs = svcs ++ remaining (done ++ svcs) always

      restart_wanted-Tries :
          (done svcs : List String) (svc : String)
          (rest : List String → W → (List String × Option Error) × W) (b : Bool) (w : W)
          → ((done : List String) (w : W) → Tries (planned done svcs) (rest done w))
          → Tries
              (planned done (add_service b (some svc) svcs))
              (restart_wanted is_active restart done svc rest (b, w))
      unfolding restart_wanted
      restart_wanted-Tries done svcs svc rest false w h = h done w
      restart_wanted-Tries done svcs svc rest true w h =
          try_then-Tries svc (restart svc w) _ _ (λ v.
            subst (λ l. Tries (svcs ++ remaining l always) (rest (done ++ svc ∷ []) v))
              (append_assoc done (svc ∷ []) svcs) (h (done ++ svc ∷ []) v))

      restart_unit-Tries :
          (done svcs : List String) (o : Option String)
          (rest : List String → W → (List String × Option Error) × W) (w : W)
          → ((done : List String) (w : W) → Tries (planned done svcs) (rest done w))
          → Tries
              (planned done (add_service (is_wanted up always o) o svcs))
              (restart_unit is_active restart always done o rest w)
      unfolding restart_unit
      restart_unit-Tries done svcs none rest w h = h done w
      restart_unit-Tries done svcs (some svc) rest w h =
          let x = wanted is_active restart always svc w in
          subst
            (λ b.
              Tries (planned done (add_service b (some svc) svcs))
                (restart_wanted is_active restart done svc rest x))
            (wanted-up always svc w) (restart_wanted-Tries done svcs svc rest x.0 x.1 h)

      restart_units-Tries :
          (units : List UnitFile) (done : List String) (w : W)
          → Tries
              (planned done (changed_services up always units))
              (restart_units is_active restart always units done w)
      unfolding restart_units
      restart_units-Tries [] done w =
          subst (λ l. Tries (remaining l always) (restart_always is_active restart done always w))
            (sym (append_nil done)) (restart_always-Tries done always w)
      restart_units-Tries (u ∷ rest) done w =
          restart_unit-Tries done (changed_services up always rest) (service u.name)
            (restart_units is_active restart always rest) w
            (λ done' w'. restart_units-Tries rest done' w')

    -- Where no restart fails, and no service goes up or down while the rule runs, the services
    -- restarted are those of the changed units that are in `always` or up, in render order, then
    -- those of `always` not yet restarted, each once.
    pub restart_changed-rule :
        (applied : Applied) (always : List String) (w : W)
        → (restart_changed is_active restart applied always w).0.1 ≡ none
        → let changed = changed_services up always applied.changed in
          (restart_changed is_active restart applied always w).0.0
          ≡ changed ++ remaining changed always
    unfolding restart_changed
    restart_changed-rule applied always w = restart_units-Tries always applied.changed [] w
