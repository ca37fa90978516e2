-- ===== src/StackApply/Restarted.antt =====
-- internal/stackapply/transact.go, `RestartChanged`: the list that it returns.
use villa_straylight.Base.{
  ◌≡◌, refl, sym, ◌∙◌, ap, subst, String, Bool, true, false, Option, none, some, List, [], ◌∷◌,
  ◌++◌, Result, Bool-cases, inl, inr,
}
use villa_straylight.StackApply.{Error, UnitFile, Applied, service}
use villa_straylight.StackApply.Restart.{
  contains, running, try_then, restart_always, wanted, restart_wanted, restart_unit, restart_units,
  restart_changed,
}

-- The host with a log of the services that were restarted, in order.
abbrev pub Logged : Type 0 → Type 0
Logged W = W × List String

module _ {W : Type 0} where
  abbrev pub logged_active :
      (String → W → Result Error String × W) → String → Logged W → Result Error String × Logged W
  logged_active is_active s x = let (answer, w) = is_active s x.0 in (answer, (w, x.1))

  abbrev pub logged_restart :
      (String → W → Option Error × W) → String → Logged W → Option Error × Logged W
  logged_restart restart s x = let (e, w) = restart s x.0 in (e, (w, x.1 ++ s ∷ []))

pub append_assoc : (xs ys zs : List String) → xs ++ ys ++ zs ≡ xs ++ (ys ++ zs)
append_assoc [] ys zs = refl
append_assoc (x ∷ xs) ys zs = ap (λ l. x ∷ l) (append_assoc xs ys zs)

pub append_nil : (xs : List String) → xs ++ [] ≡ xs
append_nil [] = refl
append_nil (x ∷ xs) = ap (λ l. x ∷ l) (append_nil xs)

-- The calls that a run adds to the log are the services that it returns.
abbrev Logs : {W : Type 0} → List String → (List String × Option Error) × Logged W → Type 0
Logs log r = r.1.1 ≡ log ++ r.0.0

module _ {W : Type 0} (is_active : String → W → Result Error String × W)
    (restart : String → W → Option Error × W) where
  abbrev active : String → Logged W → Result Error String × Logged W
  active = logged_active is_active

  abbrev restarting : String → Logged W → Option Error × Logged W
  restarting = logged_restart restart

  try_then-Logs :
      (svc : String) (log : List String) (e : Option Error) (w : W)
      (rest : Logged W → (List String × Option Error) × Logged W)
      → ((w : W) → Logs (log ++ svc ∷ []) (rest (w, log ++ svc ∷ [])))
      → Logs log (try_then active restarting svc (e, (w, log ++ svc ∷ [])) rest)
  unfolding try_then
  try_then-Logs svc log (some e) w rest h = refl
  try_then-Logs svc log none w rest h = h w ∙ append_assoc log (svc ∷ []) _

  restart_always-Logs :
      (done svcs log : List String) (w : W)
      → Logs log (restart_always active restarting done svcs (w, log))
  unfolding restart_always
  restart_always-Logs done [] log w = sym (append_nil log)
  restart_always-Logs done (svc ∷ rest) log w = elim (Bool-cases (contains done svc)) [
    | inl e ↦ rw (e) (restart_always-Logs done rest log w)
    | inr e ↦ rw (e) (
        try_then-Logs svc log _ _ _
          (λ v. restart_always-Logs (done ++ svc ∷ []) rest (log ++ svc ∷ []) v))
  ]

  restart_wanted-Logs :
      (done : List String) (svc : String) (log : List String)
      (rest : List String → Logged W → (List String × Option Error) × Logged W) (b : Bool) (w : W)
      → ((done log : List String) (w : W) → Logs log (rest done (w, log)))
      → Logs log (restart_wanted active restarting done svc rest (b, (w, log)))
  unfolding restart_wanted
  restart_wanted-Logs done svc log rest false w h = h done log w
  restart_wanted-Logs done svc log rest true w h =
      try_then-Logs svc log _ _ _ (λ v. h (done ++ svc ∷ []) (log ++ svc ∷ []) v)

  wanted-log :
      (always : List String) (svc : String) (w : W) (log : List String)
      → (wanted active restarting always svc (w, log)).1.1 ≡ log
  unfolding wanted running
  wanted-log always svc w log = elim (Bool-cases (contains always svc)) [
    | inl e ↦ rw (e) refl
    | inr e ↦ rw (e) refl
  ]

  restart_unit-Logs :
      (always done : List String) (o : Option String) (log : List String)
      (rest : List String → Logged W → (List String × Option Error) × Logged W) (w : W)
      → ((done log : List String) (w : W) → Logs log (rest done (w, log)))
      → Logs log (restart_unit active restarting always done o rest (w, log))
  unfolding restart_unit
  restart_unit-Logs always done none log rest w h = h done log w
  restart_unit-Logs always done (some svc) log rest w h =
      let x = wanted active restarting always svc (w, log) in
      subst (λ l. Logs l (restart_wanted active restarting done svc rest x))
        (wanted-log always svc w log) (restart_wanted-Logs done svc x.1.1 rest x.0 x.1.0 h)

  restart_units-Logs :
      (always : List String) (units : List UnitFile) (done log : List String) (w : W)
      → Logs log (restart_units active restarting always units done (w, log))
  unfolding restart_units
  restart_units-Logs always [] done log w = restart_always-Logs done always log w
  restart_units-Logs always (u ∷ rest) done log w =
      restart_unit-Logs always done (service u.name) log
        (restart_units active restarting always rest) w
        (λ done' log' w'. restart_units-Logs always rest done' log' w')

  -- The services that `restart_changed` returns are the calls of `restart` that it has made, in
  -- their order, the one that failed included.
  pub restart_changed-Logs :
      (applied : Applied) (always : List String) (w : W)
      → (restart_changed active restarting applied always (w, [])).1.1
        ≡ (restart_changed active restarting applied always (w, [])).0.0
  unfolding restart_changed
  restart_changed-Logs applied always w = restart_units-Logs always applied.changed [] [] w
