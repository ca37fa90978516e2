-- ===== src/StackApply/Restart.antt =====
-- internal/stackapply/transact.go, `RestartChanged`: which services an apply restarts.
use villa_straylight.Base.{
  String, Bool, true, false, Option, none, some, List, [], ◌∷◌, ◌++◌, Result, ok, err, any, str_eq,
  if◌then◌else◌,
}
use villa_straylight.StackApply.{Error, UnitFile, Applied, service, is_up}

-- `slices.Contains`
unfoldable pub contains : List String → String → Bool
contains xs s = any (str_eq s) xs

-- Whether an answer says that the service is up; an unreadable state is not running.
unfoldable pub says_up : Result Error String → Bool
says_up (err e) = false
says_up (ok state) = is_up state

module _ {W : Type 0} (is_active : String → W → Result Error String × W)
    (restart : String → W → Option Error × W) where
  unfoldable pub running : String → W → Bool × W
  running svc w = let (answer, v) = is_active svc w in (says_up answer, v)

  -- `restart` of `svc`, then what is left to do where it succeeds.
  unfoldable pub try_then :
      String
      → Option Error × W
      → (W → (List String × Option Error) × W)
      → (List String × Option Error) × W
  try_then svc (some e, v) rest = ((svc ∷ [], some e), v)
  try_then svc (none, v) rest = let ((tried, failure), u) = rest v in ((svc ∷ tried, failure), u)

  -- The loop over `always`; `done` is what has been restarted.
  unfoldable pub restart_always : List String → List String → W → (List String × Option Error) × W
  restart_always done [] w = (([], none), w)
  restart_always done (svc ∷ rest) w =
      if contains done svc
      then restart_always done rest w
      else try_then svc (restart svc w) (restart_always (done ++ svc ∷ []) rest)

  -- Whether a changed unit's service is restarted: it is in `always`, or it runs.
  unfoldable pub wanted : List String → String → W → Bool × W
  wanted always svc w = if contains always svc then (true, w) else running svc w

  -- A changed unit's service, then the other units, to which `rest` hands on what is done.
  unfoldable pub restart_wanted :
      List String
      → String
      → (List String → W → (List String × Option Error) × W)
      → Bool × W
      → (List String × Option Error) × W
  restart_wanted done svc rest (false, w) = rest done w
  restart_wanted done svc rest (true, w) = try_then svc (restart svc w) (rest (done ++ svc ∷ []))

  unfoldable pub restart_unit :
      List String
      → List String
      → Option String
      → (List String → W → (List String × Option Error) × W)
      → W
      → (List String × Option Error) × W
  restart_unit always done none rest w = rest done w
  restart_unit always done (some svc) rest w = restart_wanted done svc rest (wanted always svc w)

  -- The loop over the changed units, then the one over `always`.
  unfoldable pub restart_units :
      List String → List UnitFile → List String → W → (List String × Option Error) × W
  restart_units always [] done w = restart_always done always w
  restart_units always (u ∷ rest) done w =
      restart_unit always done (service u.name) (restart_units always rest) w

  unfoldable pub restart_changed : Applied → List String → W → (List String × Option Error) × W
  restart_changed applied always w = restart_units always applied.changed [] w
