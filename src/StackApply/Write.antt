-- ===== src/StackApply/Write.antt =====
-- internal/stackapply/stackapply.go: `Apply`, from the healed config to the unit files. The render and
-- the reconciling are the seam `plan`, the two functions on the secret are seams too.
use villa_straylight.Base.{
  String, Bool, ◌&&◌, Option, none, some, List, [], ◌∷◌, Result, ok, err, is_empty, str_eq,
  if◌then◌else◌,
}
use villa_straylight.Config.{VillaConfig}
use villa_straylight.StackApply.{
  Error, wrap, UnitFile, UnitPlan, Applied, nothing_applied, service, is_up,
}

-- `Deps`
pub record Deps (W : Type 0) : Type 0 where
  -- `Plan` of this package, with its `Render`, `UnitDir` and `Reconcile`.
  pub plan : VillaConfig → W → Result Error UnitPlan × W
  pub unit_dir : W → Result Error String × W
  pub write_units : UnitPlan → String → W → Option Error × W
  pub remove_units : UnitPlan → String → W → Option Error × W
  pub daemon_reload : W → Option Error × W
  pub is_active : String → W → Result Error String × W
  pub stop : String → W → Option Error × W
  pub save_config : VillaConfig → W → Option Error × W
  pub write_inference_secret_env : String × String → W → Option Error × W
  -- `config.GenerateInferenceSecret` and `orchestrate.RenderInferenceSecretEnv`.
  pub generate_inference_secret : W → Result Error String × W
  pub render_inference_secret_env : String → String × String
  pub heal_agent_config : Option (VillaConfig → W → Option Error × W)

-- The outcome of `write`, with what it did even where it fails.
abbrev pub AppliedTo : Type 0 → Type 0
AppliedTo W = (Applied × Option Error) × W

module _ {W : Type 0} where
  -- `fmt.Errorf` with `%w`, where there is an error.
  unfoldable pub wrapped : String → Option Error × W → Option Error × W
  wrapped what (none, w) = (none, w)
  wrapped what (some e, w) = (some (wrap what e), w)

  unfoldable pub add_up :
      String → Bool → Result Error (List String) × W → Result Error (List String) × W
  add_up svc b (err e, w) = (err e, w)
  add_up svc b (ok up, w) = (ok (if b then svc ∷ up else up), w)

  unfoldable pub stop_next :
      String
      → (W → (List String × Option Error) × W)
      → Option Error × W
      → (List String × Option Error) × W
  stop_next svc rest (some e, w) = ((svc ∷ [], some (wrap "stop" e)), w)
  stop_next svc rest (none, w) = let ((stopped, e), v) = rest w in ((svc ∷ stopped, e), v)

  unfoldable pub env_result : VillaConfig → Option Error × W → Result Error VillaConfig × W
  env_result cfg (some e, w) = (err (wrap "write inference secret env" e), w)
  env_result cfg (none, w) = (ok cfg, w)

module _ {W : Type 0} (d : Deps W) where
  -- The loop of `runningRemoved`.
  unfoldable pub running_after :
      String
      → Result Error String × W
      → (W → Result Error (List String) × W)
      → Result Error (List String) × W
  running_after svc (err e, w) rest =
      (err (wrap "refusing to remove: cannot read whether it is running" e), w)
  running_after svc (ok state, w) rest = add_up svc (is_up state) (rest w)

  unfoldable pub running_unit :
      Option String → (W → Result Error (List String) × W) → W → Result Error (List String) × W
  running_unit none rest w = rest w
  running_unit (some svc) rest w = running_after svc (d.is_active svc w) rest

  unfoldable pub running_removed : List UnitFile → W → Result Error (List String) × W
  running_removed [] w = (ok [], w)
  running_removed (u ∷ rest) w = running_unit (service u.name) (running_removed rest) w

  -- The loop over `toStop`: the services recorded, and the error that ended it.
  unfoldable pub stop_all : List String → W → (List String × Option Error) × W
  stop_all [] w = (([], none), w)
  stop_all (svc ∷ rest) w = stop_next svc (stop_all rest) (d.stop svc w)

  unfoldable pub reload_after : Applied → Option Error × W → AppliedTo W
  reload_after applied (some e, w) = ((applied, some (wrap "remove units" e)), w)
  reload_after applied (none, w) =
      let (e, v) = wrapped "daemon-reload" (d.daemon_reload w) in ((applied, e), v)

  unfoldable pub remove_after : UnitPlan → String → Applied → Option Error × W → AppliedTo W
  remove_after plan dir applied (some e, w) = ((applied, some (wrap "write units" e)), w)
  remove_after plan dir applied (none, w) =
      if is_empty plan.removed
      then reload_after applied (none, w)
      else reload_after (record applied { removed = plan.removed }) (d.remove_units plan dir w)

  unfoldable pub write_after : UnitPlan → String → (List String × Option Error) × W → AppliedTo W
  write_after plan dir ((stopped, some e), w) =
      ((record nothing_applied { stopped = stopped }, some e), w)
  write_after plan dir ((stopped, none), w) =
      let applied : Applied = record nothing_applied { stopped = stopped } in
      if is_empty plan.changed
      then remove_after plan dir applied (none, w)
      else remove_after plan dir (record applied { changed = plan.changed })
          (d.write_units plan dir w)

  unfoldable pub stop_after : UnitPlan → String → Result Error (List String) × W → AppliedTo W
  stop_after plan dir (err e, w) = ((nothing_applied, some e), w)
  stop_after plan dir (ok to_stop, w) = write_after plan dir (stop_all to_stop w)

  unfoldable pub dir_after : UnitPlan → Result Error String × W → AppliedTo W
  dir_after plan (err e, w) = ((nothing_applied, some (wrap "resolve unit dir" e)), w)
  dir_after plan (ok dir, w) = stop_after plan dir (running_removed plan.removed w)

  unfoldable pub write : UnitPlan → W → AppliedTo W
  write plan w =
      if is_empty plan.changed && is_empty plan.removed
      then ((nothing_applied, none), w)
      else dir_after plan (d.unit_dir w)

  -- `heal`
  unfoldable pub heal_env : VillaConfig → W → Result Error VillaConfig × W
  heal_env cfg w =
      env_result cfg
        (d.write_inference_secret_env (d.render_inference_secret_env cfg.inference_secret) w)

  unfoldable pub heal_save : VillaConfig → Option Error × W → Result Error VillaConfig × W
  heal_save cfg (some e, w) = (err (wrap "persist inference secret" e), w)
  heal_save cfg (none, w) = heal_env cfg w

  unfoldable pub heal_generated :
      VillaConfig → Result Error String × W → Result Error VillaConfig × W
  heal_generated cfg (err e, w) = (err (wrap "generate inference secret" e), w)
  heal_generated cfg (ok secret, w) =
      let healed : VillaConfig = record cfg { inference_secret = secret } in
      heal_save healed (d.save_config healed w)

  unfoldable pub heal : VillaConfig → W → Result Error VillaConfig × W
  heal cfg w =
      if str_eq cfg.inference_secret ""
      then heal_generated cfg (d.generate_inference_secret w)
      else heal_env cfg w

  -- `healAgentConfig`
  unfoldable pub heal_agent_config :
      Option (VillaConfig → W → Option Error × W) → VillaConfig → W → Option Error × W
  heal_agent_config none cfg w = (none, w)
  heal_agent_config (some f) cfg w = wrapped "heal crush.json" (f cfg w)

  unfoldable pub apply_planned : Result Error UnitPlan × W → AppliedTo W
  apply_planned (err e, w) = ((nothing_applied, some e), w)
  apply_planned (ok plan, w) = write plan w

  unfoldable pub apply_agent : VillaConfig → Option Error × W → AppliedTo W
  apply_agent cfg (some e, w) = ((nothing_applied, some e), w)
  apply_agent cfg (none, w) = apply_planned (d.plan cfg w)

  unfoldable pub apply_healed : Result Error VillaConfig × W → AppliedTo W
  apply_healed (err e, w) = ((nothing_applied, some (wrap "ensure inference secret" e)), w)
  apply_healed (ok cfg, w) = apply_agent cfg (heal_agent_config d.heal_agent_config cfg w)

  -- `Apply`
  unfoldable pub apply : VillaConfig → W → AppliedTo W
  apply cfg w = apply_healed (heal cfg w)
