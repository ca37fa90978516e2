-- ===== src/TaskRun/Worker.antt =====
-- internal/taskrun/worker.go: the loops of `run` and `awaitReady`.
use villa_straylight.Base.{
  String, Bool, true, false, Option, none, some, List, [], ◌∷◌, Result, ok, err, if◌then◌else◌,
}
use villa_straylight.Config.{VillaConfig}
use villa_straylight.TaskStore.{queued, running, failed, refused, same_state, Task}
use villa_straylight.TaskStore.Records.{Error, Disk, load}
use villa_straylight.TaskRun.{
  Event, permission_request, file, run_complete, files_read, bridge_ready, bridge_error,
  other_event, Signal, cancelled, answered, received, closed, Deps, Job,
}
use villa_straylight.TaskRun.Moves.{
  finish, finish_after_cancel, move_to, decide_request, answer_pending, add_file,
}
use villa_straylight.TaskRun.Audit.{audit}

-- The first cancellation among the signals.
unfoldable pub cancellation : List Signal → Option Bool
cancellation [] = none
cancellation (cancelled b ∷ ss) = some b
cancellation (_ ∷ ss) = cancellation ss

unfoldable pub new_job : Task → Disk → Job
new_job t d = record {
  task = t;
  session_allow = false;
  pending = none;
  pending_id = "";
  is_complete = false;
  files_read = [];
  seen = [];
  disk = d;
  grants = [];
}

module _ (deps : Deps) where
  unfoldable pub on_event : Event → Job → Job
  on_event (permission_request none) j = j
  on_event (permission_request (some p)) j = decide_request deps j p
  on_event (file none) j = j
  on_event (file (some path)) j = add_file j path
  on_event run_complete j = record j { is_complete = true }
  on_event (files_read fs) j = record j { files_read = fs }
  on_event (bridge_ready v) j = j
  on_event bridge_error j = j
  on_event other_event j = j

  -- `settle`; the signals that are left came before the audit ended.
  unfoldable pub settle : Job → List Signal → Job
  settle j rest =
      let audited = audit deps j (cancellation rest) in
      if j.is_complete then audited else finish deps j failed

  -- The loop of `run`. Where the signals end, it waits: the flag says whether it has returned.
  unfoldable pub loop : Job → List Signal → Job × Bool
  loop j [] = (j, false)
  loop j (cancelled b ∷ ss) = (finish_after_cancel deps b j, true)
  loop j (answered g by ∷ ss) = loop (answer_pending deps j g by) ss
  loop j (received e ∷ ss) = loop (on_event e j) ss
  loop j (closed ∷ ss) = (settle j ss, true)

  -- `run` from the event that the bridge is ready.
  unfoldable pub start : Job → String → List Signal → Job × Bool
  start j version ss =
      let t = j.task in
      let ready : Job = record j { task = record t { harness = ("crush", version) } } in
      let moved = move_to deps ready running (λ u. record u { started_at = deps.now }) in
      let looped = loop moved ss in
      if deps.sends_prompt then looped else (finish deps moved failed, true)

  -- The loop of `awaitReady`. No answer comes while no request is parked.
  unfoldable pub await_ready : Job → List Signal → Job × Bool
  await_ready j [] = (j, false)
  await_ready j (cancelled b ∷ ss) = (finish_after_cancel deps b j, true)
  await_ready j (answered g by ∷ ss) = await_ready j ss
  await_ready j (closed ∷ ss) = (finish deps j refused, true)
  await_ready j (received (bridge_ready v) ∷ ss) = start j v ss
  await_ready j (received bridge_error ∷ ss) = (finish deps j refused, true)
  await_ready j (received (permission_request p) ∷ ss) = await_ready j ss
  await_ready j (received (file p) ∷ ss) = await_ready j ss
  await_ready j (received run_complete ∷ ss) = await_ready j ss
  await_ready j (received (files_read fs) ∷ ss) = await_ready j ss
  await_ready j (received other_event ∷ ss) = await_ready j ss

  unfoldable pub launch : Job → Option (List String) → List Signal → Job × Bool
  launch j none ss = (finish deps j refused, true)
  launch j (some args) ss =
      let ran = await_ready j ss in
      if deps.launches args then ran else (finish deps j refused, true)

  unfoldable pub configure : Job → Option VillaConfig → List Signal → Job × Bool
  configure j none ss = (finish deps j refused, true)
  configure j (some cfg) ss = launch j (deps.render_args cfg j.task.workspace j.task.id) ss

  -- `run`, on the record as it was loaded; `none` is a record that is not queued.
  unfoldable pub run_loaded : Result Error Task → Disk → List Signal → Option (Job × Bool)
  run_loaded (err e) d ss = none
  run_loaded (ok t) d ss =
      let ran = configure (new_job t d) deps.load_config ss in
      if same_state t.state queued then some ran else none

  unfoldable pub run : String → Disk → List Signal → Option (Job × Bool)
  run id d ss = run_loaded (load id d) d ss
