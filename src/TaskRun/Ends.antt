-- ===== src/TaskRun/Ends.antt =====
-- internal/taskrun/worker.go, `run`: a task whose stream ends or that is cancelled comes to an end.
use villa_straylight.Base.{
  if_both, All, Among, All-Among, arith, ◌≡◌, refl, sym, ◌∙◌, subst, ap, inl, String, Bool, true,
  false, Option, none, some, List, [], ◌∷◌, ok,
}
use villa_straylight.Config.{VillaConfig}
use villa_straylight.TaskStore.{
  State, queued, running, awaiting_approval, done, flagged, failed, refused, interrupted,
  same_state, state_number, terminal, transitions, occurs_state, can_transition, Task,
}
use villa_straylight.TaskStore
use villa_straylight.TaskStore.Records.{Disk, load}
use villa_straylight.TaskStore.Filed.{AllFiled, find-IsFiled}
use villa_straylight.TaskStore.Keeps.{load-find}
use villa_straylight.TaskRun.Signals.{HasEnd}
use villa_straylight.TaskRun.{
  permission_request, file, run_complete, files_read, bridge_ready, bridge_error, other_event,
  Signal, cancelled, answered, received, closed, Deps, Job,
}
use villa_straylight.TaskRun.Moves.{finish, finish_after_cancel, move_to}
use villa_straylight.TaskRun.Worker.{
  start, await_ready, new_job, launch, configure, run_loaded, run,
}
use villa_straylight.TaskRun.Live.{IsLive, IsOver, finish-IsOver, move_to-IsLive}
use villa_straylight.TaskRun.Loops.{edges, expected, InLoop, Over, finish-Over, loop-Over}

module _ (deps : Deps) (id : String) (ss : List Signal) where
  -- Before the bridge is ready the record is queued and no request is parked.
  record Waits (j : Job) : Type 0 where
    live : IsLive id queued j
    free : j.pending ≡ none
    fresh : j.is_complete ≡ false

  refuse-Over : (j : Job) → Waits j → Over deps id ss (finish deps j refused, true)
  refuse-Over j w =
      (refl, finish-IsOver deps id ss queued refused j w.live tt (inl (unfold edges in refl)))

  cancel_early-Over :
      (b : Bool) (j : Job)
      → Among (cancelled b) ss
      → Waits j
      → IsOver id ss (finish_after_cancel deps b j)
  unfolding finish_after_cancel
  cancel_early-Over true j came w =
      finish-IsOver deps id ss queued interrupted j w.live came (inl (unfold edges in refl))
  cancel_early-Over false j came w =
      finish-IsOver deps id ss queued TaskStore.cancelled j w.live came (inl (unfold edges in refl))

  start-Over :
      (j : Job) (v : String) (rest : List Signal)
      → All (λ x. Among x ss) rest
      → HasEnd rest
      → Waits j
      → Over deps id ss (start deps j v rest)
  unfolding start
  start-Over j v rest came h w =
      let t = j.task in
      let ready : Job = record j { task = record t { harness = ("crush", v) } } in
      let f : Task → Task = λ u. record u { started_at = deps.now } in
      let m =
        move_to-IsLive deps id queued running f ready
          (record { at = w.live.at; ours = w.live.ours }) (unfold edges in refl)
          (λ u. (refl, refl)) in
      let l : InLoop deps id ss (move_to deps ready running f) = record {
        live =
            subst (λ o. IsLive id (expected o) (move_to deps ready running f)) (sym (m.1 ∙ w.free))
              m.0;
        complete = λ x. absurd (ground (arith, sym x ∙ (m.2 ∙ w.fresh)));
      } in
      if_both (Over deps id ss) _ (loop-Over deps id ss _ rest came h l)
        (refl, finish-Over deps id ss (move_to deps ready running f) failed l tt)

  await_ready-Over :
      (j : Job) (rest : List Signal)
      → All (λ x. Among x ss) rest
      → HasEnd rest
      → Waits j
      → Over deps id ss (await_ready deps j rest)
  unfolding await_ready
  await_ready-Over j [] came h w = absurd h
  await_ready-Over j (cancelled b ∷ rest) came h w = (refl, cancel_early-Over b j came.0 w)
  await_ready-Over j (answered g by ∷ rest) came h w = await_ready-Over j rest came.1 h w
  await_ready-Over j (closed ∷ rest) came h w = refuse-Over j w
  await_ready-Over j (received (bridge_ready v) ∷ rest) came h w = start-Over j v rest came.1 h w
  await_ready-Over j (received bridge_error ∷ rest) came h w = refuse-Over j w
  await_ready-Over j (received (permission_request p) ∷ rest) came h w =
      await_ready-Over j rest came.1 h w
  await_ready-Over j (received (file p) ∷ rest) came h w = await_ready-Over j rest came.1 h w
  await_ready-Over j (received run_complete ∷ rest) came h w = await_ready-Over j rest came.1 h w
  await_ready-Over j (received (files_read fs) ∷ rest) came h w = await_ready-Over j rest came.1 h w
  await_ready-Over j (received other_event ∷ rest) came h w = await_ready-Over j rest came.1 h w

  launch-Over :
      (j : Job) (o : Option (List String))
      → HasEnd ss
      → Waits j
      → Over deps id ss (launch deps j o ss)
  unfolding launch
  launch-Over j none h w = refuse-Over j w
  launch-Over j (some args) h w =
      if_both (Over deps id ss) _ (await_ready-Over j ss (All-Among ss) h w) (refuse-Over j w)

  configure-Over :
      (j : Job) (o : Option VillaConfig)
      → HasEnd ss
      → Waits j
      → Over deps id ss (configure deps j o ss)
  unfolding configure
  configure-Over j none h w = refuse-Over j w
  configure-Over j (some cfg) h w = launch-Over j _ h w

-- A run that has returned, and whose record is in a state that the signals account for.
abbrev pub Ended : String → List Signal → Option (Job × Bool) → Type 0
Ended id ss none = ⊥
Ended id ss (some (j, returned)) = (returned ≡ true) × IsOver id ss j

-- On a directory that is in order, where the record of a queued task can be written, the worker of
-- the task returns and leaves the record in a terminal state, whatever signals come, once the
-- bridge's stream ends or a cancellation comes. The record says done or flagged only if the run was
-- said to be complete and the stream ended, and cancelled or interrupted only if such a
-- cancellation came.
pub run-Ended :
    (deps : Deps) (id : String) (d : Disk) (t : Task) (ss : List Signal)
    → AllFiled d
    → load id d ≡ ok t
    → t.state ≡ queued
    → d.unwritable id ≡ false
    → HasEnd ss
    → Ended id ss (run deps id d ss)
unfolding run run_loaded
run-Ended deps id d t ss filed e q writable h =
    let named = find-IsFiled id t d.records filed (load-find id d t e) in
    let w : Waits deps id ss (new_job t d) =
      unfold new_job in
      record {
        live = record {
          at = record { stored = t; loads = e; named = named.0; state = q; writable = writable };
          ours = named.0;
        };
        free = refl;
        fresh = refl;
      } in
    let r = configure-Over deps id ss (new_job t d) deps.load_config h w in
    let is_queued : same_state t.state queued ≡ true =
      ap (λ s. same_state s queued) q ∙ unfold edges in refl in
    rw (e, is_queued) r
