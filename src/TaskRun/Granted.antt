-- ===== src/TaskRun/Granted.antt =====
-- internal/taskrun/worker.go, `run`: every answer that a task gets is justified.
use villa_straylight.Base.{
  if_both, ◌≡◌, refl, sym, ◌∙◌, ap, String, Bool, true, false, Option, none, some, List, [], ◌∷◌,
  ok, ok-injective, if◌then◌else◌,
}
use villa_straylight.Config.{VillaConfig}
use villa_straylight.Approval.{Mode}
use villa_straylight.TaskStore.{State, running, failed, refused, Task}
use villa_straylight.TaskStore.Records.{Disk, load}
use villa_straylight.TaskStore.Filed.{AllFiled, find-IsFiled}
use villa_straylight.TaskStore.Keeps.{load-find}
use villa_straylight.TaskRun.{
  GrantAnswer, Event, permission_request, file, run_complete, files_read, bridge_ready,
  bridge_error, other_event, Signal, cancelled, answered, received, closed, Deps, Job,
}
use villa_straylight.TaskRun.Moves.{finish, finish_after_cancel, answer_pending}
use villa_straylight.TaskRun.Audit.{audit}
use villa_straylight.TaskRun.Worker.{
  cancellation, on_event, settle, loop, start, await_ready, new_job, launch, configure, run_loaded,
  run,
}
use villa_straylight.TaskRun.Reasons.{
  Standing, standing, after_signal, after_event, Explains, starts, Reads, stops, reads, During,
  never, skips, begins,
}
use villa_straylight.TaskRun.Stored.{IsOurs, IsStored}
use villa_straylight.TaskRun.Sound.{IsSound, finish-IsSound, move_to-IsSound, with_task-IsSound}
use villa_straylight.TaskRun.Grants.{
  silent-IsSound, decide_request-IsSound, answer_pending-IsSound, add_file-IsSound,
}

module _ (mode : Mode) (id : String) (deps : Deps) where
  -- The job is sound after the signals that were read.
  abbrev After : List Signal → Job → Type 0
  After h j = (st : Standing) × IsSound mode id h st j

  -- The loop reads a part of the signals that are left.
  abbrev Loops : List Signal → List Signal → Job → Type 0
  Loops h rest j = (h' : List Signal) × Reads h rest h' × After h' j

  -- A run that has come to the loop, or has not.
  abbrev Runs : List Signal → Job → Type 0
  Runs ss j = (h : List Signal) × During ss h × After h j

  finish-After : (h : List Signal) (j : Job) (to : State) → After h j → After h (finish deps j to)
  finish-After h j to (st, s) = (st, finish-IsSound mode id deps h st j to s)

  cancel-After :
      (h : List Signal) (j : Job) (b : Bool) → After h j → After h (finish_after_cancel deps b j)
  unfolding finish_after_cancel
  cancel-After h j b s = finish-After h j _ s

  on_event-After :
      (h : List Signal) (e : Event) (j : Job)
      → After h j
      → After (received e ∷ h) (on_event deps e j)
  unfolding on_event after_signal after_event
  on_event-After h (permission_request none) j (st, s) =
      (st, silent-IsSound mode id deps h _ st j refl s)
  on_event-After h (permission_request (some p)) j (st, s) =
      (_, decide_request-IsSound mode id deps h p st j s)
  on_event-After h (file none) j (st, s) = (st, silent-IsSound mode id deps h _ st j refl s)
  on_event-After h (file (some path)) j (st, s) =
      (st, silent-IsSound mode id deps h _ st _ refl (add_file-IsSound mode id deps h st j path s))
  on_event-After h run_complete j (st, s) = (
    st,
    silent-IsSound mode id deps h _ st _ refl (record {
      at = s.at;
      grants = s.grants;
      ours = s.ours;
      stored = s.stored;
      session = s.session;
      parked = s.parked;
    }),
  )
  on_event-After h (files_read fs) j (st, s) = (
    st,
    silent-IsSound mode id deps h _ st _ refl (record {
      at = s.at;
      grants = s.grants;
      ours = s.ours;
      stored = s.stored;
      session = s.session;
      parked = s.parked;
    }),
  )
  on_event-After h (bridge_ready v) j (st, s) = (st, silent-IsSound mode id deps h _ st j refl s)
  on_event-After h bridge_error j (st, s) = (st, silent-IsSound mode id deps h _ st j refl s)
  on_event-After h other_event j (st, s) = (st, silent-IsSound mode id deps h _ st j refl s)

  audit-After : (h : List Signal) (j : Job) (o : Option Bool) → After h j → After h (audit deps j o)
  unfolding audit
  audit-After h j none (st, s) =
      finish-After h _ _ (st, with_task-IsSound mode id deps h st j _ s.ours s)
  audit-After h j (some b) s = cancel-After h j b s

  settle-After :
      (h : List Signal) (j : Job) (rest : List Signal) → After h j → After h (settle deps j rest)
  unfolding settle
  settle-After h j rest s =
      if_both (After h) _ (audit-After h j (cancellation rest) s) (finish-After h j failed s)

  loop-Loops :
      (h : List Signal) (j : Job) (rest : List Signal)
      → After h j
      → Loops h rest (loop deps j rest).0
  unfolding loop
  loop-Loops h j [] s = (h, stops h [], s)
  loop-Loops h j (cancelled b ∷ rest) s = (h, stops h _, cancel-After h j b s)
  loop-Loops h j (answered g by ∷ rest) (st, s) =
      let r =
        loop-Loops (answered g by ∷ h) (answer_pending deps j g by) rest
          (_, answer_pending-IsSound mode id deps h st j g by s) in
      (r.0, reads r.1, r.2)
  loop-Loops h j (received e ∷ rest) s =
      let r = loop-Loops (received e ∷ h) (on_event deps e j) rest (on_event-After h e j s) in
      (r.0, reads r.1, r.2)
  loop-Loops h j (closed ∷ rest) s = (h, stops h _, settle-After h j rest s)

  start-Loops :
      (j : Job) (v : String) (rest : List Signal)
      → After [] j
      → Loops [] rest (start deps j v rest).0
  unfolding start
  start-Loops j v rest (st, s) =
      let ready = with_task-IsSound mode id deps [] st j _ s.ours s in
      let moved =
        move_to-IsSound mode id deps [] st _ running (λ u. record u { started_at = deps.now })
          (λ t. (refl, refl)) ready in
      if_both {A = Job × Bool} (λ r. Loops [] rest r.0) _ (loop-Loops [] _ rest (st, moved))
        ([], stops [] rest, finish-After [] _ failed (st, moved))

  skipped : (x : Signal) (ss : List Signal) (j : Job) → Runs ss j → Runs (x ∷ ss) j
  skipped x ss j (h, d, s) = (h, skips x d, s)

  await_ready-Runs : (j : Job) (ss : List Signal) → After [] j → Runs ss (await_ready deps j ss).0
  unfolding await_ready
  await_ready-Runs j [] s = ([], never [], s)
  await_ready-Runs j (cancelled b ∷ ss) s = ([], never _, cancel-After [] j b s)
  await_ready-Runs j (answered g by ∷ ss) s = skipped _ ss _ (await_ready-Runs j ss s)
  await_ready-Runs j (closed ∷ ss) s = ([], never _, finish-After [] j refused s)
  await_ready-Runs j (received (bridge_ready v) ∷ ss) s =
      let r = start-Loops j v ss s in (r.0, begins v r.1, r.2)
  await_ready-Runs j (received bridge_error ∷ ss) s = ([], never _, finish-After [] j refused s)
  await_ready-Runs j (received (permission_request p) ∷ ss) s =
      skipped _ ss _ (await_ready-Runs j ss s)
  await_ready-Runs j (received (file p) ∷ ss) s = skipped _ ss _ (await_ready-Runs j ss s)
  await_ready-Runs j (received run_complete ∷ ss) s = skipped _ ss _ (await_ready-Runs j ss s)
  await_ready-Runs j (received (files_read fs) ∷ ss) s = skipped _ ss _ (await_ready-Runs j ss s)
  await_ready-Runs j (received other_event ∷ ss) s = skipped _ ss _ (await_ready-Runs j ss s)

  launch-Runs :
      (j : Job) (o : Option (List String)) (ss : List Signal)
      → After [] j
      → Runs ss (launch deps j o ss).0
  unfolding launch
  launch-Runs j none ss s = ([], never ss, finish-After [] j refused s)
  launch-Runs j (some args) ss s =
      if_both {A = Job × Bool} (λ r. Runs ss r.0) _ (await_ready-Runs j ss s)
        ([], never ss, finish-After [] j refused s)

  configure-Runs :
      (j : Job) (o : Option VillaConfig) (ss : List Signal)
      → After [] j
      → Runs ss (configure deps j o ss).0
  unfolding configure
  configure-Runs j none ss s = ([], never ss, finish-After [] j refused s)
  configure-Runs j (some cfg) ss s = launch-Runs j _ ss s

  new_job-After :
      (t : Task) (d : Disk) → IsOurs mode id t → IsStored mode id d → After [] (new_job t d)
  unfolding new_job
  new_job-After t d o h = (
    (none, false),
    record {
      at = unfold standing in refl;
      grants = starts;
      ours = o;
      stored = h;
      session = refl;
      parked = tt;
    },
  )

-- The answers that a run has sent, the latest first.
abbrev pub grants_of : Option (Job × Bool) → List (String × GrantAnswer)
grants_of none = []
grants_of (some (j, over)) = j.grants

-- The signals that were read account for the answers.
abbrev pub AreExplained : Mode → List Signal → List (String × GrantAnswer) → Type 0
AreExplained mode ss gs = (h : List Signal) × During ss h × Explains mode h gs

if-AreExplained :
    (mode : Mode) (ss : List Signal) (b : Bool) (x : Job × Bool)
    → AreExplained mode ss x.0.grants
    → AreExplained mode ss (grants_of (if b then some x else none))
if-AreExplained mode ss true (j, over) h = h
if-AreExplained mode ss false x h = ([], never ss, starts)

-- On a directory that is in order, each answer that the worker of a task sends to the sandbox is
-- sent on a signal of its own, which its loop reads once the bridge is ready. Either the signal is
-- the request that is answered: the table allows it; or the table denies it; or the table asks, and
-- it is denied since another request waits; or the table asks, none waits, and it is allowed under an
-- earlier answer for the session, and is no deletion. Or the signal is the operator's answer, which
-- is sent as it is, for the request that waits at that time.
pub run-AreExplained :
    (deps : Deps) (id : String) (d : Disk) (t : Task) (ss : List Signal)
    → AllFiled d
    → load id d ≡ ok t
    → AreExplained t.mode ss (grants_of (run deps id d ss))
unfolding run run_loaded
run-AreExplained deps id d t ss filed e =
    let named = find-IsFiled id t d.records filed (load-find id d t e) in
    let stored : IsStored t.mode id d = λ w k.
      let same = ok-injective (sym e ∙ k) in
      (ap (λ x. x.mode) (sym same), ap (λ x. x.id) (sym same) ∙ named.0) in
    let s = new_job-After t.mode id deps t d (refl, named.0) stored in
    let (h, during, (st, sound)) =
      configure-Runs t.mode id deps (new_job t d) deps.load_config ss s in
    rw (e) (if-AreExplained t.mode ss _ _ (h, during, sound.grants))
