-- ===== src/TaskRun/Loops.antt =====
-- internal/taskrun/worker.go, the loop of `run`: it comes to an end once the stream does.
use villa_straylight.Base.{
  if_cases, Among, All, ◌≡◌, refl, sym, ◌∙◌, subst, ap, ℕ, inl, inr, String, Bool, true, false, not,
  ◌&&◌, Option, none, some, List, [], ◌∷◌, arith, is_some, Bool-cases, if◌then◌else◌,
}
use villa_straylight.Approval.{Decision}
use villa_straylight.Approval.Answers.{decide}
use villa_straylight.Approval.Commands.{is_deletion}
use villa_straylight.TaskStore.{
  State, queued, running, awaiting_approval, done, flagged, failed, refused, interrupted,
  same_state, state_number, terminal, transitions, occurs_state, can_transition, Task,
}
use villa_straylight.TaskStore
use villa_straylight.TaskRun.Signals.{Earned, HasEnd, cancellation-Among}
use villa_straylight.TaskRun.{
  GrantAnswer, PermissionRequest, Event, permission_request, file, run_complete, files_read,
  bridge_ready, bridge_error, other_event, Signal, cancelled, answered, received, closed, Deps, Job,
}
use villa_straylight.TaskRun.Moves.{
  finish, finish_after_cancel, move_to, grant, request_of, park, decide_by, decide_request,
  answer_parked, answer_pending, add_file,
}
use villa_straylight.TaskRun.Audit.{audit}
use villa_straylight.TaskRun.Worker.{cancellation, on_event, settle, loop}
use villa_straylight.TaskRun.Live.{IsAt, IsLive, IsOver, finish-IsOver, move_to-IsLive}

unfoldable pub edges : Unit {0}
unfolding can_transition terminal transitions occurs_state same_state state_number
edges = tt

-- In the loop the record waits for an answer just where a request is parked.
abbrev pub expected : Option ℕ → State
expected none = running
expected (some n) = awaiting_approval

module _ (deps : Deps) (id : String) (ss : List Signal) where
  abbrev pub IsComplete : Bool → Type 0
  IsComplete b = b ≡ true → Among (received run_complete) ss

  -- A live record, and a run that is complete only if it was said to be.
  pub record InLoop (j : Job) : Type 0 where
    pub live : IsLive id (expected j.pending) j
    pub complete : IsComplete j.is_complete

  fails : (o : Option ℕ) → can_transition (expected o) failed ≡ true
  unfolding edges
  fails none = refl
  fails (some n) = refl

  abbrev pub Over : Job × Bool → Type 0
  Over r = (r.1 ≡ true) × IsOver id ss r.0

  pub finish-Over :
      (j : Job) (to : State) → InLoop j → Earned ss to → IsOver id ss (finish deps j to)
  finish-Over j to l over =
      finish-IsOver deps id ss (expected j.pending) to j l.live over (inr (fails j.pending))

  cancel-Over :
      (b : Bool) (j : Job)
      → Among (cancelled b) ss
      → InLoop j
      → IsOver id ss (finish_after_cancel deps b j)
  unfolding finish_after_cancel
  cancel-Over true j came l = finish-Over j interrupted l came
  cancel-Over false j came l = finish-Over j TaskStore.cancelled l came

  -- A job with the same record and the same parked request.
  same-InLoop :
      (j k : Job)
      → InLoop j
      → k.disk ≡ j.disk
      → k.task.id ≡ j.task.id
      → k.pending ≡ j.pending
      → IsComplete k.is_complete
      → InLoop k
  same-InLoop j k l d i p c = record {
    live = record {
      at =
          subst (λ o. IsAt id (expected o) k.disk) (sym p)
            (subst (IsAt id (expected j.pending)) (sym d) l.live.at);
      ours = i ∙ l.live.ours;
    };
    complete = c;
  }

  moved-InLoop :
      (s to : State) (k : Job)
      → IsLive id s k
      → can_transition s to ≡ true
      → expected k.pending ≡ to
      → IsComplete k.is_complete
      → InLoop (move_to deps k to (λ t. t))
  moved-InLoop s to k l can e c =
      let m = move_to-IsLive deps id s to (λ t. t) k l can (λ t. (refl, refl)) in
      record {
        live =
            subst (λ x. IsLive id x (move_to deps k to (λ t. t))) (sym (ap expected m.1 ∙ e)) m.0;
        complete = λ x. c (sym m.2 ∙ x);
      }

  unparked : (o : Option ℕ) → is_some o ≡ false → expected o ≡ running
  unparked none h = refl
  unparked (some n) h = absurd (ground (arith, h))

  -- Parking a request where none is.
  park-InLoop :
      (j : Job) (p : PermissionRequest)
      → is_some j.pending ≡ false
      → InLoop j
      → InLoop (park deps j p)
  unfolding park
  park-InLoop j p free l =
      moved-InLoop running awaiting_approval _
        (record {
          at = subst (λ x. IsAt id x j.disk) (unparked j.pending free) l.live.at;
          ours = l.live.ours;
        })
        (unfold edges in refl) refl l.complete

  asked-InLoop :
      (j : Job) (p : PermissionRequest) → InLoop j → InLoop (decide_by deps Decision.ask j p)
  unfolding decide_by grant
  asked-InLoop j p l = elim (Bool-cases (is_some j.pending)) [
    | inl busy ↦ rw (busy) (same-InLoop j _ l refl refl refl l.complete)
    | inr free ↦ elim (Bool-cases (j.session_allow && not (is_deletion p.command))) [
      | inl yes' ↦ rw (free, yes') (same-InLoop j _ l refl refl refl l.complete)
      | inr no' ↦ rw (free, no') (park-InLoop j p free l)
    ]
  ]

  decide_by-InLoop :
      (dn : Decision) (j : Job) (p : PermissionRequest) → InLoop j → InLoop (decide_by deps dn j p)
  decide_by-InLoop Decision.ask j p l = asked-InLoop j p l
  decide_by-InLoop Decision.allow j p l =
      unfold decide_by grant in same-InLoop j _ l refl refl refl l.complete
  decide_by-InLoop Decision.deny j p l =
      unfold decide_by grant in same-InLoop j _ l refl refl refl l.complete
  decide_by-InLoop Decision.unset j p l = unfold decide_by in l

  answer_parked-InLoop :
      (o : Option ℕ) (j : Job) (g : GrantAnswer) (by : String)
      → j.pending ≡ o
      → InLoop j
      → InLoop (answer_parked deps o j g by)
  unfolding answer_parked grant
  answer_parked-InLoop none j g by e l = l
  answer_parked-InLoop (some n) j g by e l =
      moved-InLoop awaiting_approval running _
        (record {
          at = subst (λ x. IsAt id x j.disk) (ap expected e) l.live.at;
          ours = l.live.ours;
        })
        (unfold edges in refl) refl l.complete

  on_event-InLoop :
      (e : Event) (j : Job) → Among (received e) ss → InLoop j → InLoop (on_event deps e j)
  unfolding on_event
  on_event-InLoop (permission_request none) j came l = l
  on_event-InLoop (permission_request (some p)) j came l =
      unfold decide_request in decide_by-InLoop (decide j.task.mode (request_of p)) j p l
  on_event-InLoop (file none) j came l = l
  on_event-InLoop (file (some path)) j came l =
      unfold add_file in same-InLoop j _ l refl refl refl l.complete
  on_event-InLoop run_complete j came l = same-InLoop j _ l refl refl refl (λ _. came)
  on_event-InLoop (files_read fs) j came l = same-InLoop j _ l refl refl refl l.complete
  on_event-InLoop (bridge_ready v) j came l = l
  on_event-InLoop bridge_error j came l = l
  on_event-InLoop other_event j came l = l

  audited :
      (b : Bool)
      → Among (received run_complete) ss × Among closed ss
      → Earned ss (if b then flagged else done)
  audited true h = h
  audited false h = h

  audit-Over :
      (j : Job) (o : Option Bool)
      → ((b : Bool) → o ≡ some b → Among (cancelled b) ss)
      → Among (received run_complete) ss × Among closed ss
      → InLoop j
      → IsOver id ss (audit deps j o)
  unfolding audit
  audit-Over j none came won l =
      finish-Over _ _ (same-InLoop j _ l refl refl refl l.complete) (audited _ won)
  audit-Over j (some b) came won l = cancel-Over b j (came b refl) l

  settle-Over :
      (j : Job) (rest : List Signal)
      → All (λ x. Among x ss) rest
      → Among closed ss
      → InLoop j
      → IsOver id ss (settle deps j rest)
  unfolding settle
  settle-Over j rest h end l =
      if_cases (IsOver id ss) j.is_complete
        (λ e.
          audit-Over j (cancellation rest) (λ b x. cancellation-Among ss rest b h x)
            (l.complete e, end) l)
        (λ _. finish-Over j failed l tt)

  pub loop-Over :
      (j : Job) (rest : List Signal)
      → All (λ x. Among x ss) rest
      → HasEnd rest
      → InLoop j
      → Over (loop deps j rest)
  unfolding loop
  loop-Over j [] came h l = absurd h
  loop-Over j (cancelled b ∷ rest) came h l = (refl, cancel-Over b j came.0 l)
  loop-Over j (closed ∷ rest) came h l = (refl, settle-Over j rest came.1 came.0 l)
  loop-Over j (answered g by ∷ rest) came h l =
      loop-Over (answer_pending deps j g by) rest came.1 h
        (unfold answer_pending in answer_parked-InLoop j.pending j g by refl l)
  loop-Over j (received e ∷ rest) came h l =
      loop-Over (on_event deps e j) rest came.1 h (on_event-InLoop e j came.0 l)
