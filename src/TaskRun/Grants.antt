-- ===== src/TaskRun/Grants.antt =====
-- internal/taskrun/worker.go: why a permission is granted.
use villa_straylight.Base.{
  ◌≡◌, refl, sym, ◌∙◌, subst, ap, ℕ, inl, inr, String, Bool, true, false, not, ◌&&◌, Option, none,
  some, List, ◌∷◌, arith, is_some, and-true, Bool-cases, if◌then◌else◌,
}
use villa_straylight.Approval.{Mode, Decision}
use villa_straylight.Approval.Answers.{decide}
use villa_straylight.Approval.Commands.{is_deletion}
use villa_straylight.TaskStore.{running, awaiting_approval}
use villa_straylight.TaskRun.{
  GrantAnswer, PermissionRequest, permission_request, Signal, answered, received, Deps, Job,
}
use villa_straylight.TaskRun.Moves.{
  grant, request_of, park, decide_by, decide_request, is_session, answer_parked, answer_pending,
  add_file,
}
use villa_straylight.TaskRun.Reasons.{
  Standing, after_asked, after_request, after_answer, after_event, after_signal, standing,
  IsJustified, by_table, by_policy, while_parked, by_session, by_operator, silent, sends,
}
use villa_straylight.TaskRun.Sound.{IsParked, IsSound, move_to-IsSound}

module _ (mode : Mode) (id : String) (deps : Deps) (h : List Signal) where
  heard :
      (s : Signal) (st : Standing)
      → standing mode h ≡ st
      → standing mode (s ∷ h) ≡ after_signal mode s st
  unfolding standing
  heard s st e = ap (after_signal mode s) e

  -- A signal on which no answer is sent and nothing changes that matters here.
  pub silent-IsSound :
      (s : Signal) (st : Standing) (j : Job)
      → after_signal mode s st ≡ st
      → IsSound mode id h st j
      → IsSound mode id (s ∷ h) st j
  silent-IsSound s st j e k = record {
    at = heard s st k.at ∙ e;
    grants = silent s k.grants;
    ours = k.ours;
    stored = k.stored;
    session = k.session;
    parked = k.parked;
  }

  -- A signal on which one answer is sent, where no request is parked by it or answered.
  sent-IsSound :
      (s : Signal) (st : Standing) (j : Job) (k : String) (g : GrantAnswer)
      → after_signal mode s st ≡ st
      → IsJustified mode h s k g
      → IsSound mode id h st j
      → IsSound mode id (s ∷ h) st (grant k g j)
  unfolding grant
  sent-IsSound s st j k g e why i = record {
    at = heard s st i.at ∙ e;
    grants = sends k g i.grants why;
    ours = i.ours;
    stored = i.stored;
    session = i.session;
    parked = i.parked;
  }

  module _ (p : PermissionRequest) where
    abbrev asks : Signal
    asks = received (permission_request (some p))

    asked-at :
        (dn : Decision) (st : Standing)
        → decide mode (request_of p) ≡ dn
        → after_signal mode asks st ≡ after_request dn p st
    unfolding after_signal after_event
    asked-at dn st e = ap (λ d. after_request d p st) e

    park-IsSound :
        (b : Bool) (j : Job)
        → standing mode (asks ∷ h) ≡ (some p, b)
        → IsSound mode id h (none, b) j
        → IsSound mode id (asks ∷ h) (some p, b) (park deps j p)
    unfolding park
    park-IsSound b j at i =
        move_to-IsSound mode id deps (asks ∷ h) (some p, b) _ awaiting_approval (λ t. t)
          (λ t. (refl, refl))
          (record {
            at = at;
            grants = silent asks i.grants;
            ours = i.ours;
            stored = i.stored;
            session = i.session;
            parked = refl;
          })

    -- No request waits: the session covers it, or it is parked.
    free-IsSound :
        (b : Bool) (j : Job)
        → decide mode (request_of p) ≡ Decision.ask
        → j.pending ≡ none
        → IsSound mode id h (none, b) j
        → IsSound mode id (asks ∷ h) (after_asked p (none, b)) (decide_by deps Decision.ask j p)
    unfolding decide_by grant after_asked
    free-IsSound b j e free i =
        let at : standing mode (asks ∷ h) ≡ after_asked p (none, b) =
          heard asks (none, b) i.at
          ∙ (asked-at Decision.ask (none, b) e ∙ unfold after_request in refl) in
        let idle : is_some j.pending ≡ false = ap (λ o. is_some o) free in
        elim (Bool-cases (j.session_allow && not (is_deletion p.command))) [
          | inl covered ↦
              let parts = and-true j.session_allow (not (is_deletion p.command)) covered in
              let on : b ≡ true = sym i.session ∙ parts.0 in
              let keeps : is_deletion p.command ≡ false = ground (arith, parts.1) in
              let none_left : (if b && not (is_deletion p.command) then none else some p) ≡ none =
                rw (on, keeps) refl in
              rw (idle, covered)
                (record {
                  at = at;
                  grants =
                      sends p.id GrantAnswer.allow i.grants
                        (by_session p e (i.at ∙ ap (λ x. (none, x)) on) keeps);
                  ours = i.ours;
                  stored = i.stored;
                  session = i.session;
                  parked = subst (IsParked j.pending j.pending_id) (sym none_left) i.parked;
                })
          | inr uncovered ↦
              let same : (b && not (is_deletion p.command)) ≡ false =
                subst (λ x. (x && not (is_deletion p.command)) ≡ false) i.session uncovered in
              let waits : after_asked p (none, b) ≡ (some p, b) =
                ap (λ x. (if x then none else some p, b)) same in
              rw (idle, uncovered)
                (subst (λ st. IsSound mode id (asks ∷ h) st (park deps j p)) (sym waits)
                  (park-IsSound b j (at ∙ waits) i))
        ]

    asked-IsSound :
        (o : Option ℕ) (st : Standing) (j : Job)
        → decide mode (request_of p) ≡ Decision.ask
        → j.pending ≡ o
        → IsSound mode id h st j
        → IsSound mode id (asks ∷ h) (after_asked p st) (decide_by deps Decision.ask j p)
    asked-IsSound none (none, b) j e o i = free-IsSound b j e o i
    asked-IsSound (some n) (none, b) j e o i =
        absurd (subst (λ x. IsParked x j.pending_id none) o i.parked)
    asked-IsSound none (some q, b) j e o i =
        absurd (subst (λ x. IsParked x j.pending_id (some q)) o i.parked)
    asked-IsSound (some n) (some q, b) j e o i =
        let busy : is_some j.pending ≡ true = ap (λ x. is_some x) o in
        unfold decide_by after_asked in
        rw (busy) (
          sent-IsSound asks (some q, b) j p.id GrantAnswer.deny
            (asked-at Decision.ask (some q, b) e ∙ unfold after_request after_asked in refl)
            (while_parked p q e (ap (λ x. x.0) i.at)) i)

    decide_by-IsSound :
        (dn : Decision) (st : Standing) (j : Job)
        → decide mode (request_of p) ≡ dn
        → IsSound mode id h st j
        → IsSound mode id (asks ∷ h) (after_request dn p st) (decide_by deps dn j p)
    unfolding after_request
    decide_by-IsSound Decision.ask st j e i = asked-IsSound j.pending st j e refl i
    decide_by-IsSound Decision.allow st j e i =
        unfold decide_by in
        sent-IsSound asks st j p.id GrantAnswer.allow (asked-at Decision.allow st e) (by_table p e)
          i
    decide_by-IsSound Decision.deny st j e i =
        unfold decide_by in
        sent-IsSound asks st j p.id GrantAnswer.deny (asked-at Decision.deny st e) (by_policy p e) i
    decide_by-IsSound Decision.unset st j e i =
        unfold decide_by in silent-IsSound asks st j (asked-at Decision.unset st e) i

    pub decide_request-IsSound :
        (st : Standing) (j : Job)
        → IsSound mode id h st j
        → IsSound mode id (asks ∷ h) (after_signal mode asks st) (decide_request deps j p)
    unfolding decide_request after_signal after_event
    decide_request-IsSound st j i =
        subst
          (λ m.
            IsSound mode id (asks ∷ h) (after_request (decide mode (request_of p)) p st)
              (decide_by deps (decide m (request_of p)) j p))
          (sym i.ours.0) (decide_by-IsSound (decide mode (request_of p)) st j refl i)

  answer_parked-IsSound :
      (o : Option ℕ) (st : Standing) (j : Job) (g : GrantAnswer) (by : String)
      → j.pending ≡ o
      → IsSound mode id h st j
      → IsSound mode id (answered g by ∷ h) (after_answer g st) (answer_parked deps o j g by)
  unfolding answer_parked grant after_answer after_signal
  answer_parked-IsSound none (none, b) j g by o i =
      silent-IsSound (answered g by) (none, b) j refl i
  answer_parked-IsSound (some n) (none, b) j g by o i =
      absurd (subst (λ x. IsParked x j.pending_id none) o i.parked)
  answer_parked-IsSound none (some q, b) j g by o i =
      absurd (subst (λ x. IsParked x j.pending_id (some q)) o i.parked)
  answer_parked-IsSound (some n) (some q, b) j g by o i =
      let named = subst (λ x. IsParked x j.pending_id (some q)) o i.parked in
      let why : IsJustified mode h (answered g by) q.id g =
        by_operator q g by (ap (λ x. x.0) i.at) in
      move_to-IsSound mode id deps (answered g by ∷ h) (none, if is_session g then true else b) _
        running (λ u. u) (λ t. (refl, refl))
        (record {
          at = heard (answered g by) (some q, b) i.at;
          grants =
              sends j.pending_id g i.grants
                (subst (λ k. IsJustified mode h (answered g by) k g) named why);
          ours = i.ours;
          stored = i.stored;
          session = ap (λ x. if is_session g then true else x) i.session;
          parked = tt;
        })

  pub answer_pending-IsSound :
      (st : Standing) (j : Job) (g : GrantAnswer) (by : String)
      → IsSound mode id h st j
      → IsSound mode id (answered g by ∷ h) (after_answer g st) (answer_pending deps j g by)
  unfolding answer_pending
  answer_pending-IsSound st j g by = answer_parked-IsSound j.pending st j g by refl

  pub add_file-IsSound :
      (st : Standing) (j : Job) (path : List ℕ)
      → IsSound mode id h st j
      → IsSound mode id h st (add_file j path)
  unfolding add_file
  add_file-IsSound st j path i = record {
    at = i.at;
    grants = i.grants;
    ours = i.ours;
    stored = i.stored;
    session = i.session;
    parked = i.parked;
  }
