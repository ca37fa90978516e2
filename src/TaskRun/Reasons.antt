-- ===== src/TaskRun/Reasons.antt =====
-- internal/taskrun/worker.go: when an answer to a permission request is justified, told from the
-- signals that the loop has read, the latest first, and not from the job.
use villa_straylight.Base.{
  ◌≡◌, String, Bool, true, false, not, ◌&&◌, Option, none, some, List, [], ◌∷◌, if◌then◌else◌,
}
use villa_straylight.Approval.{Mode, Decision}
use villa_straylight.Approval.Answers.{decide}
use villa_straylight.Approval.Commands.{is_deletion}
use villa_straylight.TaskRun.{
  GrantAnswer, PermissionRequest, Event, permission_request, bridge_ready, Signal, answered,
  received,
}
use villa_straylight.TaskRun.Moves.{request_of, is_session}

-- The request that waits for the operator, and whether the operator allowed the session.
abbrev pub Standing : Type 0
Standing = Option PermissionRequest × Bool

-- A request that the table asks about waits where none does, unless the session covers it: an
-- answer for the session covers no deletion.
unfoldable pub after_asked : PermissionRequest → Standing → Standing
after_asked p (some q, b) = (some q, b)
after_asked p (none, b) = (if b && not (is_deletion p.command) then none else some p, b)

unfoldable pub after_request : Decision → PermissionRequest → Standing → Standing
after_request Decision.ask p st = after_asked p st
after_request Decision.allow p st = st
after_request Decision.deny p st = st
after_request Decision.unset p st = st

-- An answer is for the request that waits; with none it is for nothing.
unfoldable pub after_answer : GrantAnswer → Standing → Standing
after_answer g (none, b) = (none, b)
after_answer g (some p, b) = (none, if is_session g then true else b)

unfoldable pub after_event : Mode → Event → Standing → Standing
after_event mode (permission_request (some p)) st = after_request (decide mode (request_of p)) p st
after_event mode _ st = st

unfoldable pub after_signal : Mode → Signal → Standing → Standing
after_signal mode (answered g by) st = after_answer g st
after_signal mode (received e) st = after_event mode e st
after_signal mode _ st = st

unfoldable pub standing : Mode → List Signal → Standing
standing mode [] = (none, false)
standing mode (s ∷ h) = after_signal mode s (standing mode h)

-- The reasons for an answer that is sent on a signal, after the earlier ones.
pub data IsJustified (mode : Mode) (h : List Signal) : Signal → String → GrantAnswer → Type 0 where
  by_table :
      (p : PermissionRequest)
      → decide mode (request_of p) ≡ Decision.allow
      → IsJustified mode h (received (permission_request (some p))) p.id GrantAnswer.allow
  by_policy :
      (p : PermissionRequest)
      → decide mode (request_of p) ≡ Decision.deny
      → IsJustified mode h (received (permission_request (some p))) p.id GrantAnswer.deny
  while_parked :
      (p q : PermissionRequest)
      → decide mode (request_of p) ≡ Decision.ask
      → (standing mode h).0 ≡ some q
      → IsJustified mode h (received (permission_request (some p))) p.id GrantAnswer.deny
  by_session :
      (p : PermissionRequest)
      → decide mode (request_of p) ≡ Decision.ask
      → standing mode h ≡ (none, true)
      → is_deletion p.command ≡ false
      → IsJustified mode h (received (permission_request (some p))) p.id GrantAnswer.allow
  by_operator :
      (p : PermissionRequest) (g : GrantAnswer) (by : String)
      → (standing mode h).0 ≡ some p
      → IsJustified mode h (answered g by) p.id g

-- Answers sent, the latest first: each on a signal of its own, when it was the latest.
pub data Explains (mode : Mode) : List Signal → List (String × GrantAnswer) → Type 0 where
  starts : Explains mode [] []
  silent :
      (s : Signal) {h : List Signal} {gs : List (String × GrantAnswer)}
      → Explains mode h gs
      → Explains mode (s ∷ h) gs
  sends :
      {s : Signal} {h : List Signal} {gs : List (String × GrantAnswer)} (id : String)
      (g : GrantAnswer)
      → Explains mode h gs
      → IsJustified mode h s id g
      → Explains mode (s ∷ h) ((id, g) ∷ gs)

-- The loop has read `h` and reads a part of the signals that are left.
pub data Reads : List Signal → List Signal → List Signal → Type 0 where
  stops : (h rest : List Signal) → Reads h rest h
  reads : {s : Signal} {h rest h' : List Signal} → Reads (s ∷ h) rest h' → Reads h (s ∷ rest) h'

-- What the loop reads comes after the event that the bridge is ready.
pub data During : List Signal → List Signal → Type 0 where
  never : (ss : List Signal) → During ss []
  skips : (s : Signal) {ss h : List Signal} → During ss h → During (s ∷ ss) h
  begins :
      (v : String) {ss h : List Signal} → Reads [] ss h → During (received (bridge_ready v) ∷ ss) h
