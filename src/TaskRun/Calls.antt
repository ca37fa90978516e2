-- ===== src/TaskRun/Calls.antt =====
-- internal/taskrun: any interleaving of the users' calls and the worker's moves.
use villa_straylight.Base.{
  ℕ, zero, suc, occurs, ok, ◌≡◌, String, Bool, true, false, Option, none, some, List, [], ◌∷◌, All,
}
use villa_straylight.TaskStore.Records.{valid_id, Disk}
use villa_straylight.TaskStore.{Task}
use villa_straylight.TaskRun.{GrantAnswer, Deps}
use villa_straylight.TaskRun.Queue.{
  Active, Submission, Runner, Refusal, Call, returned, SubmitRequest, new_active, answer,
  close_current, cancel, flying_ids, may_create, create_write, finish_create, enqueue,
  cancel_record, prepare,
}
use villa_straylight.TaskRun.Held.{HasRecord, Grows, IsDistinct, held}

pub data Request : Type 0 where
  answers : String → GrantAnswer → Request
  cancels : String → Request
  closes : Request

-- What a call does under the lock.
unfoldable pub call : Request → Runner → Call
call (answers id g) r = answer id g r
call (cancels id) r = cancel id r
call closes r = close_current r.current r

-- The submission that stands at a position.
abbrev pub IsAt : ℕ → Submission → List Submission → Type 0
IsAt n x [] = ⊥
IsAt zero x (y ∷ ys) = x ≡ y
IsAt (suc n) x (y ∷ ys) = IsAt n x ys

-- A part of a call, or a move of the worker: `decide` parks a request only where none is parked, and
-- the worker's writes remove no record and rename none.
pub data Step (deps : Deps) : Runner → Runner → Type 0 where
  looks :
      (req : SubmitRequest) (id : String) (r : Runner) (t : Task)
      → prepare deps req id ≡ ok t
      → may_create t r.disk ≡ none
      → Step deps r (record r { flying = record { task = t; is_created = false } ∷ r.flying })
  creates :
      (r : Runner) (n : ℕ) (x : Submission)
      → IsAt n x r.flying
      → x.is_created ≡ false
      → Step deps r (finish_create n (create_write x.task r.disk) r)
  enqueues :
      (r : Runner) (n : ℕ) (x : Submission)
      → IsAt n x r.flying
      → x.is_created ≡ true
      → Step deps r (enqueue n x.task r)
  calls :
      (q : Request) (r e : Runner) (x : Option Refusal) → call q r ≡ returned x e → Step deps r e
  cancels_record :
      (id : String) (r : Runner)
      → Step deps r (record r { disk = (cancel_record deps id r.disk).1 })
  stops : (r : Runner) → Step deps r (record r { is_stopped = true })
  checks : (r : Runner) → r.is_stopped ≡ false → Step deps r (record r { is_checked = true })
  takes :
      (r : Runner) (id : String) (q : List String)
      → r.is_checked ≡ true
      → r.current ≡ none
      → r.queue ≡ id ∷ q
      → Step deps r (record r { queue = q; current = some (new_active id); is_checked = false })
  parks :
      (r : Runner) (a : Active)
      → r.current ≡ some a
      → a.parked ≡ false
      → Step deps r (record r { current = some (record a { awaiting = true; parked = true }) })
  receives_answer :
      (r : Runner) (a : Active) (x : GrantAnswer × String) (xs : List (GrantAnswer × String))
      → r.current ≡ some a
      → a.answers ≡ x ∷ xs
      → Step deps r (record r { current = some (record a { answers = xs; parked = false }) })
  receives_cancel :
      (r : Runner) (a : Active) (xs : List (Unit {0}))
      → r.current ≡ some a
      → a.cancels ≡ tt ∷ xs
      → Step deps r (record r { current = some (record a { cancels = xs }) })
  releases : (r : Runner) → Step deps r (record r { current = none })
  writes : (r : Runner) (e : Disk) → Grows r.disk e → Step deps r (record r { disk = e })

-- What a channel of capacity one holds.
abbrev pub is_short : {A : Type 0} → List A → Bool
is_short [] = true
is_short (_ ∷ []) = true
is_short (_ ∷ _ ∷ _) = false

-- An answer is in the channel, or awaited, only for a parked request.
pub record Fits (a : Active) : Type 0 where
  pub free : a.parked ≡ false → (a.answers ≡ []) × (a.awaiting ≡ false)
  pub single : is_short a.answers ≡ true
  pub awaits : a.awaiting ≡ true → a.answers ≡ []
  pub uncancelled : a.cancelled ≡ false → a.cancels ≡ []

abbrev pub AllFit : Option Active → Type 0
AllFit none = Unit
AllFit (some a) = Fits a

-- An id that is queued or run has a record, and no submission under way has it.
abbrev pub IsHeld : List Submission → Disk → String → Type 0
IsHeld xs d id = HasRecord id d × (occurs id (flying_ids xs) ≡ false)

abbrev pub IsFlying : Disk → Submission → Type 0
IsFlying d x = (valid_id x.task.id ≡ true) × (x.is_created ≡ true → HasRecord x.task.id d)

pub record IsOrderly (r : Runner) : Type 0 where
  pub distinct : IsDistinct (held r.current r.queue)
  pub filed : All (IsHeld r.flying r.disk) (held r.current r.queue)
  pub apart : IsDistinct (flying_ids r.flying)
  pub flying : All (IsFlying r.disk) r.flying
  pub fits : AllFit r.current

pub data Reach (deps : Deps) (r : Runner) : Runner → Type 0 where
  here : Reach deps r r
  next : {e f : Runner} → Reach deps r e → Step deps e f → Reach deps r f

-- What `NewID` draws for a submission: an id of the form that the store reads, and not that of another
-- submission under way.
abbrev pub IsApart : {deps : Deps} {r e : Runner} → Step deps r e → Type 0
IsApart (looks req id r t p may) =
    (valid_id t.id ≡ true) × (occurs t.id (flying_ids r.flying) ≡ false)
IsApart (creates r n x m new) = Unit
IsApart (enqueues r n x m made) = Unit
IsApart (calls q r e x back) = Unit
IsApart (cancels_record id r) = Unit
IsApart (stops r) = Unit
IsApart (checks r go) = Unit
IsApart (takes r id q checked free e) = Unit
IsApart (parks r a e free) = Unit
IsApart (receives_answer r a x xs e got) = Unit
IsApart (receives_cancel r a xs e got) = Unit
IsApart (releases r) = Unit
IsApart (writes r e g) = Unit

abbrev pub AreApart : {deps : Deps} {r e : Runner} → Reach deps r e → Type 0
AreApart here = Unit
AreApart (next m st) = AreApart m × IsApart st
