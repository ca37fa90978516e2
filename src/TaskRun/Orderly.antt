-- ===== src/TaskRun/Orderly.antt =====
-- internal/taskrun: no call waits for the worker with the lock held, and no task is held twice.
use villa_straylight.Base.{
  if_cases, ◌≡◌, refl, sym, ◌∙◌, subst, ap, String, Bool, true, not, Option, none, some, List, [],
  ◌∷◌, All, str_eq, occurs, arith,
}
use villa_straylight.TaskRun.{GrantAnswer}
use villa_straylight.TaskRun.Queue.{
  Active, Runner, Call, returned, blocked, send, inactive, put_answer, answer_active,
  answer_current, answer, put_cancel, cancel_active, cancel_current, close_current, cancel,
  remove_first,
}
use villa_straylight.TaskRun.Held.{IsDistinct, held, occurs-remove, IsDistinct-remove, All-remove}
use villa_straylight.TaskRun.Calls.{
  IsHeld, Request, answers, cancels, closes, call, Fits, AllFit, IsOrderly,
}

-- A call that comes back and leaves the runner in order.
abbrev pub IsFine : Call → Type 0
IsFine blocked = ⊥
IsFine (returned x e) = IsOrderly e

-- The active task changes.
pub current-IsOrderly :
    (r : Runner) (a b : Active)
    → r.current ≡ some a
    → b.id ≡ a.id
    → Fits b
    → IsOrderly r
    → IsOrderly (record r { current = some b })
current-IsOrderly r a b e i f o =
    let same : held r.current r.queue ≡ b.id ∷ r.queue =
      ap (λ c. held c r.queue) e ∙ ap (λ x. x ∷ r.queue) (sym i) in
    record {
      distinct = subst IsDistinct same o.distinct;
      filed = subst (All (IsHeld r.flying r.disk)) same o.filed;
      apart = o.apart;
      flying = o.flying;
      fits = f;
    }

pub active-Fits : (r : Runner) (a : Active) → r.current ≡ some a → IsOrderly r → Fits a
active-Fits r a e o = subst AllFit e o.fits

put_answer-IsFine :
    (xs : List (GrantAnswer × String)) (y : GrantAnswer × String) (a : Active) (r : Runner)
    → xs ≡ []
    → a.awaiting ≡ true
    → r.current ≡ some a
    → IsOrderly r
    → IsFine (put_answer (send xs y) a r)
unfolding put_answer send
put_answer-IsFine [] y a r n w e o =
    let f = active-Fits r a e o in
    current-IsOrderly r a _ e refl
      (record {
        free = λ p. absurd (ground (arith, w, (f.free p).1));
        single = refl;
        awaits = λ x. absurd (ground (arith, x));
        uncancelled = f.uncancelled;
      })
      o
put_answer-IsFine (x ∷ xs) y a r n w e o = absurd (ground (arith, n))

answer_current-IsFine :
    (c : Option Active) (id : String) (g : GrantAnswer) (r : Runner)
    → r.current ≡ c
    → IsOrderly r
    → IsFine (answer_current c id g r)
unfolding answer_current answer_active inactive
answer_current-IsFine none id g r e o = o
answer_current-IsFine (some a) id g r e o =
    let f = active-Fits r a e o in
    if_cases IsFine (str_eq a.id id)
      (λ _.
        if_cases IsFine (not a.awaiting) (λ _. o)
          (λ w.
            let waits : a.awaiting ≡ true = ground (arith, w) in
            put_answer-IsFine a.answers _ a r (f.awaits waits) waits e o))
      (λ _. o)

put_cancel-IsFine :
    (xs : List (Unit {0})) (a b : Active) (r : Runner)
    → xs ≡ []
    → b.id ≡ a.id
    → ((ys : List (Unit {0})) → Fits (record b { cancels = ys }))
    → r.current ≡ some a
    → IsOrderly r
    → IsFine (put_cancel (send xs tt) b r)
unfolding put_cancel send
put_cancel-IsFine [] a b r n i f e o = current-IsOrderly r a _ e i (f _) o
put_cancel-IsFine (x ∷ xs) a b r n i f e o = absurd (ground (arith, n))

cancelled-Fits :
    (a : Active) (by : Bool) (ys : List (Unit {0}))
    → Fits a
    → Fits (record a { cancelled = true; interrupted = by; cancels = ys })
cancelled-Fits a by ys f = record {
  free = f.free;
  single = f.single;
  awaits = f.awaits;
  uncancelled = λ x. absurd (ground (arith, x));
}

cancel_current-IsFine :
    (c : Option Active) (id : String) (r : Runner)
    → r.current ≡ c
    → IsOrderly r
    → IsFine (cancel_current c id r)
unfolding cancel_current cancel_active inactive
cancel_current-IsFine none id r e o = o
cancel_current-IsFine (some a) id r e o =
    let f = active-Fits r a e o in
    if_cases IsFine (str_eq a.id id)
      (λ _.
        if_cases IsFine a.cancelled (λ _. o)
          (λ n.
            put_cancel-IsFine a.cancels a _ r (f.uncancelled n) refl
              (λ ys. cancelled-Fits a a.interrupted ys f) e o))
      (λ _. o)

close_current-IsFine :
    (c : Option Active) (r : Runner) → r.current ≡ c → IsOrderly r → IsFine (close_current c r)
unfolding close_current
close_current-IsFine none r e o = o
close_current-IsFine (some a) r e o =
    let f = active-Fits r a e o in
    if_cases IsFine a.cancelled (λ _. o)
      (λ n.
        put_cancel-IsFine a.cancels a _ r (f.uncancelled n) refl (λ ys. cancelled-Fits a true ys f)
          e o)

held-remove :
    (P : String → Type 0) (id : String) (c : Option Active) (q : List String)
    → IsDistinct (held c q)
    → All P (held c q)
    → IsDistinct (held c (remove_first id q)) × All P (held c (remove_first id q))
held-remove P id none q d h = (IsDistinct-remove id q d, All-remove P id q h)
held-remove P id (some a) q d h =
    ((occurs-remove a.id id q d.0, IsDistinct-remove id q d.1), (h.0, All-remove P id q h.1))

removed-IsOrderly :
    (r : Runner) (id : String)
    → IsOrderly r
    → IsOrderly (record r { queue = remove_first id r.queue })
removed-IsOrderly r id o =
    let h = held-remove (IsHeld r.flying r.disk) id r.current r.queue o.distinct o.filed in
    record { distinct = h.0; filed = h.1; apart = o.apart; flying = o.flying; fits = o.fits }

-- A call of a user, on a runner that is in order.
pub call-IsFine : (q : Request) (r : Runner) → IsOrderly r → IsFine (call q r)
unfolding call answer cancel
call-IsFine (answers id g) r o = answer_current-IsFine r.current id g r refl o
call-IsFine (cancels id) r o =
    if_cases IsFine (occurs id r.queue) (λ _. removed-IsOrderly r id o)
      (λ _. cancel_current-IsFine r.current id r refl o)
call-IsFine closes r o = close_current-IsFine r.current r refl o
