-- ===== src/TaskRun/Reached.antt =====
-- internal/taskrun: the runner in every state that calls and the worker's moves lead to.
use villa_straylight.Base.{
  Bool, ◌≡◌, ◌≢◌, refl, sym, ◌∙◌, subst, ap, inl, inr, String, true, false, Option, none, some,
  List, [], ◌∷◌, All, arith, Bool-cases,
}
use villa_straylight.TaskRun.{GrantAnswer, Deps}
use villa_straylight.TaskStore.{cancelled}
use villa_straylight.TaskRun.Queue.{
  Active, Runner, blocked, new_active, create_write, cancel_record,
}
use villa_straylight.TaskRun.Held.{
  IsDistinct, held, transition-Grows, create_write-Grows, create_write-HasRecord,
}
use villa_straylight.TaskRun.Calls.{
  Request, call, Step, looks, creates, enqueues, calls, cancels_record, stops, IsHeld, checks,
  takes, parks, receives_answer, receives_cancel, releases, writes, is_short, Fits, IsOrderly,
  Reach, here, next, IsApart, AreApart,
}
use villa_straylight.TaskRun.Orderly.{IsFine, call-IsFine, current-IsOrderly, active-Fits}
use villa_straylight.TaskRun.Submitted.{
  grown-IsOrderly, looked-IsOrderly, finish_create-IsOrderly, enqueue-IsOrderly,
}

short_tail :
    (x : GrantAnswer × String) (xs : List (GrantAnswer × String))
    → is_short (x ∷ xs) ≡ true
    → xs ≡ []
short_tail x [] h = refl
short_tail x (y ∷ ys) h = absurd (ground (arith, h))

-- The worker takes the answer out of the channel, and with it the parked request is answered.
received-Fits :
    (a : Active) (x : GrantAnswer × String) (xs : List (GrantAnswer × String))
    → a.answers ≡ x ∷ xs
    → Fits a
    → Fits (record a { answers = xs; parked = false })
received-Fits a x xs got f =
    let none_left = short_tail x xs (subst (λ ys. is_short ys ≡ true) got f.single) in
    let unawaited : a.awaiting ≡ false = elim (Bool-cases a.awaiting) [
      | inl w ↦ absurd (ground (arith, sym (f.awaits w) ∙ got))
      | inr n ↦ n
    ] in
    record {
      free = λ _. (none_left, unawaited);
      single = subst (λ ys. is_short ys ≡ true) (sym none_left) refl;
      awaits = λ _. none_left;
      uncancelled = f.uncancelled;
    }

module _ (deps : Deps) where
  -- A queue that the worker takes its head from.
  taken-IsOrderly :
      (r : Runner) (id : String) (q : List String)
      → r.current ≡ none
      → r.queue ≡ id ∷ q
      → IsOrderly r
      → IsOrderly (record r { queue = q; current = some (new_active id); is_checked = false })
  unfolding new_active
  taken-IsOrderly r id q c e o =
      let same : held r.current r.queue ≡ id ∷ q = ap (λ x. held x r.queue) c ∙ e in
      record {
        distinct = subst IsDistinct same o.distinct;
        filed = subst (All (IsHeld r.flying r.disk)) same o.filed;
        apart = o.apart;
        flying = o.flying;
        fits = record {
          free = λ _. (refl, refl);
          single = refl;
          awaits = λ _. refl;
          uncancelled = λ _. refl;
        };
      }

  released-IsOrderly :
      (c : Option Active) (r : Runner)
      → IsOrderly r
      → IsDistinct (held c r.queue)
      → All (IsHeld r.flying r.disk) (held c r.queue)
      → IsOrderly (record r { current = none })
  released-IsOrderly none r o d h = record {
    distinct = d;
    filed = h;
    apart = o.apart;
    flying = o.flying;
    fits = tt;
  }
  released-IsOrderly (some a) r o d h = record {
    distinct = d.1;
    filed = h.1;
    apart = o.apart;
    flying = o.flying;
    fits = tt;
  }

  -- A change of what the worker has seen of `stop`, or of `stop` itself.
  flagged-IsOrderly :
      (r : Runner) (c s : Bool)
      → IsOrderly r
      → IsOrderly (record r { is_checked = c; is_stopped = s })
  flagged-IsOrderly r c s o = record {
    distinct = o.distinct;
    filed = o.filed;
    apart = o.apart;
    flying = o.flying;
    fits = o.fits;
  }

  Step-IsOrderly : {r e : Runner} (st : Step deps r e) → IsApart st → IsOrderly r → IsOrderly e
  Step-IsOrderly (looks req id r t p may) a o = looked-IsOrderly t r a.0 a.1 may o
  Step-IsOrderly (creates r n x m new) k o =
      finish_create-IsOrderly n x (create_write x.task r.disk) r m
        (create_write-Grows x.task r.disk) (create_write-HasRecord x.task r.disk) o
  Step-IsOrderly (enqueues r n x m made) k o = enqueue-IsOrderly n x r m made o
  Step-IsOrderly (calls q r e x back) n o = subst IsFine back (call-IsFine q r o)
  Step-IsOrderly (cancels_record id r) n o =
      unfold cancel_record in grown-IsOrderly r _ (transition-Grows id cancelled _ r.disk) o
  Step-IsOrderly (stops r) n o = flagged-IsOrderly r r.is_checked true o
  Step-IsOrderly (checks r go) n o = flagged-IsOrderly r true r.is_stopped o
  Step-IsOrderly (takes r id q checked free e) n o = taken-IsOrderly r id q free e o
  Step-IsOrderly (parks r a e free) n o =
      let f = active-Fits r a e o in
      current-IsOrderly r a _ e refl
        (record {
          free = λ x. absurd (ground (arith, x));
          single = f.single;
          awaits = λ _. (f.free free).0;
          uncancelled = f.uncancelled;
        })
        o
  Step-IsOrderly (receives_answer r a x xs e got) n o =
      let f = active-Fits r a e o in current-IsOrderly r a _ e refl (received-Fits a x xs got f) o
  Step-IsOrderly (receives_cancel r a xs e got) n o =
      let f = active-Fits r a e o in
      current-IsOrderly r a _ e refl
        (record {
          free = f.free;
          single = f.single;
          awaits = f.awaits;
          uncancelled = λ c. absurd (ground (arith, sym (f.uncancelled c) ∙ got));
        })
        o
  Step-IsOrderly (releases r) n o = released-IsOrderly r.current r o o.distinct o.filed
  Step-IsOrderly (writes r e g) n o = grown-IsOrderly r e g o

  Reach-IsOrderly : {r e : Runner} → IsOrderly r → (m : Reach deps r e) → AreApart m → IsOrderly e
  Reach-IsOrderly o here n = o
  Reach-IsOrderly o (next m st) n = Step-IsOrderly st n.1 (Reach-IsOrderly o m n.0)

-- Whatever parts of calls and moves of the worker come in whatever order, where each submission draws
-- a readable id that no other submission under way has, a call to answer, to cancel or to close does
-- not block while it holds the runner's lock; and the ids in the queue, with that of the active task
-- and those of the submissions under way, are distinct, and those queued or active have records.
pub Reach-IsFine :
    (deps : Deps) {r e : Runner} (q : Request)
    → IsOrderly r
    → (m : Reach deps r e) → AreApart m
    → (call q e ≢ blocked) × IsOrderly e
Reach-IsFine deps q o m n =
    let o' = Reach-IsOrderly deps o m n in (λ b. subst IsFine b (call-IsFine q _ o'), o')
