-- ===== src/TaskRun/Signals.antt =====
-- internal/taskrun/worker.go: the signals of a run, and the states that they end in.
use villa_straylight.Base.{
  ◌≡◌, subst, Bool, true, false, some, some-injective, List, [], ◌∷◌, All, Among, arith,
}
use villa_straylight.TaskStore
use villa_straylight.TaskStore.{
  State, queued, running, awaiting_approval, done, flagged, failed, refused, interrupted,
}
use villa_straylight.TaskRun.{run_complete, Signal, cancelled, answered, received, closed}
use villa_straylight.TaskRun.Worker.{cancellation}

-- The signals bring the end of the stream or a cancellation.
abbrev pub HasEnd : List Signal → Type 0
HasEnd [] = ⊥
HasEnd (cancelled b ∷ ss) = Unit
HasEnd (closed ∷ ss) = Unit
HasEnd (answered g by ∷ ss) = HasEnd ss
HasEnd (received e ∷ ss) = HasEnd ss

-- The signals without which a task does not end in a state: no task ends in one that is not terminal.
abbrev pub Earned : List Signal → State → Type 0
Earned ss done = Among (received run_complete) ss × Among closed ss
Earned ss flagged = Among (received run_complete) ss × Among closed ss
Earned ss TaskStore.cancelled = Among (cancelled false) ss
Earned ss interrupted = Among (cancelled true) ss
Earned ss failed = Unit
Earned ss refused = Unit
Earned ss queued = ⊥
Earned ss running = ⊥
Earned ss awaiting_approval = ⊥

pub cancellation-Among :
    (ss rest : List Signal) (b : Bool)
    → All (λ x. Among x ss) rest
    → cancellation rest ≡ some b
    → Among (cancelled b) ss
unfolding cancellation
cancellation-Among ss [] b h e = absurd (ground (arith, e))
cancellation-Among ss (cancelled c ∷ rest) b h e =
    subst (λ x. Among (cancelled x) ss) (some-injective c b e) h.0
cancellation-Among ss (answered g by ∷ rest) b h e = cancellation-Among ss rest b h.1 e
cancellation-Among ss (received x ∷ rest) b h e = cancellation-Among ss rest b h.1 e
cancellation-Among ss (closed ∷ rest) b h e = cancellation-Among ss rest b h.1 e
