-- ===== src/UpdateFlow/Mutated.antt =====
-- internal/updateflow/updateflow.go: the transaction of `runOne` from the mutation on, which a
-- rollback can bring back.
use villa_straylight.Base.{◌≡◌, String, false, Option, none, List, arith}
use villa_straylight.UpdateFlow.{
  Error, Capture, Proof, Deps, Outcome, SubsystemResult, Target, is_committed,
}
use villa_straylight.UpdateFlow.Steps.{
  commit_pins, finish_after_mutation, rollback, rollback_outcome,
}
use villa_straylight.UpdateFlow.Run.{mutate_stopped, run_stateless_mutation}
use villa_straylight.UpdateFlow.Restores.{Recovers, Back, IsCovered, rollback-Back}

module _ {Ctx W P D : Type 0} (d : Deps Ctx W) (pins_of : W → P) (data_of : W → D) (t : Target)
    (p₀ : P) (d₀ : D) where
  -- The transaction from the mutation on, on a state from which `cap` can be brought back.
  module _ (cap : Capture) (r : Recovers d pins_of data_of t.subsystem cap p₀ d₀)
      (covered : IsCovered d pins_of data_of t.subsystem cap p₀ d₀) (c : Ctx) (sr : SubsystemResult)
      (is_k : sr.subsystem ≡ t.subsystem) where
    finish-Back :
        (rs : List String) (w : W)
        → is_committed (finish_after_mutation d c sr cap rs t w).0.outcome ≡ false
        → (finish_after_mutation d c sr cap rs t w).0.rollback_incomplete ≡ false
        → Back pins_of data_of p₀ d₀ (finish_after_mutation d c sr cap rs t w).1
    unfolding finish_after_mutation commit_pins is_committed
    finish-Back rs w u e =
        let p : Proof = (d.prove_new c t.subsystem w).0 in
        ground (
          arith,
          rollback-Back d pins_of data_of t.subsystem cap p₀ d₀ r c sr rs p (rollback_outcome d p)
              none "prove" (d.prove_new c t.subsystem w).1 is_k covered,
        )

    rolled-Back :
        (rs : List String) (p : Proof) (outcome : Outcome) (cause : Option Error) (step : String)
        (w : W)
        → (rollback d c sr cap rs p outcome cause step w).0.rollback_incomplete ≡ false
        → Back pins_of data_of p₀ d₀ (rollback d c sr cap rs p outcome cause step w).1
    rolled-Back rs p outcome cause step w e =
        rollback-Back d pins_of data_of t.subsystem cap p₀ d₀ r c sr rs p outcome cause step w is_k
          covered e

    pub moved-Back :
        (w : W)
        → is_committed (mutate_stopped d c sr cap t w).0.outcome ≡ false
        → (mutate_stopped d c sr cap t w).0.rollback_incomplete ≡ false
        → Back pins_of data_of p₀ d₀ (mutate_stopped d c sr cap t w).1
    unfolding mutate_stopped
    moved-Back w u e = grind (arith, finish-Back, rolled-Back)

    pub stateless-Back :
        (w : W)
        → is_committed (run_stateless_mutation d c sr cap t w).0.outcome ≡ false
        → (run_stateless_mutation d c sr cap t w).0.rollback_incomplete ≡ false
        → Back pins_of data_of p₀ d₀ (run_stateless_mutation d c sr cap t w).1
    unfolding run_stateless_mutation
    stateless-Back w u e = grind (arith, finish-Back, rolled-Back)
