-- ===== src/Loop/Controller/Budget.antt =====
-- The cost budget: `if contract.max_cost is not None and state.spent_cost >= contract.max_cost`.
use residual_agent_harness.Prelude.{ℕ, ◌+◌, ◌≤◌, ◌≡◌, Bool, some, List}
use residual_agent_harness.Core.Obligation.{Obligation}
use residual_agent_harness.Loop.State.{ExecutionIntent}
use residual_agent_harness.Loop.Goal.{GoalContract}
use residual_agent_harness.Loop.Controller.{Host}

-- No run of the factory costs more than `most`.
abbrev pub CostsAtMost : {W : Type 0} → Host W → ℕ → Type 0
CostsAtMost host most =
    (os : List Obligation) (intent : ExecutionIntent) (w : _)
    → (host.run_factory os intent w).0.cost ≤ most

module _ {W : Type 0} (host : Host W) (has_metrics : Bool) (contract : GoalContract) (cap most : ℕ)
    (capped : contract.max_cost ≡ some cap) (costs : CostsAtMost host most) where
  abbrev Within : ℕ → Type 0
  Within spent = spent ≤ cap + most
