-- ===== src/Loop/Tests.antt =====
-- Runs of small missions: the clock counts the calls, and the factory solves its goal at the
-- second run.
use residual_agent_harness.Prelude.{
  ℕ, zero, suc, ◌+◌, ◌≤◌, ◌≡◌, refl, Bool, true, false, none, some, [], ◌∷◌, All, ◌↔◌, count,
}
use residual_agent_harness.Core.Obligation.{Obligation}
use residual_agent_harness.Loop.State.{
  pass, fail, unresolved, accepted, complete, exhausted, aborted, FactoryResultSet, ProgressVector,
}
use residual_agent_harness.Loop.Goal.{GoalContract, is_falsy, evaluate, by_id, collect, judge}
use residual_agent_harness.Loop.Progress.{measure_progress, residual_mass, count_accepted}
use residual_agent_harness.Prelude.Dict.{lookup, insert}
use residual_agent_harness.Loop.Goal.Completion.{IsVerified, evaluate-complete_iff}
use residual_agent_harness.Loop.Controller.{Host, run, should_abort}
use residual_agent_harness.Loop.Controller.Outcome.{HasLastRun, run-complete}
use residual_agent_harness.Loop.Controller.Bounds.{numbers, numbers_of, run-numbered}

abbrev task : Obligation
task = record {
  id = "a";
  instruction = "do";
  check = "unit";
  evidence = [];
  depends_on = [];
  parameters = "{}";
  solver = none;
  cloud = false;
}

abbrev solved : FactoryResultSet
solved = record {
  factory_run_id = "r2";
  accepted_tree_hash = some "t";
  accepted_evidence_root = some "e";
  rejected_evidence_root = none;
  verification_results =
      record {
        verification_id = "v";
        status = pass;
        accepted_tree_hash = some "t";
        evidence_root = some "e";
        receipt_ref = none;
      }
      ∷ [];
  residual_obligations = [];
  obligation_states = ("a", accepted) ∷ [];
  receipt_refs = [];
  cost = 3;
}

abbrev unsolved : FactoryResultSet
unsolved = record solved {
  factory_run_id = "r1";
  verification_results =
      record {
        verification_id = "v";
        status = fail;
        accepted_tree_hash = some "t";
        evidence_root = some "e";
        receipt_ref = none;
      }
      ∷ [];
  residual_obligations = task ∷ [];
  obligation_states = ("a", unresolved) ∷ [];
}

abbrev runs : ℕ → FactoryResultSet
runs zero = unsolved
runs (suc n) = solved

-- The world is the number of factory runs and whether the work was cancelled.
abbrev quick : Host (ℕ × Bool)
quick = record {
  run_factory = λ os i (n, c). (runs n, (n + 1, c));
  deduplication_material = λ o w. record { input_artifact_hashes = []; worker_contract_hash = "w" };
  cancel_inflight = λ (n, c). (n, true);
  monotonic = λ w. (0, w);
  abort_requested = λ w. (false, w);
  digest_fingerprint = λ f. "f";
  digest_key = λ k. k.obligation_id;
}

-- A factory that never solves the goal.
abbrev slow : Host (ℕ × Bool)
slow = record quick { run_factory = λ os i (n, c). (unsolved, (n + 1, c)) }

abbrev goal : GoalContract
goal = record {
  goal_id = "g";
  objective = "o";
  required_verification_ids = "v" ∷ [];
  max_iterations = 3;
  max_wall_time_s = 10;
  max_cost = some 5;
  no_progress_limit = 5;
  escalation_cooldown_period = 1;
  abort_conditions = [];
}

quick_completes : (run quick true goal (task ∷ []) (0, false)).result.status ≡ complete
unfolding run evaluate should_abort lookup by_id insert collect judge
quick_completes = refl

slow_aborts : (run slow true goal (task ∷ []) (0, false)).result.status ≡ aborted
unfolding run evaluate should_abort lookup by_id insert collect judge
slow_aborts = refl

run-complete_example :
    (last : HasLastRun quick true goal (run quick true goal (task ∷ []) (0, false))) × (is_falsy
        last.result.accepted_tree_hash
      ≡ false)
    × (is_falsy last.result.accepted_evidence_root ≡ false)
    × All (IsVerified last.result) ("v" ∷ [])
run-complete_example = run-complete quick true goal (task ∷ []) (0, false) quick_completes

run-numbered_example :
    (numbers_of (run slow true goal (task ∷ []) (0, false)).result.iterations
      ≡ numbers (run slow true goal (task ∷ []) (0, false)).result.state.iteration)
    × ((run slow true goal (task ∷ []) (0, false)).result.state.iteration ≤ 3)
    × ((run slow true goal (task ∷ []) (0, false)).result.status ≡ exhausted
        → (run slow true goal (task ∷ []) (0, false)).result.state.iteration ≡ 3)
run-numbered_example = run-numbered slow true goal (task ∷ []) (0, false)

evaluate-complete_iff_example : ((evaluate goal solved).complete ≡ true) ↔ (
    (is_falsy (some "t") ≡ false)
    × (is_falsy (some "e") ≡ false)
    × All (IsVerified solved) ("v" ∷ []))
evaluate-complete_iff_example = evaluate-complete_iff goal solved

-- A changed tree that resolved nothing.
abbrev churned : FactoryResultSet
churned = record unsolved { accepted_tree_hash = some "t2" }

churned_churns : (measure_progress (some unsolved) churned 1).churn ≡ true
unfolding measure_progress residual_mass count_accepted count
churned_churns = refl

abbrev stuck : ProgressVector
stuck = measure_progress (some unsolved) churned 1
