-- ===== src/Loop/Controller.antt =====
-- residual/factory/loop_runtime/controller.py: `LoopController`. The factory, the clock, the
-- operator's abort switch and the digests are the host's: `W` is what they read and change.
pub mod Cases
pub mod Outcome
pub mod Bounds
pub mod Budget
use residual_agent_harness.Prelude.{
  ℕ, zero, suc, ◌+◌, ◌-◌, String, Bool, true, false, ◌&&◌, ◌||◌, Option, none, some, List, [], ◌∷◌,
  ◌++◌, map, is_empty, leb, nat_eq, ◌==◌, if◌then◌else◌,
}
use residual_agent_harness.Prelude.Dict.{Dict, lookup, insert}
use residual_agent_harness.Core.Obligation.{Obligation}
use residual_agent_harness.Loop.State.{
  MissionStatus, complete, exhausted, stagnated, aborted, FactoryResultSet, DeduplicationMaterial,
  ExecutionIntent, initial_intent, ProgressVector, GoalEvaluation, LoopMissionState, initial_state,
  LoopIterationRecord, MissionResult,
}
use residual_agent_harness.Loop.Goal.{AbortCondition, GoalContract, evaluate}
use residual_agent_harness.Loop.Progress.{
  FingerprintInput, residual_mass, failure_fingerprint, measure_progress, is_no_progress,
}
use residual_agent_harness.Loop.Policy.{KeyInput, deduplication_key, next_intent}

-- `FactoryAdapter`, `monotonic` and `abort_requested`, and the two digests.
pub record Host (W : Type 0) : Type 0 where
  pub run_factory : List Obligation → ExecutionIntent → W → FactoryResultSet × W
  pub deduplication_material : Obligation → W → DeduplicationMaterial
  pub cancel_inflight : W → W
  pub monotonic : W → ℕ × W
  pub abort_requested : W → Bool × W
  pub digest_fingerprint : FingerprintInput → String
  pub digest_key : KeyInput → String

-- The calls of the metrics sink.
pub data Metric : Type 0 where
  iteration : ProgressVector → Bool → Metric
  terminal : MissionStatus → Metric

-- What the controller leaves behind: its result, the world, and the calls of the sink.
pub record Finished (W : Type 0) : Type 0 where
  pub result : MissionResult
  pub world : W
  pub metrics : List Metric

-- The local variables of `run`.
pub record Vars (W : Type 0) : Type 0 where
  pub state : LoopMissionState
  pub records : List LoopIterationRecord
  pub current : List Obligation
  pub previous_result : Option FactoryResultSet
  pub fingerprint_counts : Dict ℕ
  pub intent : ExecutionIntent
  pub evaluation : Option GoalEvaluation
  pub world : W
  pub metrics : List Metric

-- How a part of the loop body ends: it returns from `run`, or goes on.
pub data Step (W A : Type 0) : Type 0 where
  stop : Finished W → Step W A
  next : A → Step W A

-- amount >= threshold, where there is a threshold
abbrev pub reaches : ℕ → Option ℕ → Bool
reaches amount none = false
reaches amount (some threshold) = leb threshold amount

unfoldable pub should_abort : List AbortCondition → LoopMissionState → Option String
should_abort [] s = none
should_abort (c ∷ cs) s =
    let rest = should_abort cs s in
    if c.require_no_progress && s.no_progress_streak == 0
    then rest
    else if reaches s.spent_cost c.budget_threshold
    then some "abort_condition_budget_threshold"
    else if reaches s.elapsed_s c.time_threshold_s
    then some "abort_condition_time_threshold"
    else rest

pub or_zero : Option ℕ → ℕ
or_zero none = 0
or_zero (some n) = n

tree_of : Option FactoryResultSet → Option String
tree_of none = none
tree_of (some r) = r.accepted_tree_hash

module _ {W : Type 0} (host : Host W) (has_metrics : Bool) (contract : GoalContract) where
  -- `if self.metrics:`
  pub emit : Metric → List Metric → List Metric
  emit m ms = if has_metrics then ms ++ m ∷ [] else ms

  add_keys : List Obligation → W → Dict String → Dict String
  add_keys [] w keys = keys
  add_keys (o ∷ os) w keys =
      add_keys os w
        (insert o.id (deduplication_key host.digest_key o (host.deduplication_material o w)) keys)

  pub dedup_keys : List Obligation → W → Dict String
  unfolding add_keys
  dedup_keys obligations w = add_keys obligations w []

  pub with_status : LoopMissionState → MissionStatus → LoopMissionState
  with_status s status = record s { status = some status }

  pub abort : Vars W → String → Finished W
  abort v reason = record {
    result = record {
      status = aborted;
      state = with_status v.state aborted;
      iterations = v.records;
      goal_evaluation = none;
      reason = reason;
    };
    world = host.cancel_inflight v.world;
    metrics = emit (terminal aborted) v.metrics;
  }

  -- The return of a run that ends behind a factory run.
  pub conclude : Vars W → ProgressVector → MissionStatus → String → Finished W
  conclude v progress status reason = record {
    result = record {
      status = status;
      state = with_status v.state status;
      iterations = v.records;
      goal_evaluation = v.evaluation;
      reason = reason;
    };
    world = v.world;
    metrics = emit (terminal status) (emit (iteration progress false) v.metrics);
  }

  -- The tests before the factory runs.
  pub before_run : ℕ → Vars W → Step W (Vars W)
  before_run start v0 =
      let (now, w1) = host.monotonic v0.world in
      let elapsed = now - start in
      let (abort_now, w2) = host.abort_requested w1 in
      let v : Vars W = record v0 { state = record v0.state { elapsed_s = elapsed }; world = w2 } in
      if abort_now
      then stop (abort v "human_or_operator_abort")
      else if leb contract.max_wall_time_s elapsed
      then stop (abort v "wall_time_exhausted")
      else if reaches v.state.spent_cost contract.max_cost
      then stop (abort v "cost_budget_exhausted")
      else elim (should_abort contract.abort_conditions v.state) [
        | some reason ↦ stop (abort v reason)
        | none ↦ next v
      ]

  -- The state and the record of one factory run, by its number.
  pub account : ℕ → ℕ → Vars W → FactoryResultSet → ProgressVector → ℕ → W → Vars W
  account number elapsed v result progress seen w =
      let fingerprint = failure_fingerprint host.digest_fingerprint result in
      let counts = insert fingerprint (seen + 1) v.fingerprint_counts in
      let streak : ℕ = elim v.previous_result [
        | none ↦ 0
        | some _ ↦ if is_no_progress progress then v.state.no_progress_streak + 1 else 0
      ] in
      record v {
        state = record {
          goal_id = contract.goal_id;
          iteration = number;
          accepted_tree_hash = result.accepted_tree_hash;
          accepted_evidence_root = result.accepted_evidence_root;
          residual_mass = residual_mass result;
          previous_residual_mass =
              if v.state.iteration == 0 then none else some v.state.residual_mass;
          no_progress_streak = streak;
          escalation_cooldown = v.state.escalation_cooldown - 1;
          spent_cost = v.state.spent_cost + result.cost;
          elapsed_s = elapsed;
          failure_fingerprint_counts = counts;
          status = none;
        };
        records =
            v.records
            ++ record {
              goal_id = contract.goal_id;
              iteration = number;
              factory_run_id = result.factory_run_id;
              input_tree_hash = tree_of v.previous_result;
              output_tree_hash = result.accepted_tree_hash;
              accepted_evidence_root = result.accepted_evidence_root;
              rejected_evidence_root = result.rejected_evidence_root;
              residual_ids = map (λ o. o.id) result.residual_obligations;
              receipt_refs = result.receipt_refs;
              progress = progress;
              intent = v.intent;
              failure_fingerprint = fingerprint;
            }
              ∷ [];
        fingerprint_counts = counts;
        evaluation = some (evaluate contract result);
        world = w;
      }

  -- The next obligations and the next intent.
  pub advance : Vars W → FactoryResultSet → ProgressVector → Vars W
  advance v result progress =
      let current = result.residual_obligations in
      let keys = dedup_keys current v.world in
      let chosen : ExecutionIntent × Bool = elim v.previous_result [
        | none ↦ (initial_intent keys, false)
        | some _ ↦ next_intent progress v.state.escalation_cooldown keys
      ] in
      let (intent, escalated) = chosen in
      record v {
        state =
            if escalated
            then record v.state { escalation_cooldown = contract.escalation_cooldown_period }
            else v.state;
        current = current;
        previous_result = some result;
        intent = intent;
        metrics = emit (iteration progress escalated) v.metrics;
      }

  -- The tests behind the factory run, from the completed goal to the next round.
  pub after_run : Vars W → FactoryResultSet → ProgressVector → Step W (Vars W)
  after_run v result progress =
      if (evaluate contract result).complete
      then stop (conclude v progress complete "goal_predicates_satisfied")
      else if reaches v.state.spent_cost contract.max_cost
      then stop (abort v "cost_budget_exhausted")
      else elim (should_abort contract.abort_conditions v.state) [
        | some reason ↦ stop (abort v reason)
        | none ↦
            if is_empty result.residual_obligations
            then stop (conclude v progress stagnated "no_residual_work_for_incomplete_goal")
            else if leb contract.no_progress_limit v.state.no_progress_streak
            then stop (conclude v progress stagnated "no_progress_limit_reached")
            else next (advance v result progress)
      ]

  -- The factory run between the two.
  pub run_once : ℕ → ℕ → Vars W → Step W (Vars W)
  unfolding account after_run
  run_once start number v =
      let (result, w) = host.run_factory v.current v.intent v.world in
      let (now, w') = host.monotonic w in
      let fingerprint = failure_fingerprint host.digest_fingerprint result in
      let seen = or_zero (lookup fingerprint v.fingerprint_counts) in
      let progress = measure_progress v.previous_result result seen in
      after_run (account number (now - start) v result progress seen w') result progress

  -- One round of the `for` loop.
  pub round : ℕ → ℕ → Vars W → Step W (Vars W)
  unfolding before_run run_once
  round start number v0 = elim (before_run start v0) [
    | stop f ↦ stop f
    | next v ↦ run_once start number v
  ]

  -- The return behind the loop.
  pub exhaust : Vars W → Finished W
  exhaust v = record {
    result = record {
      status = exhausted;
      state = with_status v.state exhausted;
      iterations = v.records;
      goal_evaluation = v.evaluation;
      reason = "max_iterations_reached";
    };
    world = v.world;
    metrics = emit (terminal exhausted) v.metrics;
  }

  -- The loop over the numbers that are left.
  pub iterate : ℕ → ℕ → ℕ → Vars W → Finished W
  iterate start zero number v = exhaust v
  iterate start (suc left) number v = elim (round start number v) [
    | stop f ↦ f
    | next v' ↦ iterate start left (number + 1) v'
  ]

  pub start_vars : List Obligation → W → Vars W
  start_vars obligations w = record {
    state = initial_state contract.goal_id;
    records = [];
    current = obligations;
    previous_result = none;
    fingerprint_counts = [];
    intent = initial_intent (dedup_keys obligations w);
    evaluation = none;
    world = w;
    metrics = [];
  }

  unfoldable pub run : List Obligation → W → Finished W
  unfolding emit dedup_keys with_status abort conclude before_run run_once or_zero tree_of round
      exhaust iterate start_vars advance
  run obligations w0 =
      let (start, w) = host.monotonic w0 in
      iterate start contract.max_iterations 1 (start_vars obligations w)
