-- ===== src/Loop/State.antt =====
-- residual/factory/loop_runtime/state.py. Costs and times are whole numbers of a smallest unit;
-- a residual mass is a count, which the source keeps as a float.
use residual_agent_harness.Prelude.{
  ℕ, String, Bool, Option, none, List, [], map, distinct, string_eq,
}
use residual_agent_harness.Prelude.Dict.{Dict}
use residual_agent_harness.Prelude.Int.{ℤ}
use residual_agent_harness.Core.Obligation.{Obligation}

pub data VerificationStatus : Type 0 where
  pass fail unknown : VerificationStatus

-- The values of the enumeration, which order a failure fingerprint.
abbrev pub status_value : VerificationStatus → String
status_value pass = "pass"
status_value fail = "fail"
status_value unknown = "unknown"

pub data ObligationState : Type 0 where
  unresolved submitted accepted rejected undetermined : ObligationState

pub data MissionStatus : Type 0 where
  complete exhausted stagnated aborted failed : MissionStatus

pub data CapabilityFloor : Type 0 where
  default higher : CapabilityFloor

pub data ParallelismHint : Type 0 where
  forbid allow prefer : ParallelismHint

pub data Urgency : Type 0 where
  idle low normal high : Urgency

pub record VerificationResultRef : Type 0 where
  pub verification_id : String
  pub status : VerificationStatus
  pub accepted_tree_hash : Option String
  pub evidence_root : Option String
  pub receipt_ref : Option String

pub record FactoryResultSet : Type 0 where
  pub factory_run_id : String
  pub accepted_tree_hash : Option String
  pub accepted_evidence_root : Option String
  pub rejected_evidence_root : Option String
  pub verification_results : List VerificationResultRef
  pub residual_obligations : List Obligation
  pub obligation_states : Dict ObligationState
  pub receipt_refs : List String
  pub cost : ℕ

-- The test of `__post_init__`; a cost is never negative here.
unfoldable pub is_valid_result : FactoryResultSet → Bool
is_valid_result r = distinct (map (λ o. o.id) r.residual_obligations)

pub record DeduplicationMaterial : Type 0 where
  pub input_artifact_hashes : List String
  pub worker_contract_hash : String

pub record ExecutionIntent : Type 0 where
  pub urgency : Urgency
  pub capability_floor : CapabilityFloor
  pub parallelism : ParallelismHint
  pub rationale : String
  pub deduplication_keys : Dict String

-- The defaults of the fields.
abbrev pub initial_intent : Dict String → ExecutionIntent
initial_intent keys = record {
  urgency = normal;
  capability_floor = default;
  parallelism = allow;
  rationale = "initial_execution";
  deduplication_keys = keys;
}

pub record ProgressVector : Type 0 where
  pub residual_mass : ℕ
  pub progress_delta : ℤ
  pub accepted_obligations : ℕ
  pub obligation_resolved_delta : ℕ
  pub tree_changed : Bool
  pub churn : Bool
  pub repeated_failure : Bool

pub record GoalEvaluation : Type 0 where
  pub complete : Bool
  pub missing : List String
  pub failed : List String
  pub unknown : List String

pub record LoopMissionState : Type 0 where
  pub goal_id : String
  pub iteration : ℕ
  pub accepted_tree_hash : Option String
  pub accepted_evidence_root : Option String
  pub residual_mass : ℕ
  pub previous_residual_mass : Option ℕ
  pub no_progress_streak : ℕ
  pub escalation_cooldown : ℕ
  pub spent_cost : ℕ
  pub elapsed_s : ℕ
  pub failure_fingerprint_counts : Dict ℕ
  pub status : Option MissionStatus

abbrev pub initial_state : String → LoopMissionState
initial_state goal_id = record {
  goal_id = goal_id;
  iteration = 0;
  accepted_tree_hash = none;
  accepted_evidence_root = none;
  residual_mass = 0;
  previous_residual_mass = none;
  no_progress_streak = 0;
  escalation_cooldown = 0;
  spent_cost = 0;
  elapsed_s = 0;
  failure_fingerprint_counts = [];
  status = none;
}

pub record LoopIterationRecord : Type 0 where
  pub goal_id : String
  pub iteration : ℕ
  pub factory_run_id : String
  pub input_tree_hash : Option String
  pub output_tree_hash : Option String
  pub accepted_evidence_root : Option String
  pub rejected_evidence_root : Option String
  pub residual_ids : List String
  pub receipt_refs : List String
  pub progress : ProgressVector
  pub intent : ExecutionIntent
  pub failure_fingerprint : String

pub record MissionResult : Type 0 where
  pub status : MissionStatus
  pub state : LoopMissionState
  pub iterations : List LoopIterationRecord
  pub goal_evaluation : Option GoalEvaluation
  pub reason : String
