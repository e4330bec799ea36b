-- ===== src/Loop/Goal.antt =====
-- residual/factory/loop_runtime/contract.py, and the `GoalEvaluator` of controller.py.
pub mod Completion
use residual_agent_harness.Prelude.{
  ℕ, String, Bool, true, false, not, ◌&&◌, ◌||◌, Option, none, some, List, [], ◌∷◌, all, distinct,
  is_empty, leb, ltb, nat_eq, ◌==◌, string_eq, option_eq, if◌then◌else◌,
}
use residual_agent_harness.Prelude.Dict.{Dict, lookup, insert}
use residual_agent_harness.Prelude.Result.{Result, ok, err, guard, ◌>>=◌, ◌>>◌}
use residual_agent_harness.Core.Identifier.{is_identifier, is_blank}
use residual_agent_harness.Loop.State.{
  VerificationStatus, pass, fail, unknown, VerificationResultRef, FactoryResultSet, GoalEvaluation,
}

pub record AbortCondition : Type 0 where
  pub budget_threshold : Option ℕ
  pub time_threshold_s : Option ℕ
  pub require_no_progress : Bool

pub record GoalContract : Type 0 where
  pub goal_id : String
  pub objective : String
  pub required_verification_ids : List String
  pub max_iterations : ℕ
  pub max_wall_time_s : ℕ
  pub max_cost : Option ℕ
  pub no_progress_limit : ℕ
  pub escalation_cooldown_period : ℕ
  pub abort_conditions : List AbortCondition

-- The messages of the `ContractError`s, in the order of the tests.
pub data ContractError : Type 0 where
  time_threshold_not_positive no_threshold : ContractError
  invalid_identifier empty_objective no_verification_id duplicate_verification_id : ContractError
  blank_verification_id max_iterations_not_positive max_wall_time_not_positive : ContractError
  no_progress_limit_not_positive : ContractError

abbrev pub is_zero : Option ℕ → Bool
is_zero none = false
is_zero (some n) = n == 0

-- `AbortCondition.__post_init__`
unfoldable pub check_condition : AbortCondition → Result ContractError (Unit {0})
check_condition c = do
  guard (not (is_zero c.time_threshold_s)) time_threshold_not_positive
  guard (not (option_eq.beq c.budget_threshold none && option_eq.beq c.time_threshold_s none))
      no_threshold

-- `GoalContract.__post_init__`; the types already rule the negative numbers out.
unfoldable pub check_contract : GoalContract → Result ContractError (Unit {0})
check_contract c = do
  guard (is_identifier c.goal_id) invalid_identifier
  guard (not (is_blank c.objective)) empty_objective
  guard (not (is_empty c.required_verification_ids)) no_verification_id
  guard (distinct c.required_verification_ids) duplicate_verification_id
  guard (all (λ v. not (is_blank v)) c.required_verification_ids) blank_verification_id
  guard (leb 1 c.max_iterations) max_iterations_not_positive
  guard (leb 1 c.max_wall_time_s) max_wall_time_not_positive
  guard (leb 1 c.no_progress_limit) no_progress_limit_not_positive

-- `not text` at an optional text: it is missing or empty.
abbrev pub is_falsy : Option String → Bool
is_falsy none = true
is_falsy (some s) = s == ""

-- `{item.verification_id: item}`: a later result overrides an earlier one.
unfoldable pub by_id :
    List VerificationResultRef → Dict VerificationResultRef → Dict VerificationResultRef
by_id [] d = d
by_id (item ∷ items) d = by_id items (insert item.verification_id item d)

-- What the evaluator finds for one required id.
pub data Finding : Type 0 where
  is_missing is_failed is_unknown is_passed : Finding

abbrev pub of_status : VerificationStatus → Finding
of_status pass = is_passed
of_status fail = is_failed
of_status unknown = is_unknown

unfoldable pub judge : FactoryResultSet → Option VerificationResultRef → Finding
judge r none = is_missing
judge r (some item) =
    if not (item.accepted_tree_hash == r.accepted_tree_hash)
      || not (item.evidence_root == r.accepted_evidence_root)
    then is_failed
    else of_status item.status

-- The lists that the loop over the required ids fills.
pub record Findings : Type 0 where
  pub missing : List String
  pub failed : List String
  pub unknown : List String

file_under : Finding → String → Findings → Findings
file_under is_missing id f = record f { missing = id ∷ f.missing }
file_under is_failed id f = record f { failed = id ∷ f.failed }
file_under is_unknown id f = record f { unknown = id ∷ f.unknown }
file_under is_passed id f = f

-- The lists are in the order of the ids, as those that the source appends to.
unfoldable pub collect : FactoryResultSet → Dict VerificationResultRef → List String → Findings
unfolding file_under judge
collect r items [] = record { missing = []; failed = []; unknown = [] }
collect r items (id ∷ ids) = file_under (judge r (lookup id items)) id (collect r items ids)

evaluation_of : Findings → GoalEvaluation
evaluation_of f = record {
  complete = is_empty f.missing && is_empty f.failed && is_empty f.unknown;
  missing = f.missing;
  failed = f.failed;
  unknown = f.unknown;
}

unfoldable pub evaluate : GoalContract → FactoryResultSet → GoalEvaluation
unfolding collect evaluation_of
evaluate c r =
    if is_falsy r.accepted_tree_hash || is_falsy r.accepted_evidence_root
    then record {
      complete = false;
      missing = c.required_verification_ids;
      failed = [];
      unknown = [];
    }
    else evaluation_of (collect r (by_id r.verification_results []) c.required_verification_ids)
