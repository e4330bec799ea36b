-- ===== src/Loop/Policy.antt =====
-- residual/factory/loop_runtime/policy.py
use residual_agent_harness.Prelude.{
  ℕ, String, Bool, true, false, ◌&&◌, ◌||◌, List, nat_eq, ◌==◌, if◌then◌else◌, sorted, ◌≡◌, arith,
}
use residual_agent_harness.Prelude.Dict.{Dict}
use residual_agent_harness.Prelude.Int.{pos, leb_ℤ}
use residual_agent_harness.Prelude.Text.{str_lt}
use residual_agent_harness.Core.Obligation.{Obligation}
use residual_agent_harness.Loop.State.{
  default, higher, allow, normal, low, high, DeduplicationMaterial, ExecutionIntent, ProgressVector,
  initial_intent,
}

-- What `deduplication_key` hands to the digest, beside a constant schema name.
pub record KeyInput : Type 0 where
  pub obligation_id : String
  pub input_artifact_hashes : List String
  pub worker_contract_hash : String

unfoldable pub deduplication_key : (KeyInput → String) → Obligation → DeduplicationMaterial → String
deduplication_key digest o m = digest (record {
  obligation_id = o.id;
  input_artifact_hashes = sorted str_lt m.input_artifact_hashes;
  worker_contract_hash = m.worker_contract_hash;
})

unfoldable pub next_intent : ProgressVector → ℕ → Dict String → ExecutionIntent × Bool
next_intent progress cooldown keys =
    if progress.churn
    then if cooldown == 0
      then (
        record (initial_intent keys) {
          urgency = low;
          capability_floor = higher;
          parallelism = allow;
          rationale = "accepted_tree_churn_without_obligation_resolution";
        },
        true,
      )
      else (record (initial_intent keys) { urgency = low; rationale = "churn_cooldown" }, false)
    else if progress.repeated_failure || leb_ℤ progress.progress_delta (pos 0)
    then if cooldown == 0
      then (
        record (initial_intent keys) {
          urgency = high;
          capability_floor = higher;
          rationale = "stagnation_or_repeated_failure";
        },
        true,
      )
      else (
        record (initial_intent keys) { urgency = normal; rationale = "stagnation_cooldown" },
        false,
      )
    else (initial_intent keys, false)

-- A round calls for escalation by churn, by a repeated failure, or by a mass that did not fall.
abbrev pub is_stuck : ProgressVector → Bool
is_stuck p = p.churn || p.repeated_failure || leb_ℤ p.progress_delta (pos 0)

-- An escalation is reported exactly for a stuck round outside the cooldown, and the higher
-- capability floor is asked for exactly then; the keys are passed on on every branch.
pub next_intent-escalates :
    (p : ProgressVector) (cooldown : ℕ) (keys : Dict String)
    → ((next_intent p cooldown keys).1 ≡ (is_stuck p && cooldown == 0))
      × ((next_intent p cooldown keys).0.capability_floor
          ≡ (if is_stuck p && cooldown == 0 then higher else default))
      × ((next_intent p cooldown keys).0.deduplication_keys ≡ keys)
unfolding next_intent
next_intent-escalates p cooldown keys = (ground arith, ground arith, ground arith)
