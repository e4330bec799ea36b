-- ===== src/Runtime/Policy.antt =====
-- residual/runtime/policy.py, and the `EngineResult` of residual/engines/protocol.py. The values
-- of a mapping are Python objects, `Objects`: the model knows two of them and their truth.
pub mod Authority
mod Tests
use residual_agent_harness.Prelude.{
  ℕ, String, Bool, true, false, ◌||◌, Option, none, some, List, [], ◌∷◌, contains, is_empty, select,
  string_eq, if◌then◌else◌,
}
use residual_agent_harness.Prelude.Dict.{Dict, lookup, insert}
use residual_agent_harness.Prelude.Result.{Result, ok, err}

pub record Objects (V : Type 0) : Type 0 where
  pub truthy : V → Bool
  pub no : V
  pub yes : V

-- `_PROVIDER_AUTHORITY_KEYS`
abbrev pub provider_authority_keys : List String
provider_authority_keys =
    "auto_approved" ∷ "self_approved" ∷ "provider_approved" ∷ "hitl_satisfied" ∷ "policy_bypass"
    ∷ "autonomous" ∷ []

-- The provider's own switches, which are turned off where they are there.
abbrev pub switch_keys : List String
switch_keys =
    "human_input" ∷ "human_input_enabled" ∷ "hitl" ∷ "require_human_input" ∷ "auto_approve" ∷ "yolo"
    ∷ []

abbrev pub marker : String
marker = "residual_policy_authoritative"

pub data Verdict : Type 0 where
  allow deny escalate : Verdict

pub record PolicyDecision : Type 0 where
  pub verdict : Verdict
  pub reason : String

-- The entries of the policy that `decide` reads.
pub record PolicyAuthority : Type 0 where
  pub deny_capabilities : List String
  pub escalate_capabilities : List String

pub record EngineResult (V : Type 0) : Type 0 where
  pub candidate : V
  pub tool_calls : List (Dict V)
  pub token_usage : Option ℕ
  pub wall_clock_ms : ℕ
  pub engine_trace : List (Dict V)
  pub raw_metadata : Dict V

module _ {V : Type 0} (objects : Objects V) where
  -- The truth of `metadata.get(key)`.
  unfoldable pub has_truthy : Dict V → String → Bool
  has_truthy d key = elim (lookup key d) [ none ↦ false | some v ↦ objects.truthy v ]

  -- `for key in keys: sanitized[key] = False`
  unfoldable pub turn_off : List String → Dict V → Dict V
  turn_off [] d = d
  turn_off (key ∷ keys) d = turn_off keys (insert key objects.no d)

  -- The same, `if key in sanitized`.
  unfoldable pub turn_off_present : List String → Dict V → Dict V
  turn_off_present [] d = d
  turn_off_present (key ∷ keys) d =
      turn_off_present keys (elim (lookup key d) [ none ↦ d | some v ↦ insert key objects.no d ])

  unfoldable pub sanitize_dispatch_config : Dict V → Dict V
  unfolding turn_off turn_off_present
  sanitize_dispatch_config config =
      insert marker objects.yes
        (turn_off_present switch_keys (turn_off provider_authority_keys config))

  unfoldable pub leaked : Dict V → List String
  unfolding has_truthy
  leaked metadata = select (has_truthy metadata) provider_authority_keys

  unfoldable pub decide : PolicyAuthority → String → Dict V → PolicyDecision
  unfolding leaked has_truthy
  decide policy task_capability engine_metadata =
      if contains task_capability policy.deny_capabilities
      then record { verdict = deny; reason = "residual_policy_deny" }
      else if contains task_capability policy.escalate_capabilities
          || has_truthy engine_metadata "sdk_refusal_advisory"
      then record { verdict = escalate; reason = "residual_policy_escalate" }
      else if is_empty (leaked engine_metadata)
      then record { verdict = allow; reason = "residual_policy_allow" }
      else record { verdict = allow; reason = "residual_policy_allow_provider_claims_ignored" }

  -- The error carries the keys that leaked.
  unfoldable pub apply : EngineResult V → Result (List String) (EngineResult V)
  unfolding leaked
  apply result =
      let keys = leaked result.raw_metadata in
      if is_empty keys
      then ok (record result { raw_metadata = insert marker objects.yes result.raw_metadata })
      else err keys
