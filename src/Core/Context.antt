-- ===== src/Core/Context.antt =====
-- residual/core.py: `Verdict` and `Context`, what a verifier or a solver is given.
use residual_agent_harness.Prelude.{
  String, Bool, true, false, Option, none, some, contains, string_eq, if◌then◌else◌,
}
use residual_agent_harness.Prelude.Dict.{Dict, lookup}
use residual_agent_harness.Prelude.Result.{Result, ok, err}
use residual_agent_harness.Core.Obligation.{Obligation}
use residual_agent_harness.Core.Task.{Artifact}

pub data Status : Type 0 where
  pass fail unknown : Status

pub record Verdict : Type 0 where
  pub status : Status
  pub code : String
  pub message : String

abbrev pub is_pass : Status → Bool
is_pass pass = true
is_pass _ = false

pub record Context (V : Type 0) : Type 0 where
  pub obligation : Obligation
  pub artifacts : Dict Artifact
  pub accepted : Dict V

pub data AccessError : Type 0 where
  undeclared_evidence undeclared_dependency key_error : AccessError

found {ℓ} : {A : Type ℓ} → Option A → Result AccessError A
found none = err key_error
found (some a) = ok a

module _ {V : Type 0} where
  unfoldable pub evidence : Context V → String → Result AccessError String
  unfolding found
  evidence c artifact_id =
      if contains artifact_id c.obligation.evidence
      then elim (lookup artifact_id c.artifacts) [ none ↦ err key_error | some a ↦ ok a.text ]
      else err undeclared_evidence

  -- The value is handed out as a copy.
  unfoldable pub dependency : Context V → String → Result AccessError V
  unfolding found
  dependency c node_id =
      if contains node_id c.obligation.depends_on
      then found (lookup node_id c.accepted)
      else err undeclared_dependency
