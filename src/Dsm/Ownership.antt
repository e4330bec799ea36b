-- ===== src/Dsm/Ownership.antt =====
-- residual/dsm/ownership.py: one authoritative writer role for each domain, and the transitions
-- of the terminal task state.
use residual_agent_harness.Prelude.{
  String, Option, none, some, List, [], ◌∷◌, ◌==◌, string_eq, if◌then◌else◌,
}
use residual_agent_harness.Prelude.Dict.{Dict, lookup}
use residual_agent_harness.Prelude.Result.{Result, ok, err, ◌>>=◌}
use residual_agent_harness.Dsm.Errors.{Error, unknown_domain, not_authoritative}

abbrev pub domains : Dict String
domains =
    ("task.lease", "scheduler")
    ∷ ("receipt.publication", "verifier")
    ∷ ("integration.intent", "integrator")
    ∷ ("task.terminal", "orchestrator")
    ∷ []

abbrev pub terminal_states : List String
terminal_states = "succeeded" ∷ "failed" ∷ "rejected" ∷ "unknown" ∷ []

-- `TERMINAL_TRANSITIONS.get(current, set())`
unfoldable pub terminal_transitions : Option String → List String
terminal_transitions none = "running" ∷ "succeeded" ∷ "failed" ∷ "rejected" ∷ "unknown" ∷ []
terminal_transitions (some current) =
    if current == "running" then "succeeded" ∷ "failed" ∷ "rejected" ∷ "unknown" ∷ [] else []

pub record OwnershipRegistry : Type 0 where
  pub mapping : Dict String

-- `mapping or DOMAINS`: an empty mapping counts as none.
unfoldable pub registry : Option (Dict String) → OwnershipRegistry
registry none = record { mapping = domains }
registry (some []) = record { mapping = domains }
registry (some (entry ∷ entries)) = record { mapping = entry ∷ entries }

unfoldable pub owner_of : OwnershipRegistry → String → Result Error String
owner_of o domain = elim (lookup domain o.mapping) [
  | none ↦ err unknown_domain
  | some owner ↦ ok owner
]

unfoldable pub check_writer : OwnershipRegistry → String → String → Result Error String
unfolding owner_of
check_writer o domain writer = do
  owner ← owner_of o domain
  if writer == owner then ok owner else err not_authoritative
