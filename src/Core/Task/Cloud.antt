-- ===== src/Core/Task/Cloud.antt =====
-- residual/core.py: `by_id` and `cloud_allowed`, which calls itself at the dependencies. The
-- number of the obligations is fuel enough, since a valid task has no cycle.
use residual_agent_harness.Prelude.{
  ℕ, zero, suc, String, Bool, false, ◌&&◌, Option, none, some, List, all, find, length, string_eq,
  ◌==◌,
}
use residual_agent_harness.Prelude.Dict.{Dict, lookup}
use residual_agent_harness.Core.Obligation.{Obligation}
use residual_agent_harness.Core.Task.{Artifact, Task}

-- `self.by_id[node_id]`, where the id is that of an obligation; no id stands twice.
unfoldable pub by_id : List Obligation → String → Option Obligation
by_id os node_id = find (λ o. o.id == node_id) os

-- `self.artifacts[a].cloud`
abbrev pub is_public : Dict Artifact → String → Bool
is_public artifacts a = elim (lookup a artifacts) [ none ↦ false | some artifact ↦ artifact.cloud ]

unfoldable pub allows : Task → (String → Bool) → Option Obligation → Bool
allows t rest none = false
allows t rest (some o) = o.cloud && all (is_public t.artifacts) o.evidence && all rest o.depends_on

unfoldable pub allowed : ℕ → Task → String → Bool
unfolding by_id allows
allowed zero t node_id = false
allowed (suc fuel) t node_id = allows t (allowed fuel t) (by_id t.obligations node_id)

unfoldable pub cloud_allowed : Task → String → Bool
unfolding allowed
cloud_allowed t node_id = allowed (length t.obligations) t node_id
