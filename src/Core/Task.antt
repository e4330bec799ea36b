-- ===== src/Core/Task.antt =====
-- residual/core.py: `Artifact`, `Task` and the validation of tasks and obligations. A `dict` is an
-- association list with the keys once each.
pub mod Cycles
pub mod Ranks
pub mod Progress
pub mod Validity
pub mod Cloud
mod Tests
use residual_agent_harness.Prelude.{
  ℕ, zero, suc, String, Bool, true, false, not, ◌&&◌, Option, none, some, List, [], ◌∷◌, ◌++◌, map,
  all, contains, count, distinct, is_empty, leb, length, ltb, select, nat_eq, string_eq, ◌==◌,
  if◌then◌else◌,
}
use residual_agent_harness.Prelude.Dict.{Dict}
use residual_agent_harness.Prelude.Result.{Result, ok, err, guard, ◌>>=◌, ◌>>◌}
use residual_agent_harness.Prelude.Text.{codes}
use residual_agent_harness.Core.Identifier.{is_identifier, is_blank, matches}
use residual_agent_harness.Core.Obligation.{Obligation}

pub record Artifact : Type 0 where
  pub id : String
  pub text : String
  pub cloud : Bool

pub record Task : Type 0 where
  pub id : String
  pub goal : String
  pub artifacts : Dict Artifact
  pub obligations : List Obligation
  pub structure : Option String

-- The messages of the `ContractError`s; the last one is the model's own.
pub data ContractError : Type 0 where
  invalid_identifier invalid_verifier_name no_instruction duplicate_dependencies : ContractError
  no_goal_or_obligations duplicate_obligation_id artifact_key_mismatch : ContractError
  unknown_structural_artifact unknown_artifact_or_dependency dependency_cycle : ContractError
  out_of_fuel : ContractError

-- `value.split(sep)` on code points
split_at : ℕ → List ℕ → List ℕ → List (List ℕ)
split_at sep part [] = part ∷ []
split_at sep part (c ∷ cs) =
    if c == sep then part ∷ split_at sep [] cs else split_at sep (part ++ c ∷ []) cs

-- `Artifact.__post_init__`
unfoldable pub check_artifact : Artifact → Result ContractError (Unit {0})
check_artifact a = guard (is_identifier a.id) invalid_identifier

-- `Obligation.__post_init__`
unfoldable pub check_obligation : Obligation → Result ContractError (Unit {0})
unfolding split_at
check_obligation o = do
  guard (is_identifier o.id) invalid_identifier
  guard (all matches (split_at b':' [] (codes o.check))) invalid_identifier
  guard (leb (count (λ c. c == b':') (codes o.check)) 1) invalid_verifier_name
  guard (not (is_blank o.instruction)) no_instruction
  guard (distinct o.evidence && distinct o.depends_on) duplicate_dependencies

-- `set(xs) <= set(ys)`
unfoldable pub is_subset : List String → List String → Bool
is_subset xs ys = all (λ x. contains x ys) xs

unfoldable pub ids : List Obligation → List String
ids os = map (λ o. o.id) os

-- `ready - resolved`
unfoldable pub newly_ready : List Obligation → List String → List String
unfolding ids
newly_ready os resolved =
    select (λ x. not (contains x resolved)) (ids (select (λ o. is_subset o.depends_on resolved) os))

-- The `while` loop. Each round resolves an obligation, so as many rounds as there are
-- obligations are enough.
unfoldable pub resolve : ℕ → List Obligation → List String → Result ContractError (Unit {0})
unfolding newly_ready
resolve zero os resolved = if ltb (length resolved) (length os) then err out_of_fuel else ok tt
resolve (suc fuel) os resolved =
    let rest = resolve fuel os (resolved ++ newly_ready os resolved) in
    if ltb (length resolved) (length os)
    then (if is_empty (newly_ready os resolved) then err dependency_cycle else rest)
    else ok tt

pub is_known : Option String → List String → Bool
is_known none names = true
is_known (some s) names = contains s names

-- `Task.__post_init__`
unfoldable pub check_task : Task → Result ContractError (Unit {0})
unfolding is_known
check_task t =
    let names = map (λ e. e.0) t.artifacts in
    do
      guard (is_identifier t.id) invalid_identifier
      guard (not (is_blank t.goal) && not (is_empty t.obligations)) no_goal_or_obligations
      guard (distinct (ids t.obligations)) duplicate_obligation_id
      guard (all (λ e. e.0 == e.1.id) t.artifacts) artifact_key_mismatch
      guard (is_known t.structure names) unknown_structural_artifact
      guard
          (all (λ o. is_subset o.evidence names && is_subset o.depends_on (ids t.obligations))
            t.obligations)
          unknown_artifact_or_dependency
      resolve (length t.obligations) t.obligations []
