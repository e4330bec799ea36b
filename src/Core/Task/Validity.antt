-- ===== src/Core/Task/Validity.antt =====
-- When `Task.__post_init__` accepts a task.
use residual_agent_harness.Prelude.{
  ℕ, ◌≡◌, ◌≢◌, ◌↔◌, refl, String, Bool, true, false, ◌&&◌, List, [], All, All-map, All-zip, all-All,
  All-all, arith, distinct, is_empty, length, ==_iff, ◌==◌, string_eq, map, inl, inr,
}
use residual_agent_harness.Prelude.Result.{Result, ok, err, guard, ◌>>◌}
use residual_agent_harness.Core.Identifier.{is_identifier, is_blank}
use residual_agent_harness.Core.Obligation.{Obligation}
use residual_agent_harness.Core.Task.{
  Task, ContractError, out_of_fuel, is_subset, ids, is_known, resolve, check_task,
}
use residual_agent_harness.Core.Task.Cycles.{resolve-fuel, resolve-cases}
use residual_agent_harness.Core.Task.Ranks.{IsRank, resolved-IsRank}
use residual_agent_harness.Core.Task.Progress.{resolve-no_cycle}

-- Each part that the constructor asks for; the last is that the dependencies have no cycle.
pub record IsValid (t : Task) : Type 0 where
  pub named : is_identifier t.id ≡ true
  pub has_goal : is_blank t.goal ≡ false
  pub has_obligations : is_empty t.obligations ≡ false
  pub no_twice : distinct (ids t.obligations) ≡ true
  pub keyed : All (λ e. e.0 ≡ e.1.id) t.artifacts
  pub structured : is_known t.structure (map (λ e. e.0) t.artifacts) ≡ true
  pub evidence_known :
      All (λ o. is_subset o.evidence (map (λ e. e.0) t.artifacts) ≡ true) t.obligations
  pub dependencies_known :
      All (λ o. is_subset o.depends_on (ids t.obligations) ≡ true) t.obligations
  pub rank : String → ℕ
  pub ranked : IsRank t.obligations rank

guarded :
    (b : Bool) (x : ContractError) (m : Result ContractError (Unit {0}))
    → (guard b x >> m) ≡ ok tt
    → (b ≡ true) × (m ≡ ok tt)
guarded true x m h = (refl, h)
guarded false x m h = absurd (cc)

-- The loop accepts exactly if there is a rank.
resolve-ok :
    (os : List Obligation)
    → distinct (ids os) ≡ true
    → All (λ o. is_subset o.depends_on (ids os) ≡ true) os
    → (rank : String → ℕ) → IsRank os rank
    → resolve (length os) os [] ≡ ok tt
resolve-ok os no_twice known rank ranked =
    let acyclic = resolve-no_cycle os rank ranked known no_twice (length os) [] in
    let enough = resolve-fuel (length os) os [] (omega arith) in
    elim (resolve-cases (length os) os []) [
      | inl done ↦ done
      | inr (inl cycle) ↦ absurd (acyclic cycle)
      | inr (inr short) ↦ absurd (enough short)
    ]

check_task_sound : (t : Task) → check_task t ≡ ok tt → IsValid t
unfolding check_task
check_task_sound t h =
    let (a, h1) = guarded _ _ _ h in
    let (b, h2) = guarded _ _ _ h1 in
    let (c, h3) = guarded _ _ _ h2 in
    let (d, h4) = guarded _ _ _ h3 in
    let (e, h5) = guarded _ _ _ h4 in
    let (f, h6) = guarded _ _ _ h5 in
    let (rank, ranked) = resolved-IsRank t.obligations c (length t.obligations) h6 in
    let refs = all-All _ t.obligations f in
    record {
      named = a;
      has_goal = ground arith;
      has_obligations = ground arith;
      no_twice = c;
      keyed = All-map _ _ (λ x k. (==_iff x.0 x.1.id).0 k) t.artifacts (all-All _ t.artifacts d);
      structured = e;
      evidence_known = All-map _ _ (λ o k. ground arith) t.obligations refs;
      dependencies_known = All-map _ _ (λ o k. ground arith) t.obligations refs;
      rank = rank;
      ranked = ranked;
    }

check_task_complete : (t : Task) → IsValid t → check_task t ≡ ok tt
unfolding check_task
check_task_complete t v =
    let keys =
      All-all (λ e. e.0 == e.1.id) t.artifacts
        (All-map _ _ (λ x k. (==_iff x.0 x.1.id).1 k) t.artifacts v.keyed) in
    let refs =
      All-all
        (λ o.
          is_subset o.evidence (map (λ e. e.0) t.artifacts)
          && is_subset o.depends_on (ids t.obligations))
        t.obligations
        (All-zip _ _ _ (λ o k l. ground arith) t.obligations v.evidence_known
          v.dependencies_known) in
    let done = resolve-ok t.obligations v.no_twice v.dependencies_known v.rank v.ranked in
    rw (v.named, v.has_goal, v.has_obligations, v.no_twice, keys, v.structured, refs, done) refl

-- A task is accepted exactly if its id is an identifier, its goal is not blank, it has
-- obligations, none twice, the artifacts stand under their own ids, every artifact and
-- obligation that is named exists, and the dependencies have no cycle: there is a rank by which
-- each obligation stands above those it depends on.
pub check_task-ok_iff : (t : Task) → (check_task t ≡ ok tt) ↔ IsValid t
check_task-ok_iff t = (check_task_sound t, check_task_complete t)

-- The loop over the dependencies ends within as many rounds as there are obligations.
pub check_task-in_fuel : (t : Task) → check_task t ≢ err out_of_fuel
unfolding check_task
check_task-in_fuel t h =
    let enough = resolve-fuel (length t.obligations) t.obligations [] (omega arith) in ground arith
