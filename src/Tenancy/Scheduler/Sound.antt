-- ===== src/Tenancy/Scheduler/Sound.antt =====
-- What the calls of the scheduler keep.
use residual_agent_harness.Prelude.{
  ℕ, ◌≤◌, ◌≡◌, refl, subst, String, true, Option, none, some, List, [], ◌∷◌, ◌++◌, All, All-append,
  arith, contains, contains-append, string_eq, ◌==◌, ==_iff, ==_refl, ==_sym, Bool-cases, inl, inr,
}
use residual_agent_harness.Prelude.Dict.{lookup, insert, lookup-insert}
use residual_agent_harness.Prelude.Result.{ok}
use residual_agent_harness.Tenancy.Scheduler.{
  Job, FairScheduler, or_else, queue_of, set_quota, with_tenant, submit,
}
use residual_agent_harness.Tenancy.Scheduler.Idle.{IsSound}

with_tenant-IsSound :
    (s : FairScheduler) (tenant : String) (m : Option (List Job))
    → lookup tenant s.queues ≡ m
    → IsSound s
    → IsSound (with_tenant s tenant m)
unfolding with_tenant queue_of contains
with_tenant-IsSound s tenant (some q) there i = i
with_tenant-IsSound s tenant none there i = record {
  funded = λ n.
      let old = i.funded n in
      let own = i.funded tenant in
      ground
        (arith, lookup-insert tenant n (or_else 1 (lookup tenant s.quotas)) s.quotas, old, own);
  tagged = λ n. rw (lookup-insert tenant n [] s.queues) (elim (Bool-cases (tenant == n)) [
    | inl same ↦ rw same tt
    | inr other ↦ rw other (i.tagged n)
  ]);
  ordered = λ n q e. elim (Bool-cases (tenant == n)) [
    | inl same ↦
        ground (arith, contains-append n s.round_order (tenant ∷ []), same, ==_sym tenant n)
    | inr other ↦
        let old = i.ordered n q (ground (arith, lookup-insert tenant n [] s.queues, other, e)) in
        ground (arith, contains-append n s.round_order (tenant ∷ []), old)
  ];
}

-- The tenant has a queue then, and a place in the order.
with_tenant-contains :
    (s : FairScheduler) (tenant : String) (m : Option (List Job))
    → lookup tenant s.queues ≡ m
    → IsSound s
    → contains tenant (with_tenant s tenant m).round_order ≡ true
unfolding with_tenant contains
with_tenant-contains s tenant (some q) there i = i.ordered tenant q there
with_tenant-contains s tenant none there i =
    ground (arith, contains-append tenant s.round_order (tenant ∷ []), ==_refl tenant)

-- A submitted job keeps the quotas positive, the jobs in the queues of their tenants, and every
-- tenant with a queue in the order.
pub submit-IsSound : (s : FairScheduler) (job : Job) → IsSound s → IsSound (submit s job)
unfolding submit queue_of
submit-IsSound s job i =
    let tenant = job.tenant_id in
    let m = lookup tenant s.queues in
    let s' : FairScheduler = with_tenant s tenant m in
    let i' = with_tenant-IsSound s tenant m refl i in
    let queue = queue_of s' tenant ++ job ∷ [] in
    record {
      funded = i'.funded;
      tagged = λ n. rw (lookup-insert tenant n queue s'.queues) (elim (Bool-cases (tenant == n)) [
        | inl same ↦ rw same (
            subst (λ x. All (λ j. j.tenant_id ≡ x) queue) ((==_iff tenant n).0 same)
              (All-append (λ j. j.tenant_id ≡ tenant) (queue_of s' tenant) (job ∷ [])
                (i'.tagged tenant) (refl, tt)))
        | inr other ↦ rw other (i'.tagged n)
      ]);
      ordered = λ n q e. elim (Bool-cases (tenant == n)) [
        | inl same ↦
            subst (λ x. contains x s'.round_order ≡ true) ((==_iff tenant n).0 same)
              (with_tenant-contains s tenant m refl i)
        | inr other ↦
            i'.ordered n q (ground (arith, lookup-insert tenant n queue s'.queues, other, e))
      ];
    }

-- So does a new quota.
pub set_quota-IsSound :
    (s s' : FairScheduler) (tenant : String) (quota : ℕ)
    → IsSound s
    → set_quota s tenant quota ≡ ok s'
    → IsSound s'
unfolding set_quota queue_of
set_quota-IsSound s s' tenant quota i e =
    let same : (record s { quotas = insert tenant quota s.quotas }) ≡ s' = ground (arith, e) in
    let positive : 1 ≤ quota = ground (arith, e) in
    subst IsSound same (record {
      funded = λ n.
          let old = i.funded n in
          ground (arith, lookup-insert tenant n quota s.quotas, old, positive);
      tagged = i.tagged;
      ordered = i.ordered;
    })
