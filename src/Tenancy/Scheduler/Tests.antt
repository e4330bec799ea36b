-- ===== src/Tenancy/Scheduler/Tests.antt =====
-- Three jobs of two tenants, the first of which costs more than a round's credit.
use residual_agent_harness.Prelude.{
  ◌≤◌, ◌≡◌, String, true, [], ◌∷◌, ◌++◌, arith, contains, string_eq,
}
use residual_agent_harness.Prelude.Dict.{lookup, insert}
use residual_agent_harness.Prelude.Result.{ok}
use residual_agent_harness.Tenancy.Scheduler.{
  Job, FairScheduler, queue_of, with_tenant, submit, run_until_idle, sum_of,
}
use residual_agent_harness.Tenancy.Scheduler.Pass.{waiting}
use residual_agent_harness.Tenancy.Scheduler.Order.{done_of}
use residual_agent_harness.Tenancy.Scheduler.Idle.{IsSound, run_until_idle-drains}
use residual_agent_harness.Tenancy.Scheduler.Sound.{submit-IsSound}

abbrev build : Job
build = record { id = "build"; tenant_id = "a"; cost = 3 }

abbrev deploy : Job
deploy = record { id = "deploy"; tenant_id = "a"; cost = 1 }

abbrev check : Job
check = record { id = "check"; tenant_id = "b"; cost = 2 }

abbrev empty : FairScheduler
empty = record {
  workers = 1;
  quotas = ("a", 2) ∷ ("b", 1) ∷ [];
  queues = [];
  deficit = [];
  round_order = [];
  completed = [];
}

empty-IsSound : IsSound empty
unfolding lookup queue_of
empty-IsSound = record {
  funded = λ n. ground arith;
  tagged = λ n. tt;
  ordered = λ n q e. absurd (cc);
}

abbrev filled : FairScheduler
filled = submit (submit (submit empty build) check) deploy

filled-IsSound : IsSound filled
filled-IsSound =
    submit-IsSound (submit (submit empty build) check) deploy
      (submit-IsSound (submit empty build) check (submit-IsSound empty build empty-IsSound))

submit-IsSound_example : IsSound (submit empty build)
submit-IsSound_example = submit-IsSound empty build empty-IsSound

enough : sum_of (waiting filled) filled.round_order ≤ 3
unfolding sum_of queue_of submit with_tenant lookup insert
enough = omega arith

run_until_idle-drains_example :
    (s' : FairScheduler) × (run_until_idle 3 filled ≡ ok s')
    × ((n : String)
        → contains n filled.round_order ≡ true
        → (queue_of s' n ≡ []) × (done_of s' n ≡ done_of filled n ++ queue_of filled n))
run_until_idle-drains_example = run_until_idle-drains 3 filled (omega arith) filled-IsSound enough
