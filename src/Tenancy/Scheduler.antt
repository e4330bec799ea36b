-- ===== src/Tenancy/Scheduler.antt =====
-- residual/tenancy/scheduler.py: the fair scheduler. One turn of the `for` loop rotates the order
-- by one, as many times as there are tenants in it: so a pass visits each in order and leaves the
-- order as it was.
pub mod Serve
pub mod Pass
pub mod Effect
pub mod Order
pub mod Idle
pub mod Sound
mod Tests
use residual_agent_harness.Prelude.{
  ℕ, zero, suc, ◌+◌, ◌-◌, String, Bool, true, false, not, ◌&&◌, ◌||◌, Option, none, some, List, [],
  ◌∷◌, ◌++◌, any, map, is_empty, leb, ltb, length, if◌then◌else◌,
}
use residual_agent_harness.Prelude.Dict.{Dict, lookup, insert}
use residual_agent_harness.Prelude.Result.{Result, ok, err, guard, ◌>>=◌, ◌>>◌}
use residual_agent_harness.Core.Identifier.{is_identifier}

pub record Job : Type 0 where
  pub id : String
  pub tenant_id : String
  pub cost : ℕ

-- The messages of the `ContractError`s; the last one is the model's own.
pub data SchedulerError : Type 0 where
  invalid_identifier invalid_cost invalid_quota invalid_max_steps exceeded_max_steps :
      SchedulerError
  out_of_fuel : SchedulerError

-- `Job.__post_init__`
unfoldable pub check_job : Job → Result SchedulerError (Unit {0})
check_job j = do
  guard (is_identifier j.id) invalid_identifier
  guard (is_identifier j.tenant_id) invalid_identifier
  guard (leb 1 j.cost) invalid_cost

pub record FairScheduler : Type 0 where
  pub workers : ℕ
  pub quotas : Dict ℕ
  pub queues : Dict (List Job)
  pub deficit : Dict ℕ
  pub round_order : List String
  pub completed : List Job

abbrev pub or_else {ℓ} : {A : Type ℓ} → A → Option A → A
or_else a none = a
or_else a (some b) = b

unfoldable pub queue_of : FairScheduler → String → List Job
queue_of s tenant = or_else [] (lookup tenant s.queues)

unfoldable pub deficit_of : FairScheduler → String → ℕ
deficit_of s tenant = or_else 0 (lookup tenant s.deficit)

unfoldable pub quota_of : FairScheduler → String → ℕ
quota_of s tenant = or_else 1 (lookup tenant s.quotas)

unfoldable pub set_quota : FairScheduler → String → ℕ → Result SchedulerError FairScheduler
set_quota s tenant_id quota = do
  guard (is_identifier tenant_id) invalid_identifier
  guard (leb 1 quota) invalid_quota
  ok (record s { quotas = insert tenant_id quota s.quotas })

-- The scheduler with a queue for a tenant, by the one that it has.
unfoldable pub with_tenant : FairScheduler → String → Option (List Job) → FairScheduler
with_tenant s tenant (some queue) = s
with_tenant s tenant none = record s {
  queues = insert tenant [] s.queues;
  deficit = insert tenant 0 s.deficit;
  round_order = s.round_order ++ tenant ∷ [];
  quotas = insert tenant (or_else 1 (lookup tenant s.quotas)) s.quotas;
}

unfoldable pub submit : FairScheduler → Job → FairScheduler
unfolding with_tenant queue_of
submit s job =
    let s' = with_tenant s job.tenant_id (lookup job.tenant_id s.queues) in
    record s' { queues = insert job.tenant_id (queue_of s' job.tenant_id ++ job ∷ []) s'.queues }

unfoldable pub pending : FairScheduler → String → ℕ
unfolding queue_of
pending s tenant_id = length (queue_of s tenant_id)

-- What the inner `while` loop leaves.
pub record Served : Type 0 where
  pub jobs : List Job
  pub queue : List Job
  pub deficit : ℕ
  pub steps : ℕ

unfoldable pub serve : ℕ → List Job → ℕ → ℕ → Served
serve max_steps [] deficit steps = record {
  jobs = [];
  queue = [];
  deficit = deficit;
  steps = steps;
}
serve max_steps (job ∷ queue) deficit steps =
    let rest = serve max_steps queue (deficit - job.cost) (steps + 1) in
    if leb job.cost deficit && ltb steps max_steps
    then record rest { jobs = job ∷ rest.jobs }
    else record { jobs = []; queue = job ∷ queue; deficit = deficit; steps = steps }

-- The variables of `run_until_idle`.
pub record Turn : Type 0 where
  pub scheduler : FairScheduler
  pub steps : ℕ
  pub progressed : Bool

-- The scheduler and the variables behind a tenant's queue was served.
unfoldable pub settle : Turn → String → Served → Turn
settle t tenant r = record {
  scheduler = record t.scheduler {
    queues = insert tenant r.queue t.scheduler.queues;
    deficit = insert tenant (if is_empty r.queue then 0 else r.deficit) t.scheduler.deficit;
    completed = t.scheduler.completed ++ r.jobs;
  };
  steps = r.steps;
  progressed = t.progressed || not (is_empty r.jobs);
}

unfoldable pub visit : ℕ → Turn → String → Turn
unfolding settle
visit max_steps t tenant =
    let queue = queue_of t.scheduler tenant in
    let credit = deficit_of t.scheduler tenant + quota_of t.scheduler tenant in
    let after = settle t tenant (serve max_steps queue credit t.steps) in
    if is_empty queue then t else after

-- The `for` loop.
unfoldable pub pass : ℕ → Turn → List String → Turn
unfolding visit
pass max_steps t [] = t
pass max_steps t (tenant ∷ order) = pass max_steps (visit max_steps t tenant) order

unfoldable pub is_busy : FairScheduler → List String → Bool
is_busy s order = any (λ tenant. not (is_empty (queue_of s tenant))) order

-- The outer `while` loop.
unfoldable pub loop : ℕ → ℕ → FairScheduler → ℕ → Result SchedulerError FairScheduler
unfolding is_busy pass
loop zero max_steps s steps = err out_of_fuel
loop (suc fuel) max_steps s steps =
    let t =
      pass max_steps (record { scheduler = s; steps = steps; progressed = false }) s.round_order in
    let rest = loop fuel max_steps t.scheduler t.steps in
    if not (is_busy s s.round_order)
    then ok s
    else if not t.progressed && leb max_steps t.steps
    then err exceeded_max_steps
    else rest

unfoldable pub total_cost : List Job → ℕ
total_cost [] = 0
total_cost (job ∷ queue) = job.cost + total_cost queue

unfoldable pub sum_of : (String → ℕ) → List String → ℕ
sum_of f [] = 0
sum_of f (tenant ∷ order) = f tenant + sum_of f order

-- The credit that a queue still has to get, and one more where it has jobs.
unfoldable pub need_of : List Job → ℕ → ℕ
unfolding total_cost
need_of queue deficit = if is_empty queue then 0 else suc (total_cost queue - deficit)

unfoldable pub need : FairScheduler → String → ℕ
unfolding need_of
need s tenant = need_of (queue_of s tenant) (deficit_of s tenant)

-- In every pass, each tenant with jobs gets some of the credit that it needs.
unfoldable pub run_until_idle : ℕ → FairScheduler → Result SchedulerError FairScheduler
unfolding loop
run_until_idle max_steps s =
    if leb 1 max_steps
    then loop (sum_of (need s) s.round_order + 2) max_steps s 0
    else err invalid_max_steps
