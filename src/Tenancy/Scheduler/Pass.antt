-- ===== src/Tenancy/Scheduler/Pass.antt =====
-- What a visit and a pass do to the credit that is needed and to the number of the jobs.
use residual_agent_harness.Prelude.{
  ℕ, ◌+◌, ◌≤◌, ◌<◌, ◌≡◌, refl, sym, subst, ap, String, true, false, inl, inr, List, [], ◌∷◌, ◌++◌,
  arith, contains, is_empty, length, length-append, string_eq, ◌==◌, ==_iff, ==_refl, ==_sym,
  if◌then◌else◌, Bool-cases,
}
use residual_agent_harness.Prelude.Dict.{lookup-insert}
use residual_agent_harness.Tenancy.Scheduler.{
  Job, FairScheduler, queue_of, deficit_of, quota_of, Served, serve, Turn, settle, sum_of, need_of,
  need,
}
use residual_agent_harness.Tenancy.Scheduler.Serve.{
  serve-append, serve-steps, serve-balance, serve-stuck,
}

pub sum_of-le :
    (f g : String → ℕ) (order : List String)
    → ((n : String) → f n ≤ g n)
    → sum_of f order ≤ sum_of g order
unfolding sum_of
sum_of-le f g [] le = omega arith
sum_of-le f g (t ∷ order) le = omega (arith, le t, sum_of-le f g order le)

-- What one drops, the sum drops at least.
pub sum_of-drop :
    (f g : String → ℕ) (k : ℕ) (tenant : String) (order : List String)
    → ((n : String) → f n ≤ g n)
    → f tenant + k ≤ g tenant
    → contains tenant order ≡ true
    → sum_of f order + k ≤ sum_of g order
unfolding sum_of contains
sum_of-drop f g k tenant [] le drop there = absurd (cc)
sum_of-drop f g k tenant (t ∷ order) le drop there = elim (Bool-cases (t == tenant)) [
  | inl same ↦
      let here = subst (λ x. f x + k ≤ g x) (sym ((==_iff t tenant).0 same)) drop in
      omega (arith, here, sum_of-le f g order le)
  | inr other ↦
      let rest =
        sum_of-drop f g k tenant order le drop (ground (arith, there, other, ==_sym t tenant)) in
      omega (arith, le t, rest)
]

-- The lengths of the queues.
abbrev pub waiting : FairScheduler → String → ℕ
waiting s n = length (queue_of s n)

settle-queue_of :
    (t : Turn) (tenant n : String) (r : Served)
    → queue_of (settle t tenant r).scheduler n
      ≡ (if tenant == n then r.queue else queue_of t.scheduler n)
unfolding settle queue_of
settle-queue_of t tenant n r = ground (arith, lookup-insert tenant n r.queue t.scheduler.queues)

settle-deficit_of :
    (t : Turn) (tenant n : String) (r : Served)
    → deficit_of (settle t tenant r).scheduler n ≡ (
        if tenant == n
        then (if is_empty r.queue then 0 else r.deficit)
        else deficit_of t.scheduler n)
unfolding settle deficit_of
settle-deficit_of t tenant n r =
    ground (
      arith,
      lookup-insert tenant n (if is_empty r.queue then 0 else r.deficit) t.scheduler.deficit,
    )

settle-quota_of :
    (t : Turn) (tenant n : String) (r : Served)
    → quota_of (settle t tenant r).scheduler n ≡ quota_of t.scheduler n
unfolding settle quota_of
settle-quota_of t tenant n r = refl

-- The result of the service that `visit` does.
abbrev pub served : ℕ → Turn → String → Served
served max_steps t tenant =
    serve max_steps (queue_of t.scheduler tenant)
      (deficit_of t.scheduler tenant + quota_of t.scheduler tenant) t.steps

empty_append : {A : Type 0} (xs ys zs : List A) → xs ++ ys ≡ zs → length xs + length ys ≡ length zs
empty_append xs ys zs e = omega (arith, length-append xs ys, ap (λ l. length l) e)

module _ (max_steps : ℕ) where
  served-need_of :
      (queue : List Job) (deficit quota steps : ℕ)
      → (let r = serve max_steps queue (deficit + quota) steps in
          1 ≤ quota
          → is_empty queue ≡ false
          → r.steps < max_steps
          → need_of r.queue (if is_empty r.queue then 0 else r.deficit) + 1 ≤ need_of queue deficit)
  unfolding need_of
  served-need_of queue deficit quota steps = λ some_quota some_jobs below. ground (
    arith,
    serve-balance max_steps queue (deficit + quota) steps,
    serve-stuck max_steps queue (deficit + quota) steps,
  )

  pub queue_own :
      (t : Turn) (tenant : String) (r : Served)
      → queue_of (settle t tenant r).scheduler tenant ≡ r.queue
  queue_own t tenant r = ground (arith, settle-queue_of t tenant tenant r, ==_refl tenant)

  pub queue_other :
      (t : Turn) (tenant n : String) (r : Served)
      → (tenant == n) ≡ false
      → queue_of (settle t tenant r).scheduler n ≡ queue_of t.scheduler n
  queue_other t tenant n r other = ground (arith, settle-queue_of t tenant n r, other)

  pub settle-need_own :
      (t : Turn) (tenant : String)
      → (let t' = settle t tenant (served max_steps t tenant) in
          1 ≤ quota_of t.scheduler tenant
          → is_empty (queue_of t.scheduler tenant) ≡ false
          → t'.steps < max_steps
          → need t'.scheduler tenant + 1 ≤ need t.scheduler tenant)
  unfolding need settle
  settle-need_own t tenant = λ some_quota some_jobs below.
      let r = served max_steps t tenant in
      let owed : deficit_of (settle t tenant r).scheduler tenant
          ≡ (if is_empty r.queue then 0 else r.deficit) =
        ground (arith, settle-deficit_of t tenant tenant r, ==_refl tenant) in
      rw (queue_own t tenant r) (
        rw owed (
          served-need_of (queue_of t.scheduler tenant) (deficit_of t.scheduler tenant)
            (quota_of t.scheduler tenant) t.steps some_quota some_jobs below))

  pub settle-need_other :
      (t : Turn) (tenant n : String) (r : Served)
      → (tenant == n) ≡ false
      → need (settle t tenant r).scheduler n ≡ need t.scheduler n
  unfolding need
  settle-need_other t tenant n r other =
      let owed : deficit_of (settle t tenant r).scheduler n ≡ deficit_of t.scheduler n =
        ground (arith, settle-deficit_of t tenant n r, other) in
      rw (queue_other t tenant n r other) (rw owed refl)

  pub settle-waiting_own :
      (t : Turn) (tenant : String)
      → (let t' = settle t tenant (served max_steps t tenant) in
          waiting t'.scheduler tenant + t'.steps ≡ waiting t.scheduler tenant + t.steps)
  unfolding settle
  settle-waiting_own t tenant =
      let r = served max_steps t tenant in
      let credit = deficit_of t.scheduler tenant + quota_of t.scheduler tenant in
      let queue = queue_of t.scheduler tenant in
      rw (queue_own t tenant r) (
        omega (
          arith,
          serve-steps max_steps queue credit t.steps,
          empty_append r.jobs r.queue queue (serve-append max_steps queue credit t.steps),
        ))
