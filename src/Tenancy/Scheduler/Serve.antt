-- ===== src/Tenancy/Scheduler/Serve.antt =====
-- What the service of one queue does.
use residual_agent_harness.Prelude.{
  ℕ, ◌+◌, ◌-◌, ◌≤◌, ◌<◌, ◌≡◌, refl, false, List, [], ◌∷◌, ◌++◌, arith, is_empty, length,
}
use residual_agent_harness.Tenancy.Scheduler.{Job, serve, total_cost}

module _ (max_steps : ℕ) where
  -- The jobs of the queue, in their order: those done and those left.
  pub serve-append :
      (queue : List Job) (deficit steps : ℕ)
      → (let r = serve max_steps queue deficit steps in r.jobs ++ r.queue ≡ queue)
  unfolding serve
  serve-append [] deficit steps = refl
  serve-append (j ∷ queue) deficit steps =
      let rest = serve-append queue (deficit - j.cost) (steps + 1) in ground (arith, rest)

  pub serve-steps :
      (queue : List Job) (deficit steps : ℕ)
      → (let r = serve max_steps queue deficit steps in r.steps ≡ steps + length r.jobs)
  unfolding serve
  serve-steps [] deficit steps = omega arith
  serve-steps (j ∷ queue) deficit steps =
      let rest = serve-steps queue (deficit - j.cost) (steps + 1) in ground (arith, rest)

  -- What is done is paid for.
  pub serve-balance :
      (queue : List Job) (deficit steps : ℕ)
      → (let r = serve max_steps queue deficit steps in
          total_cost r.queue + deficit ≡ total_cost queue + r.deficit)
  unfolding serve total_cost
  serve-balance [] deficit steps = omega arith
  serve-balance (j ∷ queue) deficit steps =
      let rest = serve-balance queue (deficit - j.cost) (steps + 1) in ground (arith, rest)

  -- What is left is not covered by the credit, where no limit stopped it.
  pub serve-stuck :
      (queue : List Job) (deficit steps : ℕ)
      → (let r = serve max_steps queue deficit steps in
          is_empty r.queue ≡ false → r.steps < max_steps → r.deficit < total_cost r.queue)
  unfolding serve total_cost
  serve-stuck [] deficit steps = λ e lt. absurd (cc)
  serve-stuck (j ∷ queue) deficit steps =
      let rest = serve-stuck queue (deficit - j.cost) (steps + 1) in λ e lt. ground (arith, rest)

  pub serve-exhausted :
      (queue : List Job) (deficit steps : ℕ)
      → max_steps ≤ steps
      → (serve max_steps queue deficit steps).jobs ≡ []
  unfolding serve
  serve-exhausted [] deficit steps le = refl
  serve-exhausted (j ∷ queue) deficit steps le = ground (arith, le)
