-- ===== src/Tenancy/Scheduler/Idle.antt =====
-- `run_until_idle` ends, and where its steps are enough, no job is left.
use residual_agent_harness.Prelude.{
  ℕ, zero, suc, ◌+◌, ◌≤◌, ◌<◌, ◌≡◌, refl, sym, subst, ◌∙◌, String, true, false, not, ◌&&◌, ◌⊎◌, inl,
  inr, some, List, [], ◌∷◌, ◌++◌, All, All-map, arith, any, contains, is_empty, leb, length,
  string_eq, ◌==◌, ==_iff, ==_refl, ==_sym, if◌then◌else◌, Bool-cases,
}
use residual_agent_harness.Prelude.Dict.{lookup}
use mathlib.Core.List.{append-nil}
use residual_agent_harness.Prelude.Result.{Result, ok, err}
use residual_agent_harness.Tenancy.Scheduler.{
  Job, FairScheduler, or_else, SchedulerError, exceeded_max_steps, queue_of, Turn, pass, is_busy,
  loop, sum_of, need, run_until_idle,
}
use residual_agent_harness.Tenancy.Scheduler.Pass.{waiting}
use residual_agent_harness.Tenancy.Scheduler.Order.{done_of, IsTagged, loop-IsKept}
use residual_agent_harness.Tenancy.Scheduler.Effect.{Effect, IsFunded, pass-Effect}

All-own : (os : List String) → All (λ n. contains n os ≡ true) os
unfolding contains
All-own [] = tt
All-own (o ∷ os) = (
  ground (arith, ==_refl o),
  All-map (λ n. contains n os ≡ true) _ (λ n h. ground arith) os (All-own os),
)

-- How the loop ends.
data Ends (max_steps : ℕ) (s : FairScheduler) (steps : ℕ)
    : Result SchedulerError FairScheduler → Type 0 where
  idle :
      (s' : FairScheduler)
      → is_busy s' s'.round_order ≡ false
      → s'.round_order ≡ s.round_order
      → Ends max_steps s steps (ok s')
  stopped :
      max_steps < sum_of (waiting s) s.round_order + steps
      → Ends max_steps s steps (err exceeded_max_steps)

module _ (max_steps : ℕ) where
  busy-waiting :
      (s : FairScheduler) (order : List String)
      → is_busy s order ≡ true
      → 1 ≤ sum_of (waiting s) order
  unfolding is_busy any sum_of
  busy-waiting s [] e = absurd (cc)
  busy-waiting s (n ∷ order) e = elim (Bool-cases (is_empty (queue_of s n))) [
    | inl none_left ↦ omega (arith, busy-waiting s order (ground arith))
    | inr some_left ↦ omega (arith, nonempty (queue_of s n) some_left)
  ]
    where
      nonempty : (q : List Job) → is_empty q ≡ false → 1 ≤ length q
      nonempty [] e = absurd (cc)
      nonempty (j ∷ q) e = omega arith

  Ends-back :
      (s s' : FairScheduler) (steps steps' : ℕ) (r : Result SchedulerError FairScheduler)
      → s'.round_order ≡ s.round_order
      → sum_of (waiting s') s.round_order + steps' ≤ sum_of (waiting s) s.round_order + steps
      → Ends max_steps s' steps' r
      → Ends max_steps s steps r
  Ends-back s s' steps steps' r same le (idle s'' calm order) = idle s'' calm (order ∙ same)
  Ends-back s s' steps steps' r same le (stopped more) =
      let more' = subst (λ o. max_steps < sum_of (waiting s') o + steps') same more in
      stopped (omega (arith, le, more'))

  -- Fuel for the needs and two passes more, or for one pass where the steps are used up.
  HasFuel : ℕ → FairScheduler → ℕ → Type 0
  HasFuel fuel s steps =
      ((max_steps ≤ steps) × (1 ≤ fuel)) ⊎ (sum_of (need s) s.round_order + 2 ≤ fuel)

  HasFuel-next :
      (fuel : ℕ) (s : FairScheduler) (steps : ℕ) (t : Turn)
      → HasFuel (suc fuel) s steps
      → Effect max_steps s.round_order 1
          (record { scheduler = s; steps = steps; progressed = false })
          t
      → (not t.progressed && leb max_steps t.steps) ≡ false
      → HasFuel fuel t.scheduler t.steps
  unfolding HasFuel
  HasFuel-next fuel s steps t (inl (over, left)) e going =
      let (same, quiet) = e.idle over in absurd (ground (arith, going, same, quiet, over))
  HasFuel-next fuel s steps t (inr enough) e going = elim (Bool-cases (leb max_steps t.steps)) [
    | inl over ↦ inl (ground (arith, over), omega (arith, enough))
    | inr below ↦
        let drop = e.needed (ground (arith, below)) in
        inr (
          subst (λ o. sum_of (need t.scheduler) o + 2 ≤ fuel) (sym e.same_order)
            (omega (arith, drop, enough)))
  ]

  loop-Ends :
      (fuel : ℕ) (s : FairScheduler) (steps : ℕ)
      → IsFunded max_steps s.quotas
      → HasFuel fuel s steps
      → Ends max_steps s steps (loop fuel max_steps s steps)
  unfolding loop HasFuel
  loop-Ends zero s steps funded (inl (over, left)) = absurd (omega (arith, left))
  loop-Ends zero s steps funded (inr enough) = absurd (omega (arith, enough))
  loop-Ends (suc fuel) s steps funded enough =
      let order = s.round_order in
      let start : Turn = record { scheduler = s; steps = steps; progressed = false } in
      let t : Turn = pass max_steps start order in
      let e = pass-Effect max_steps order start order (All-own order) funded in
      elim (Bool-cases (is_busy s order)) [
        | inr calm ↦ rw calm (idle s calm refl)
        | inl busy ↦
            let e1 : Effect max_steps order 1 start t =
              subst (λ b. Effect max_steps order (if b then 1 else 0) start t) busy e in
            elim (Bool-cases (not t.progressed && leb max_steps t.steps)) [
              | inl stop ↦
                  let quiet : t.progressed ≡ false = ground (arith, stop) in
                  let still : t.steps ≡ steps = (e1.still quiet).0 in
                  let over : max_steps ≤ t.steps = ground (arith, stop) in
                  rw busy
                    (rw stop (stopped (omega (arith, still, over, busy-waiting s order busy))))
              | inr going ↦ rw busy (
                  rw going (
                    Ends-back s t.scheduler steps t.steps (loop fuel max_steps t.scheduler t.steps)
                      e1.same_order e1.done
                      (loop-Ends fuel t.scheduler t.steps
                        (subst (IsFunded max_steps) (sym e1.quotas) funded)
                        (HasFuel-next fuel s steps t enough e1 going))))
            ]
      ]

-- What the calls of the scheduler keep: positive quotas, and jobs in the queues of their tenants,
-- which have their places in the order.
pub record IsSound (s : FairScheduler) : Type 0 where
  pub funded : (n : String) → 1 ≤ or_else 1 (lookup n s.quotas)
  pub tagged : IsTagged s
  pub ordered :
      (n : String) (q : List Job) → lookup n s.queues ≡ some q → contains n s.round_order ≡ true

calm-queue_of :
    (s : FairScheduler) (order : List String) (n : String)
    → is_busy s order ≡ false
    → contains n order ≡ true
    → queue_of s n ≡ []
unfolding is_busy any contains
calm-queue_of s [] n calm there = absurd (cc)
calm-queue_of s (o ∷ order) n calm there = elim (Bool-cases (o == n)) [
  | inl same ↦
      subst (λ m. queue_of s m ≡ []) ((==_iff o n).0 same)
        (empty (queue_of s o) (ground (arith, calm)))
  | inr other ↦
      calm-queue_of s order n (ground (arith, calm)) (ground (arith, there, other, ==_sym o n))
]
  where
    empty : (q : List Job) → is_empty q ≡ true → q ≡ []
    empty [] e = refl
    empty (j ∷ q) e = absurd (cc)

drained :
    (max_steps : ℕ) (s : FairScheduler) (r : Result SchedulerError FairScheduler)
    → Ends max_steps s 0 r
    → sum_of (waiting s) s.round_order ≤ max_steps
    → (s' : FairScheduler) × (r ≡ ok s') × (is_busy s' s.round_order ≡ false)
drained max_steps s r (idle s' calm same) enough =
    (s', refl, subst (λ o. is_busy s' o ≡ false) same calm)
drained max_steps s r (stopped more) enough = absurd (omega (arith, more, enough))

-- Where every quota is positive, every queue holds jobs of its tenant, and the steps are at least
-- as many as the jobs, no tenant starves: the run ends, every queue in the order is empty, and
-- each of these tenants had exactly its jobs done, in their order.
pub run_until_idle-drains :
    (max_steps : ℕ) (s : FairScheduler)
    → 1 ≤ max_steps
    → IsSound s
    → sum_of (waiting s) s.round_order ≤ max_steps
    → (s' : FairScheduler) × (run_until_idle max_steps s ≡ ok s')
      × ((n : String)
          → contains n s.round_order ≡ true
          → (queue_of s' n ≡ []) × (done_of s' n ≡ done_of s n ++ queue_of s n))
unfolding run_until_idle HasFuel
run_until_idle-drains max_steps s positive sound enough =
    let fuel = sum_of (need s) s.round_order + 2 in
    let ends = loop-Ends max_steps fuel s 0 sound.funded (inr (omega arith)) in
    let (s', e, calm) = drained max_steps s (loop fuel max_steps s 0) ends enough in
    let kept = loop-IsKept max_steps fuel s s' 0 sound.tagged e in
    (
      s',
      ground (arith, e, positive),
      λ n there.
          let none_left = calm-queue_of s' s.round_order n calm there in
          (
            none_left,
            sym (append-nil (done_of s' n))
                ∙ subst (λ q. done_of s' n ++ q ≡ done_of s n ++ queue_of s n) none_left
                    (kept.jobs n),
          ),
    )
