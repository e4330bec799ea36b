-- ===== src/Loop/Controller/Cases.antt =====
-- A rule for the loop of the controller, and the ways in which its parts can end.
use residual_agent_harness.Prelude.{
  ℕ, zero, suc, ◌+◌, ◌-◌, String, Bool, true, false, ◌≡◌, ◌≤◌, refl, inl, inr, List, arith,
  is_empty, leb, Bool-cases, Option-cases,
}
use residual_agent_harness.Core.Obligation.{Obligation}
use residual_agent_harness.Loop.State.{complete, stagnated, FactoryResultSet, ProgressVector}
use residual_agent_harness.Loop.Goal.{GoalContract, evaluate}
use residual_agent_harness.Prelude.Dict.{lookup}
use residual_agent_harness.Loop.Progress.{measure_progress, failure_fingerprint}
use residual_agent_harness.Loop.Controller.{
  Host, Finished, Vars, Step, stop, next, reaches, should_abort, abort, conclude, before_run,
  account, advance, after_run, run_once, round, exhaust, iterate, start_vars, run, or_zero,
}

-- A step keeps `P` if it goes on, and has `Q` if it returns.
abbrev pub After {ℓ} : {W A : Type 0} → (A → Type ℓ) → (Finished W → Type ℓ) → Step W A → Type ℓ
After P Q (stop f) = Q f
After P Q (next a) = P a

module _ {W : Type 0} (host : Host W) (has_metrics : Bool) (contract : GoalContract) where
  -- To show `Q` of every way to end: an invariant of the loop that holds at the start.
  pub record Rule {ℓ} (P : ℕ → Vars W → Type ℓ) (Q : Finished W → Type ℓ) : Type ℓ where
    pub keep :
        (start number : ℕ) (v : Vars W)
        → P number v
        → number ≤ contract.max_iterations
        → After (P (number + 1)) Q (round host has_metrics contract start number v)
    pub finish :
        (number : ℕ) (v : Vars W)
        → P number v
        → number ≡ contract.max_iterations + 1
        → Q (exhaust host has_metrics contract v)

  iterate_ind {ℓ} :
      (P : ℕ → Vars W → Type ℓ) (Q : Finished W → Type ℓ)
      → Rule P Q
      → (start left number : ℕ) (v : Vars W) → number + left ≡ contract.max_iterations + 1
      → P number v
      → Q (iterate host has_metrics contract start left number v)
  unfolding iterate
  iterate_ind P Q rule start zero number v last p = rule.finish number v p (omega arith)
  iterate_ind P Q rule start (suc left) number v last p =
      go (round host has_metrics contract start number v) (rule.keep start number v p (omega arith))
        (λ v'. iterate_ind P Q rule start left (number + 1) v' (omega arith))
    where
      go :
          (s : Step W (Vars W))
          → After (P (number + 1)) Q s
          → ((v' : Vars W)
              → P (number + 1) v'
              → Q (iterate host has_metrics contract start left (number + 1) v'))
          → Q (elim s [
            | stop f ↦ f
            | next v' ↦ iterate host has_metrics contract start left (number + 1) v'
          ])
      go (stop f) q rest = q
      go (next v') p' rest = rest v' p'

  pub run_ind {ℓ} :
      (P : ℕ → Vars W → Type ℓ) (Q : Finished W → Type ℓ)
      → Rule P Q
      → (obligations : List Obligation) (w : W)
      → ((w' : W) → P 1 (start_vars host has_metrics contract obligations w'))
      → Q (run host has_metrics contract obligations w)
  unfolding run
  run_ind P Q rule obligations w p =
      iterate_ind P Q rule _ contract.max_iterations 1 _ (omega arith) (p _)

  -- The variables as they are after the clock and the switch were read.
  unfoldable pub timed : ℕ → Vars W → Vars W
  timed start v0 =
      let (now, w1) = host.monotonic v0.world in
      let (abort_now, w2) = host.abort_requested w1 in
      record v0 { state = record v0.state { elapsed_s = now - start }; world = w2 }

  pub data BeforeCases (start : ℕ) (v : Vars W) : Type 0 where
    aborts :
        (reason : String)
        → before_run host has_metrics contract start v
          ≡ stop (abort host has_metrics contract (timed start v) reason)
        → BeforeCases start v
    goes :
        reaches v.state.spent_cost contract.max_cost ≡ false
        → before_run host has_metrics contract start v ≡ next (timed start v)
        → BeforeCases start v

  pub before_run-cases : (start : ℕ) (v : Vars W) → BeforeCases start v
  unfolding before_run timed
  before_run-cases start v = elim (Bool-cases (host.abort_requested (host.monotonic v.world).1).0) [
    | inl asked ↦ aborts "human_or_operator_abort" (rw asked)
    | inr not_asked ↦
        elim (Bool-cases (leb contract.max_wall_time_s ((host.monotonic v.world).0 - start))) [
          | inl late ↦ aborts "wall_time_exhausted" (rw (not_asked, late))
          | inr in_time ↦ elim (Bool-cases (reaches v.state.spent_cost contract.max_cost)) [
            | inl spent ↦ aborts "cost_budget_exhausted" (rw (not_asked, in_time, spent))
            | inr left ↦
                elim (Option-cases (should_abort contract.abort_conditions (timed start v).state)) [
                  | inr (reason, met) ↦ aborts reason (ground arith)
                  | inl none_met ↦ goes left (ground arith)
                ]
          ]
        ]
  ]

  pub data AfterCases (v : Vars W) (r : FactoryResultSet) (p : ProgressVector) : Type 0 where
    completes :
        (evaluate contract r).complete ≡ true
        → after_run host has_metrics contract v r p
          ≡ stop (conclude host has_metrics contract v p complete "goal_predicates_satisfied")
        → AfterCases v r p
    breaks :
        (reason : String)
        → (evaluate contract r).complete ≡ false
        → after_run host has_metrics contract v r p
          ≡ stop (abort host has_metrics contract v reason)
        → AfterCases v r p
    stagnates :
        (reason : String)
        → (evaluate contract r).complete ≡ false
        → after_run host has_metrics contract v r p
          ≡ stop (conclude host has_metrics contract v p stagnated reason)
        → AfterCases v r p
    advances :
        (evaluate contract r).complete ≡ false
        → leb contract.no_progress_limit v.state.no_progress_streak ≡ false
        → after_run host has_metrics contract v r p ≡ next (advance host has_metrics contract v r p)
        → AfterCases v r p

  pub after_run-cases : (v : Vars W) (r : FactoryResultSet) (p : ProgressVector) → AfterCases v r p
  unfolding after_run
  after_run-cases v r p = elim (Bool-cases (evaluate contract r).complete) [
    | inl done ↦ completes done (rw done)
    | inr open_goal ↦ elim (Bool-cases (reaches v.state.spent_cost contract.max_cost)) [
      | inl spent ↦ breaks "cost_budget_exhausted" open_goal (rw (open_goal, spent))
      | inr left ↦ elim (Option-cases (should_abort contract.abort_conditions v.state)) [
        | inr (reason, met) ↦ breaks reason open_goal (ground arith)
        | inl none_met ↦ elim (Bool-cases (is_empty r.residual_obligations)) [
          | inl starved ↦ stagnates "no_residual_work_for_incomplete_goal" open_goal (ground arith)
          | inr work ↦
              elim (Bool-cases (leb contract.no_progress_limit v.state.no_progress_streak)) [
                | inl stalled ↦ stagnates "no_progress_limit_reached" open_goal (ground arith)
                | inr moving ↦ advances open_goal moving (ground arith)
              ]
        ]
      ]
    ]
  ]

  -- The parts of `run_once`.
  abbrev pub ran : Vars W → FactoryResultSet × W
  ran v = host.run_factory v.current v.intent v.world

  abbrev pub seen_before : Vars W → ℕ
  seen_before v =
      or_zero (lookup (failure_fingerprint host.digest_fingerprint (ran v).0) v.fingerprint_counts)

  abbrev pub ran_progress : Vars W → ProgressVector
  ran_progress v = measure_progress v.previous_result (ran v).0 (seen_before v)

  abbrev pub ran_vars : ℕ → ℕ → Vars W → Vars W
  ran_vars start number v =
      let (now, w) = host.monotonic (ran v).1 in
      account host has_metrics contract number (now - start) v (ran v).0 (ran_progress v)
        (seen_before v) w

  pub run_once_lem :
      (start number : ℕ) (v : Vars W)
      → run_once host has_metrics contract start number v
        ≡ after_run host has_metrics contract (ran_vars start number v) (ran v).0 (ran_progress v)
  unfolding run_once
  run_once_lem start number v = refl

  pub round-stop :
      (start number : ℕ) (v : Vars W) (f : Finished W)
      → before_run host has_metrics contract start v ≡ stop f
      → round host has_metrics contract start number v ≡ stop f
  unfolding round
  round-stop start number v f e = ground arith

  pub round-next :
      (start number : ℕ) (v v' : Vars W)
      → before_run host has_metrics contract start v ≡ next v'
      → round host has_metrics contract start number v
        ≡ after_run host has_metrics contract
            (ran_vars start number v')
            (ran v').0
            (ran_progress v')
  unfolding round
  round-next start number v v' e = ground (arith, run_once_lem start number v')

  -- An invariant is kept by a round if the factory run keeps it behind the tests.
  pub After-round {ℓ} :
      (P : Vars W → Type ℓ) (Q : Finished W → Type ℓ) (start number : ℕ) (v : Vars W)
      → ((u : Vars W) (reason : String)
          → u ≡ timed start v
          → Q (abort host has_metrics contract u reason))
      → ((u : Vars W)
          → u ≡ timed start v
          → reaches v.state.spent_cost contract.max_cost ≡ false
          → After P Q (
              after_run host has_metrics contract
                (ran_vars start number u)
                (ran u).0
                (ran_progress u)))
      → After P Q (round host has_metrics contract start number v)
  After-round P Q start number v broken ran = elim (before_run-cases start v) [
    | aborts reason e ↦ rw (round-stop start number v _ e) (broken (timed start v) reason refl)
    | goes left e ↦ rw (round-next start number v (timed start v) e) (ran (timed start v) refl left)
  ]
