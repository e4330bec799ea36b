-- ===== src/Loop/Controller/Bounds.antt =====
-- The numbers of the iterations: `for iteration in range(1, self.contract.max_iterations + 1)`.
use residual_agent_harness.Prelude.{
  ℕ, zero, suc, ◌+◌, ◌≤◌, ◌≡◌, refl, ap, ◌∙◌, Bool, List, [], ◌∷◌, ◌++◌, map, map-append, arith,
}
use residual_agent_harness.Core.Obligation.{Obligation}
use residual_agent_harness.Loop.State.{
  exhausted, FactoryResultSet, ProgressVector, LoopIterationRecord,
}
use residual_agent_harness.Loop.Goal.{GoalContract}
use residual_agent_harness.Loop.Controller.{
  Host, Finished, Vars, with_status, abort, conclude, account, advance, after_run, round, exhaust,
  run, start_vars,
}
use residual_agent_harness.Loop.Controller.Cases.{
  After, run_ind, After-round, after_run-cases, completes, breaks, stagnates, advances, timed,
}

-- The numbers from 1 to n.
unfoldable pub numbers : ℕ → List ℕ
numbers zero = []
numbers (suc n) = numbers n ++ suc n ∷ []

abbrev pub numbers_of : List LoopIterationRecord → List ℕ
numbers_of rs = map (λ r. r.iteration) rs

numbers_of-snoc :
    (rs : List LoopIterationRecord) (r : LoopIterationRecord)
    → numbers_of (rs ++ r ∷ []) ≡ numbers_of rs ++ r.iteration ∷ []
numbers_of-snoc rs r = map-append (λ t. t.iteration) rs (r ∷ [])

numbers-snoc : (n m : ℕ) → n + 1 ≡ m → numbers n ++ m ∷ [] ≡ numbers m
unfolding numbers
numbers-snoc n zero e = absurd (omega arith)
numbers-snoc n (suc m) e = let same : n ≡ m = omega arith in ap (λ k. numbers k ++ suc m ∷ []) same

module _ {W : Type 0} (host : Host W) (has_metrics : Bool) (contract : GoalContract) where
  -- The variables when round `number` starts.
  record IsNumbered (number : ℕ) (v : Vars W) : Type 0 where
    at : v.state.iteration + 1 ≡ number
    listed : numbers_of v.records ≡ numbers v.state.iteration

  record IsBounded (f : Finished W) : Type 0 where
    listed : numbers_of f.result.iterations ≡ numbers f.result.state.iteration
    bounded : f.result.state.iteration ≤ contract.max_iterations
    used_up : f.result.status ≡ exhausted → f.result.state.iteration ≡ contract.max_iterations

  account-IsNumbered :
      (number elapsed : ℕ) (v : Vars W) (r : FactoryResultSet) (p : ProgressVector) (seen : ℕ)
      (w : W)
      → IsNumbered number v
      → IsNumbered (number + 1) (account host has_metrics contract number elapsed v r p seen w)
  unfolding account numbers
  account-IsNumbered number elapsed v r p seen w i = record {
    at = refl;
    listed =
        numbers_of-snoc v.records _
        ∙ (ap (λ t. t ++ number ∷ []) i.listed ∙ numbers-snoc v.state.iteration number i.at);
  }

  advance-IsNumbered :
      (number : ℕ) (v : Vars W) (r : FactoryResultSet) (p : ProgressVector)
      → IsNumbered number v
      → IsNumbered number (advance host has_metrics contract v r p)
  unfolding advance
  advance-IsNumbered number v r p i =
      let same : (advance host has_metrics contract v r p).state.iteration ≡ v.state.iteration =
        ground arith in
      record { at = rw same i.at; listed = rw same i.listed }

  after_run-IsBounded :
      (number : ℕ) (v : Vars W) (r : FactoryResultSet) (p : ProgressVector)
      → number ≤ contract.max_iterations
      → IsNumbered (number + 1) v
      → After (IsNumbered (number + 1)) IsBounded (after_run host has_metrics contract v r p)
  unfolding abort conclude with_status advance
  after_run-IsBounded number v r p in_range i =
      elim (after_run-cases host has_metrics contract v r p) [
        | completes done e ↦ rw e (record {
          listed = i.listed;
          bounded = ground (arith, i.at);
          used_up = λ q. absurd (cc);
        })
        | breaks reason open_goal e ↦ rw e (record {
          listed = i.listed;
          bounded = ground (arith, i.at);
          used_up = λ q. absurd (cc);
        })
        | stagnates reason open_goal e ↦ rw e (record {
          listed = i.listed;
          bounded = ground (arith, i.at);
          used_up = λ q. absurd (cc);
        })
        | advances open_goal moving e ↦ rw e (advance-IsNumbered (number + 1) v r p i)
      ]

  round-IsBounded :
      (start number : ℕ) (v : Vars W)
      → IsNumbered number v
      → number ≤ contract.max_iterations
      → After (IsNumbered (number + 1)) IsBounded (round host has_metrics contract start number v)
  unfolding timed abort with_status
  round-IsBounded start number v i in_range =
      After-round host has_metrics contract (IsNumbered (number + 1)) IsBounded start number v
        (λ u reason same. rw same (record {
          listed = i.listed;
          bounded = ground (arith, i.at);
          used_up = λ q. absurd (cc);
        }))
        (λ u same left. after_run-IsBounded number _ _ _ in_range (
          account-IsNumbered number _ u _ _ _ _
            (rw same (record { at = i.at; listed = i.listed }))))

  run-IsBounded :
      (obligations : List Obligation) (w : W)
      → IsBounded (run host has_metrics contract obligations w)
  unfolding start_vars exhaust with_status numbers
  run-IsBounded obligations w =
      run_ind host has_metrics contract IsNumbered IsBounded
        (record {
          keep = λ start number v p in_range. round-IsBounded start number v p in_range;
          finish = λ number v p last. record {
            listed = p.listed;
            bounded = ground (arith, p.at, last);
            used_up = λ q. ground (arith, p.at, last);
          };
        })
        obligations w (λ w'. record { at = refl; listed = refl })

  -- The iterations of a mission are numbered from 1 without a gap, the last of them is the final
  -- state's, there are at most as many as the contract allows, and a mission that ends as
  -- exhausted has used them all up.
  pub run-numbered :
      (obligations : List Obligation) (w : W)
      → (numbers_of (run host has_metrics contract obligations w).result.iterations
          ≡ numbers (run host has_metrics contract obligations w).result.state.iteration)
        × ((run host has_metrics contract obligations w).result.state.iteration
            ≤ contract.max_iterations)
        × ((run host has_metrics contract obligations w).result.status ≡ exhausted
            → (run host has_metrics contract obligations w).result.state.iteration
              ≡ contract.max_iterations)
  run-numbered obligations w =
      let b = run-IsBounded obligations w in (b.listed, b.bounded, b.used_up)
