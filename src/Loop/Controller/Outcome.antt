-- ===== src/Loop/Controller/Outcome.antt =====
-- What each way to end says of the result.
use residual_agent_harness.Prelude.{
  ℕ, Bool, true, false, String, ◌≡◌, ◌≢◌, refl, some, List, [], ◌∷◌, ◌++◌, All,
}
use residual_agent_harness.Core.Obligation.{Obligation}
use residual_agent_harness.Loop.State.{
  MissionStatus, complete, stagnated, aborted, FactoryResultSet, ProgressVector, ExecutionIntent,
  LoopIterationRecord,
}
use residual_agent_harness.Loop.Goal.{GoalContract, is_falsy, evaluate}
use residual_agent_harness.Loop.Goal.Completion.{IsVerified, evaluate-complete_iff}
use residual_agent_harness.Loop.Controller.{
  Host, Finished, Vars, with_status, abort, conclude, account, after_run, round, exhaust, run,
}
use residual_agent_harness.Loop.Controller.Cases.{
  ran, ran_vars, ran_progress, After, run_ind, After-round, after_run-cases, completes, breaks,
  stagnates, advances,
}

module _ {W : Type 0} (host : Host W) (has_metrics : Bool) (contract : GoalContract) where
  -- The last factory run of a mission: what it was asked, the worlds before and behind it, and
  -- what it gave. Behind it the clock is read once more and nothing else happens; the last
  -- iteration and the evaluation are those of its result, and the evaluation is complete.
  pub record HasLastRun (f : Finished W) : Type 0 where
    pub obligations : List Obligation
    pub intent : ExecutionIntent
    pub before : W
    pub behind : W
    pub result : FactoryResultSet
    pub ran : host.run_factory obligations intent before ≡ (result, behind)
    pub is_last : f.world ≡ (host.monotonic behind).1
    pub earlier : List LoopIterationRecord
    pub record_of_it : LoopIterationRecord
    pub recorded : f.result.iterations ≡ earlier ++ record_of_it ∷ []
    pub named : record_of_it.factory_run_id ≡ result.factory_run_id
    pub evaluated : f.result.goal_evaluation ≡ some (evaluate contract result)
    pub is_complete : (evaluate contract result).complete ≡ true
    pub tree : f.result.state.accepted_tree_hash ≡ result.accepted_tree_hash
    pub root : f.result.state.accepted_evidence_root ≡ result.accepted_evidence_root

  -- What each status says of the result.
  record IsSettled (f : Finished W) : Type 0 where
    shown : f.result.state.status ≡ some f.result.status
    completed : f.result.status ≡ complete → HasLastRun f
    cancelled : f.result.status ≡ aborted → (w : W) × (f.world ≡ host.cancel_inflight w)

  abort-IsSettled :
      (v : Vars W) (reason : String) → IsSettled (abort host has_metrics contract v reason)
  unfolding abort with_status
  abort-IsSettled v reason = record {
    shown = refl;
    completed = λ p. cc;
    cancelled = λ p. (v.world, refl);
  }

  conclude-IsSettled :
      (v : Vars W) (progress : ProgressVector) (status : MissionStatus) (reason : String)
      → status ≢ complete
      → status ≢ aborted
      → IsSettled (conclude host has_metrics contract v progress status reason)
  unfolding conclude with_status
  conclude-IsSettled v progress status reason c a = record {
    shown = refl;
    completed = λ p. absurd (c p);
    cancelled = λ p. absurd (a p);
  }

  ran-HasLastRun :
      (start number : ℕ) (u : Vars W) (p : ProgressVector)
      → (evaluate contract (ran host has_metrics contract u).0).complete ≡ true
      → HasLastRun (
          conclude host has_metrics contract
            (ran_vars host has_metrics contract start number u)
            p
            complete
            "goal_predicates_satisfied")
  unfolding conclude with_status account
  ran-HasLastRun start number u p done = record {
    obligations = u.current;
    intent = u.intent;
    before = u.world;
    behind = (ran host has_metrics contract u).1;
    result = (ran host has_metrics contract u).0;
    ran = refl;
    is_last = refl;
    earlier = u.records;
    record_of_it = _;
    recorded = refl;
    named = refl;
    evaluated = refl;
    is_complete = done;
    tree = refl;
    root = refl;
  }

  completes-IsSettled :
      (v : Vars W) (p : ProgressVector) (reason : String)
      → HasLastRun (conclude host has_metrics contract v p complete reason)
      → IsSettled (conclude host has_metrics contract v p complete reason)
  unfolding conclude with_status
  completes-IsSettled v p reason last = record {
    shown = refl;
    completed = λ q. last;
    cancelled = λ q. absurd (cc);
  }

  ran-IsSettled :
      (start number : ℕ) (u : Vars W) (p : ProgressVector)
      → After
          (λ (v' : Vars W). Unit {0})
          IsSettled
          (after_run host has_metrics contract
            (ran_vars host has_metrics contract start number u)
            (ran host has_metrics contract u).0
            p)
  ran-IsSettled start number u p =
      let v = ran_vars host has_metrics contract start number u in
      elim (after_run-cases host has_metrics contract v (ran host has_metrics contract u).0 p) [
        | completes done e ↦ rw e (completes-IsSettled v p _ (ran-HasLastRun start number u p done))
        | breaks reason open_goal e ↦ rw e (abort-IsSettled v reason)
        | stagnates reason open_goal e ↦
            rw e (conclude-IsSettled v p stagnated reason (λ q. cc) (λ q. cc))
        | advances open_goal moving e ↦ rw e tt
      ]

  round-IsSettled :
      (start number : ℕ) (v : Vars W)
      → After (λ (v' : Vars W). Unit {0}) IsSettled (round host has_metrics contract start number v)
  round-IsSettled start number v =
      After-round host has_metrics contract (λ v'. Unit {0}) IsSettled start number v
        (λ u reason same. abort-IsSettled u reason)
        (λ u same left. ran-IsSettled start number u (ran_progress host has_metrics contract u))

  exhaust-IsSettled : (v : Vars W) → IsSettled (exhaust host has_metrics contract v)
  unfolding exhaust with_status
  exhaust-IsSettled v = record {
    shown = refl;
    completed = λ p. absurd (cc);
    cancelled = λ p. absurd (cc);
  }

  run-IsSettled :
      (obligations : List Obligation) (w : W)
      → IsSettled (run host has_metrics contract obligations w)
  run-IsSettled obligations w =
      run_ind host has_metrics contract (λ number v. Unit {0}) IsSettled
        (record {
          keep = λ start number v p in_range. round-IsSettled start number v;
          finish = λ number v p last. exhaust-IsSettled v;
        })
        obligations w (λ w'. tt)

  -- A mission ends as complete only behind a last run of the factory, after which only the clock
  -- is read: the last iteration names that run, its tree and evidence are those that the final
  -- state shows, both hashes are present and not empty, and every required id has its last
  -- verification in the result of the run passed at just that tree and evidence.
  pub run-complete :
      (obligations : List Obligation) (w : W)
      → (run host has_metrics contract obligations w).result.status ≡ complete
      → (last : HasLastRun (run host has_metrics contract obligations w)) × (is_falsy
            last.result.accepted_tree_hash
          ≡ false)
        × (is_falsy last.result.accepted_evidence_root ≡ false)
        × All (IsVerified last.result) contract.required_verification_ids
  run-complete obligations w h =
      let last = (run-IsSettled obligations w).completed h in
      let (has_tree, has_root, verified) =
        (evaluate-complete_iff contract last.result).0 last.is_complete in
      (last, has_tree, has_root, verified)

  -- The state of a finished mission shows the status of its result; and a mission that is
  -- aborted has cancelled the factory's work as its last act.
  pub run-status :
      (obligations : List Obligation) (w : W)
      → ((run host has_metrics contract obligations w).result.state.status
          ≡ some (run host has_metrics contract obligations w).result.status)
        × ((run host has_metrics contract obligations w).result.status ≡ aborted
            → (w' : W) × ((run host has_metrics contract obligations w).world
                ≡ host.cancel_inflight w'))
  run-status obligations w =
      ((run-IsSettled obligations w).shown, (run-IsSettled obligations w).cancelled)
