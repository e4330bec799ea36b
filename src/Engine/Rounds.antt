-- ===== src/Engine/Rounds.antt =====
-- residual/engine.py: the loop of `run`.
use residual_agent_harness.Prelude.{
  ℕ, zero, suc, ◌+◌, String, Bool, true, false, not, ◌&&◌, ◌||◌, ◌==◌, Option, none, some, List, [],
  ◌∷◌, ◌++◌, map, all, contains, is_empty, length, select, nat_eq, string_eq, if◌then◌else◌,
}
use residual_agent_harness.Prelude.Dict.{lookup}
use residual_agent_harness.Prelude.Result.{Result, ok, err}
use residual_agent_harness.Core.Obligation.{Obligation}
use residual_agent_harness.Core.Task.Cloud.{by_id}
use residual_agent_harness.Engine.{
  Mode, full_cloud, local_only, no_solvers, local, expert, from_cache, deterministic, run_started,
  run_finished, Host, Harness, Run,
}
use residual_agent_harness.Engine.Accept.{
  is_there, add, failure, context, cache_key, cached_candidate, accept,
}
use residual_agent_harness.Engine.Calls.{dispatch_to}
use residual_agent_harness.Engine.Results.{result}

-- self.mode in {"full_cloud", "no_solvers"}
abbrev pub skips_solvers : Mode → Bool
skips_solvers full_cloud = true
skips_solvers no_solvers = true
skips_solvers _ = false

abbrev pub is_full_cloud : Mode → Bool
is_full_cloud full_cloud = true
is_full_cloud _ = false

abbrev pub is_local_only : Mode → Bool
is_local_only local_only = true
is_local_only _ = false

module _ {V W : Type 0} (host : Host V W) (h : Harness V W) where
  -- What a solver found.
  unfoldable pub solved : Run V W → Obligation → Option V → Run V W
  solved s o none =
      failure host h s o.id "solver_error" "The local solver failed; use the declared evidence."
  solved s o (some value) =
      let (s', is_accepted) = accept host h s o value deterministic in
      record s' {
        deterministic_accepts =
            if is_accepted then s'.deterministic_accepts + 1 else s'.deterministic_accepts;
      }

  -- The solver of an obligation, where there is one and it may be used. An empty name is none.
  unfoldable pub solve_with : Run V W → Obligation → Option String → Run V W
  unfolding solved
  solve_with s o none = s
  solve_with s o (some name) =
      if name == "" || skips_solvers h.mode
      then s
      else solved s o (host.solve name (context host h s o))

  -- What the cache offers.
  cached : Run V W → Obligation → Option V
  cached s o =
      if h.has_cache
      then elim (host.cache_get (cache_key host h s o) s.world) [
        | none ↦ none
        | some entry ↦ cached_candidate host h s o entry
      ]
      else none

  unfoldable pub try_cached : Run V W → Obligation → Option V → Run V W
  unfolding solve_with
  try_cached s o none = solve_with s o o.solver
  try_cached s o (some value) =
      let (s', is_accepted) = accept host h s o value from_cache in
      let s'' = solve_with s' o o.solver in
      if is_accepted then record s' { cache_hits = s'.cache_hits + 1 } else s''

  unfoldable pub try_found : Run V W → Option Obligation → Run V W
  unfolding try_cached cached
  try_found s none = s
  try_found s (some o) = try_cached s o (cached s o)

  unfoldable pub try_all : Run V W → List String → Run V W
  unfolding try_found
  try_all s [] = s
  try_all s (n ∷ ns) = try_all (try_found s (by_id h.task.obligations n)) ns

  unfoldable pub is_ready : Run V W → List String → Obligation → Bool
  is_ready s attempted o =
      not (is_there (lookup o.id s.accepted))
      && not (contains o.id attempted)
      && all (λ d. is_there (lookup d s.accepted)) o.depends_on

  unfoldable pub ready_ids : Run V W → List String → List String
  unfolding is_ready
  ready_ids s attempted = map (λ o. o.id) (select (is_ready s attempted) h.task.obligations)

  -- The local attempts and the calls for what is ready.
  unfoldable pub attempt : Run V W → List String → Run V W
  unfolding try_all dispatch_to
  attempt s0 ready =
      let s1 = try_all s0 ready in
      let s2 =
        if is_full_cloud h.mode
        then s1
        else dispatch_to host h h.local ready local h.limits.local_rounds s1 in
      if is_local_only h.mode
      then s2
      else dispatch_to host h h.expert ready expert h.limits.expert_rounds s2

  -- The `while` loop; absent where the fuel runs out.
  unfoldable pub loop : ℕ → Run V W → List String → Option (Run V W)
  unfolding ready_ids attempt
  loop zero s attempted = none
  loop (suc fuel) s attempted =
      let ready = ready_ids s attempted in
      let rest = loop fuel (attempt s ready) (attempted ++ ready) in
      if is_empty ready then some s else rest

  unfoldable pub is_registered : Obligation → Bool
  is_registered o =
      is_there (host.revision o.check)
      && elim o.solver [ none ↦ true | some name ↦ name == "" || host.has_solver name ]

  unfoldable pub start : W → Run V W
  start w = record {
    accepted = [];
    receipts = [];
    station_receipts = [];
    failures = [];
    windows = [];
    calls = [];
    ledger = run_started ∷ [];
    cache_hits = 0;
    deterministic_accepts = 0;
    remote_bytes = 0;
    expert_calls = 0;
    world = w;
  }

  -- `unregistered` is the `ContractError` of the first loop. One round more than there are
  -- obligations is enough.
  pub data RunError : Type 0 where
    unregistered out_of_fuel : RunError

  unfoldable pub run : W → Result RunError (Run V W)
  unfolding loop is_registered start
  run w =
      if all is_registered h.task.obligations
      then elim (loop (suc (length h.task.obligations)) (start w) []) [
        | none ↦ err out_of_fuel
        | some s ↦ ok (add host h s (run_finished (result h s).success))
      ]
      else err unregistered
