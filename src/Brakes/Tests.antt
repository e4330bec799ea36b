-- ===== src/Brakes/Tests.antt =====
-- Updates by a few events.
use residual_agent_harness.Prelude.{
  ◌≡◌, String, true, false, ◌&&◌, ◌||◌, none, some, [], ◌∷◌, ◌-◌, count, any, leb, if◌then◌else◌,
}
use residual_agent_harness.Brakes.{ToolCall, Event, GoalSpec, is_success, is_tripped, feed}
use residual_agent_harness.Brakes.MaxIteration
use residual_agent_harness.Brakes.Budget
use residual_agent_harness.Brakes.NoProgress
use residual_agent_harness.Brakes.Completion

abbrev silent : Event
silent = record {
  kind = none;
  to_state = none;
  overall_pass = false;
  total_tokens = none;
  fingerprint = none;
  call = record { tool = none; args = none; kwargs = none };
  payload_event = none;
  payload_overall_pass = false;
}

abbrev pass_over : Event
pass_over = record silent { kind = some "state.transition"; to_state = some "pass_complete" }

abbrev response : Event
response = record silent { kind = some "llm.response"; total_tokens = some 6 }

abbrev tool_call : Event
tool_call = record silent { kind = some "tool.invoked"; fingerprint = some "f" }

abbrev success : Event
success = record silent {
  kind = some "custom";
  payload_event = some "verification_report";
  payload_overall_pass = true;
}

abbrev spec : GoalSpec
spec = record { max_passes = 2; token_budget = 10; wall_clock_budget_s = 1500000000 }

abbrev hash : Event → String
hash e = "hash"

abbrev call_digest : ToolCall → String
call_digest c = "call"

abbrev passes : MaxIteration.MaxIterationBrake
passes = record { spec = spec; pass_count = 7 }

abbrev budget : Budget.BudgetBrake
budget = record { spec = spec; tokens_used = 3; start_ns = none }

abbrev repeats : NoProgress.NoProgressBrake
repeats = record { threshold = 2; last_fingerprint = none; streak = 0 }

update-budget_example :
    is_tripped
      (Budget.update hash
        (feed (Budget.update_at hash) (Budget.reset budget) ((response, 5, 6) ∷ [])).0
        response
        7
        8).1
    ≡ (true && Budget.is_over hash spec (Budget.total hash ((response, 5, 6) ∷ [])) (some 6)
        || leb 1500000000 (8 - Budget.first_reading hash ((response, 5, 6) ∷ []) 7))
update-budget_example = Budget.update-budget hash budget ((response, 5, 6) ∷ []) response 7 8

update-repeated_example :
    is_tripped
      (NoProgress.update hash call_digest
        (feed (NoProgress.update hash call_digest) (NoProgress.reset repeats) (tool_call ∷ [])).0
        tool_call).1
    ≡ (true
        && leb 2 (
            NoProgress.run_length (
              NoProgress.fingerprint_of call_digest tool_call
              ∷ NoProgress.calls hash call_digest (tool_call ∷ []) [])))
update-repeated_example =
    NoProgress.update-repeated hash call_digest repeats (tool_call ∷ []) tool_call

feed-trips_once_example :
    count is_tripped
      (feed
        (Completion.update hash)
        (Completion.reset (record { tripped = true }))
        (success ∷ success ∷ [])).1
    ≡ (if any is_success (success ∷ success ∷ []) then 1 else 0)
feed-trips_once_example =
    Completion.feed-trips_once hash (record { tripped = true }) (success ∷ success ∷ [])
