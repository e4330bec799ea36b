-- ===== src/Brakes.antt =====
-- residual/brakes.py: the four brakes. An event is the record of the entries that they read; a
-- count of tokens that is missing, no integer or negative is absent. The clock is read at each
-- update of the budget brake, in nanoseconds. Digests are parameters.
pub mod MaxIteration
pub mod Budget
pub mod NoProgress
pub mod Completion
mod Tests
use residual_agent_harness.Prelude.{
  ℕ, String, Bool, ◌&&◌, Option, none, some, true, false, List, [], ◌∷◌, option_eq, string_eq, ◌==◌,
}

pub data BrakeAction : Type 0 where
  continue escalate abort : BrakeAction

-- The texts of `trip_reason`, with the numbers in them.
pub data Reason : Type 0 where
  passes_used_up : (pass_count max_passes : ℕ) → Reason
  usage_unknown_or_invalid : Reason
  tokens_used_up : (tokens budget : ℕ) → Reason
  time_used_up : (elapsed_ns budget_s : ℕ) → Reason
  identical_call_repeated : (streak : ℕ) → Reason
  all_checks_passed : Reason

pub record BrakeTrip : Type 0 where
  pub brake_name : String
  pub trip_reason : Reason
  pub triggering_obs_hash : String
  pub recommended_action : BrakeAction

pub record ToolCall : Type 0 where
  pub tool : Option String
  pub args : Option String
  pub kwargs : Option String

pub record Event : Type 0 where
  pub kind : Option String
  pub to_state : Option String
  -- `event.get("overall_pass") is True`
  pub overall_pass : Bool
  pub total_tokens : Option ℕ
  -- From the payload.
  pub fingerprint : Option String
  pub call : ToolCall
  pub payload_event : Option String
  pub payload_overall_pass : Bool

-- What the brakes read of a goal specification.
pub record GoalSpec : Type 0 where
  pub max_passes : ℕ
  pub token_budget : ℕ
  -- In nanoseconds, so that fractions of a second are kept.
  pub wall_clock_budget_s : ℕ

abbrev pub is_pass_complete : Event → Bool
is_pass_complete e = e.kind == some "state.transition" && e.to_state == some "pass_complete"

abbrev pub is_response : Event → Bool
is_response e = e.kind == some "llm.response"

abbrev pub is_invocation : Event → Bool
is_invocation e = e.kind == some "tool.invoked"

abbrev pub is_success : Event → Bool
is_success e =
    e.kind == some "custom"
    && e.payload_event == some "verification_report"
    && e.payload_overall_pass

-- The answers to the updates by a list of events, and what they leave behind.
unfoldable pub feed {ℓ κ} :
    {B : Type ℓ} {E : Type κ}
    → (B → E → B × Option BrakeTrip)
    → B
    → List E
    → B × List (Option BrakeTrip)
feed update b [] = (b, [])
feed update b (e ∷ es) =
    let (b', trip) = update b e in let (last, trips) = feed update b' es in (last, trip ∷ trips)

abbrev pub is_tripped : Option BrakeTrip → Bool
is_tripped none = false
is_tripped (some t) = true
