-- ===== src/Brakes/Completion.antt =====
-- residual/brakes.py: `CompletionBrake`.
use residual_agent_harness.Prelude.{
  ◌≡◌, refl, String, Bool, true, false, Option, none, some, List, [], ◌∷◌, arith, any, count,
  nat_eq, option_eq, string_eq, if◌then◌else◌, Bool-cases, inl, inr,
}
use residual_agent_harness.Brakes.{
  BrakeTrip, all_checks_passed, continue, Event, is_success, feed, is_tripped,
}

pub record CompletionBrake : Type 0 where
  pub tripped : Bool

unfoldable pub reset : CompletionBrake → CompletionBrake
reset b = record b { tripped = false }

module _ (obs_hash : Event → String) where
  unfoldable pub update : CompletionBrake → Event → CompletionBrake × Option BrakeTrip
  update b e =
      if b.tripped
      then (b, none)
      else if is_success e
      then (
        record { tripped = true },
        some (record {
          brake_name = "completion";
          trip_reason = all_checks_passed;
          triggering_obs_hash = obs_hash e;
          recommended_action = continue;
        }),
      )
      else (b, none)

  tripped-silent :
      (es : List Event) → count is_tripped (feed update (record { tripped = true }) es).1 ≡ 0
  unfolding feed update count
  tripped-silent [] = refl
  tripped-silent (e ∷ es) = tripped-silent es

  -- Between two resets the brake trips once if one of the events reports an overall success, and
  -- else never.
  pub feed-trips_once :
      (b : CompletionBrake) (es : List Event)
      → count is_tripped (feed update (reset b) es).1 ≡ (if any is_success es then 1 else 0)
  unfolding feed update count any reset
  feed-trips_once b [] = refl
  feed-trips_once b (e ∷ es) = elim (Bool-cases (is_success e)) [
    | inl success ↦ ground (arith, tripped-silent es)
    | inr other ↦ ground (arith, feed-trips_once b es)
  ]
